-- ===== src/Keys/Device/Fragments.antt =====
-- What the parsers of the fragments find in a runtime key.
use logi_battery.Base.{
  ℕ, suc, ◌/◌, ◌%◌, ◌<◌, ◌≡◌, ◌∙◌, ap, refl, List, [], ◌∷◌, ◌++◌, Option, none, some, Bool, true,
  false, not, ◌&&◌, ◌||◌, length, All, ◌==◌, ltb, if◌then◌else◌, is_some, passes_to, passes_to_at,
  arith, Bool-cases, inl, inr,
}
use logi_battery.Keys.Text.{
  codes, parse_u8, strip_prefix, split_once, rsplit_once, splitn, is_hexdigit, all_hexdigits,
  hex_digit, hex4, decimal_u8, decimal, push_front, parts_of, or_here,
}
use logi_battery.Keys.Device.{
  is_nil, receiver_key_is_valid, direct_identity_fragment, raw_identity_fragment,
  unknown_identity_fragment, direct_part, raw_part, unknown_part, is_receiver_part,
}

pub and_true : (b : Bool) → (b && true) ≡ b
and_true true = refl
and_true false = refl

pub or_false : (b : Bool) → (b || false) ≡ b
or_false true = refl
or_false false = refl

-- No code point of the text is a colon.
abbrev NoColon : List ℕ → Type 0
NoColon = All (λ c. (c == b':') ≡ false)

split_once-append :
    (a rest : List ℕ) → NoColon a → split_once b':' (a ++ b':' ∷ rest) ≡ some (a, rest)
unfolding split_once
split_once-append [] rest h = refl
split_once-append (c ∷ a) rest h = rw (h.0) (ap (push_front c) (split_once-append a rest h.1))

digit_table : passes_to (λ n. is_hexdigit (hex_digit n) && not (hex_digit n == b':')) 16 ≡ true
unfolding passes_to is_hexdigit hex_digit
digit_table = refl

pub hex_digit_lem :
    (n : ℕ) → n < 16 → (is_hexdigit (hex_digit n) ≡ true) × ((hex_digit n == b':') ≡ false)
hex_digit_lem n h =
    let cell =
      passes_to_at (λ k. is_hexdigit (hex_digit k) && not (hex_digit k == b':')) 16 n digit_table
        h in
    ground arith

hex4-NoColon : (v : ℕ) → v < 65536 → NoColon (hex4 v)
unfolding hex4
hex4-NoColon v h =
    let a = hex_digit_lem (v / 4096) (omega arith) in
    let b = hex_digit_lem (v / 256 % 16) (omega arith) in
    let c = hex_digit_lem (v / 16 % 16) (omega arith) in
    let d = hex_digit_lem (v % 16) (omega arith) in (a.1, (b.1, (c.1, (d.1, tt))))

all_hexdigits-hex4 : (v : ℕ) → v < 65536 → all_hexdigits (hex4 v) ≡ true
unfolding hex4 all_hexdigits
all_hexdigits-hex4 v h =
    let a = hex_digit_lem (v / 4096) (omega arith) in
    let b = hex_digit_lem (v / 256 % 16) (omega arith) in
    let c = hex_digit_lem (v / 16 % 16) (omega arith) in
    let d = hex_digit_lem (v % 16) (omega arith) in rw (a.0) (rw (b.0) (rw (c.0) (rw (d.0) refl)))

length-hex4 : (v : ℕ) → length (hex4 v) ≡ 4
unfolding hex4
length-hex4 v = refl

-- A slot in a key is read back, and the text before it is what stands before the last ":slot:".
slot_table :
    passes_to
      (λ n.
        is_some (parse_u8 (decimal_u8 n))
        && not (is_some (rsplit_once (codes ":slot:") (codes "slot:" ++ decimal_u8 n))))
      256
    ≡ true
unfolding passes_to parse_u8 decimal_u8 decimal rsplit_once
slot_table = refl

two_parts :
    (n : ℕ) (a rest : List ℕ)
    → NoColon a
    → splitn (suc (suc n)) b':' (a ++ b':' ∷ rest) ≡ a ∷ splitn (suc n) b':' rest
unfolding splitn
two_parts n a rest h =
    ap (parts_of (a ++ b':' ∷ rest) (splitn (suc n) b':')) (split_once-append a rest h)

pub is_word : (v : ℕ) → v < 65536 → (length (hex4 v) == 4 && all_hexdigits (hex4 v)) ≡ true
is_word v h = rw (length-hex4 v) (all_hexdigits-hex4 v h)

pub direct_fragment :
    (v p : ℕ) (rest : List ℕ)
    → v < 65536
    → p < 65536
    → direct_identity_fragment (codes "direct:" ++ (hex4 v ++ (b':' ∷ hex4 p ++ (b':' ∷ rest))))
      ≡ some rest
unfolding direct_identity_fragment strip_prefix splitn
direct_fragment v p rest hv hp =
    ap direct_part (
      two_parts 1 (hex4 v) (hex4 p ++ (b':' ∷ rest)) (hex4-NoColon v hv)
      ∙ ap (λ ps. hex4 v ∷ ps) (two_parts 0 (hex4 p) rest (hex4-NoColon p hp)))
    ∙ rw (is_word v hv) (rw (is_word p hp) refl)

pub raw_fragment :
    (v p g u : ℕ) (identity : List ℕ)
    → v < 65536
    → p < 65536
    → g < 65536
    → u < 65536
    → raw_identity_fragment (
        codes "raw:"
        ++ (hex4 v ++ (b':' ∷ hex4 p ++ (b':' ∷ hex4 g ++ (b':' ∷ hex4 u ++ (b':' ∷ identity))))))
      ≡ (if not (is_nil identity) then some identity else none)
unfolding raw_identity_fragment strip_prefix splitn
raw_fragment v p g u identity hv hp hg hu =
    ap raw_part (
      two_parts 3 (hex4 v) (hex4 p ++ (b':' ∷ hex4 g ++ (b':' ∷ hex4 u ++ (b':' ∷ identity))))
        (hex4-NoColon v hv)
      ∙ ap (λ ps. hex4 v ∷ ps)
          (two_parts 2 (hex4 p) (hex4 g ++ (b':' ∷ hex4 u ++ (b':' ∷ identity))) (hex4-NoColon p hp)
            ∙ ap (λ ps. hex4 p ∷ ps)
                (two_parts 1 (hex4 g) (hex4 u ++ (b':' ∷ identity)) (hex4-NoColon g hg)
                  ∙ ap (λ ps. hex4 g ∷ ps) (two_parts 0 (hex4 u) identity (hex4-NoColon u hu)))))
    ∙ rw (is_word v hv) (rw (is_word p hp) (rw (is_word g hg) (rw (is_word u hu) refl)))

slot_cell :
    (n : ℕ)
    → n < 256
    → (is_some (parse_u8 (decimal_u8 n)) ≡ true)
      × (rsplit_once (codes ":slot:") (codes "slot:" ++ decimal_u8 n) ≡ none)
slot_cell n h =
    let cell =
      passes_to_at
        (λ k.
          is_some (parse_u8 (decimal_u8 k))
          && not (is_some (rsplit_once (codes ":slot:") (codes "slot:" ++ decimal_u8 k))))
        256 n slot_table h in
    (ground arith, ground arith)

slot-NoColon : (n : ℕ) → n < 256 → NoColon (decimal_u8 n)
unfolding decimal_u8 decimal
slot-NoColon n h = elim (Bool-cases (ltb n 100)) [
  | inl s ↦ elim (Bool-cases (ltb n 10)) [
    | inl t ↦ rw s (rw t (ground arith, tt))
    | inr f ↦ rw s (rw f (ground arith, (ground arith, tt)))
  ]
  | inr b ↦ rw b (ground arith, (ground arith, (ground arith, tt)))
]

pub unknown_fragment :
    (n : ℕ) (identity : List ℕ)
    → n < 256
    → unknown_identity_fragment (codes "unknown:slot:" ++ (decimal_u8 n ++ (b':' ∷ identity)))
      ≡ some identity
unfolding unknown_identity_fragment strip_prefix
unknown_fragment n identity h =
    ap unknown_part (split_once-append (decimal_u8 n) identity (slot-NoColon n h))
    ∙ rw ((slot_cell n h).0) refl

rsplit_step :
    (p cs : List ℕ) (c : ℕ) {o : Option (List ℕ × List ℕ)}
    → rsplit_once p cs ≡ o
    → rsplit_once p (c ∷ cs) ≡ or_here c o (strip_prefix p (c ∷ cs))
unfolding rsplit_once
rsplit_step p cs c e = ap (λ r. or_here c r (strip_prefix p (c ∷ cs))) e

-- The last ":slot:" of a receiver key stands before the slot.
rsplit_slot-append :
    (uid : List ℕ) (n : ℕ)
    → n < 256
    → rsplit_once (codes ":slot:") (uid ++ (codes ":slot:" ++ decimal_u8 n))
      ≡ some (uid, decimal_u8 n)
unfolding strip_prefix
rsplit_slot-append [] n h =
    rsplit_step (codes ":slot:") (codes "slot:" ++ decimal_u8 n) b':' (slot_cell n h).1
rsplit_slot-append (c ∷ uid) n h =
    rsplit_step (codes ":slot:") (uid ++ (codes ":slot:" ++ decimal_u8 n)) c
      (rsplit_slot-append uid n h)

pub receiver_valid :
    (uid : List ℕ) (n : ℕ)
    → n < 256
    → receiver_key_is_valid (codes "receiver:" ++ (uid ++ (codes ":slot:" ++ decimal_u8 n)))
      ≡ not (is_nil uid)
unfolding receiver_key_is_valid strip_prefix
receiver_valid uid n h =
    ap is_receiver_part (rsplit_slot-append uid n h)
    ∙ rw ((slot_cell n h).0) (and_true (not (is_nil uid)))
