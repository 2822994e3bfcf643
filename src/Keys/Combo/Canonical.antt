-- ===== src/Keys/Combo/Canonical.antt =====
-- The canonical text of a shortcut.
use logi_battery.Base.{
  ℕ, ◌<◌, ◌≡◌, refl, List, [], ◌∷◌, Option, none, some, Bool, true, false, ◌&&◌, ◌==◌,
  if◌then◌else◌, passes_to, passes_to_at, arith, Bool-cases, inl, inr, bit_or, ltb,
}
use logi_battery.Keys.Text.{trim, split, to_ascii_lowercase}
use logi_battery.Keys.Combo.{
  KeyCombo, Parsed, ok, err, empty, unknown_token, is_usage, from_str, rendered_label,
  parse_modifier, parse_key, checked, usage_of, tokens, with_key, with_token, finished, is_nil,
}

-- The modifier bits and the usage that the types allow.
pub record IsCombo (c : KeyCombo) : Type 0 where
  pub modifier_bits : c.modifiers < 16
  pub usage : is_usage c.key ≡ true

reads_as : KeyCombo → Parsed KeyCombo → Bool
reads_as c (ok d) = c.modifiers == d.modifiers && c.key == d.key
reads_as c (err e) = false

reads_back : ℕ → ℕ → Bool
unfolding reads_as from_str rendered_label is_usage
reads_back m k =
    if is_usage k
    then reads_as (record { modifiers = m; key = k })
        (from_str (rendered_label (record { modifiers = m; key = k })))
    else true

table : passes_to (λ m. passes_to (reads_back m) 0x70) 16 ≡ true
unfolding passes_to reads_back
table = refl

reads_as-eq : (c : KeyCombo) (p : Parsed KeyCombo) → reads_as c p ≡ true → p ≡ ok c
unfolding reads_as
reads_as-eq c (ok d) h = ground arith
reads_as-eq c (err e) h = cc

usage_small : (k : ℕ) → is_usage k ≡ true → k < 0x70
unfolding is_usage
usage_small k h = ground arith

at_usage :
    (c : KeyCombo)
    → is_usage c.key ≡ true
    → reads_back c.modifiers c.key ≡ true
    → reads_as c (from_str (rendered_label c)) ≡ true
unfolding reads_back
at_usage c u h = rw u at h

-- The text of every shortcut reads back as the shortcut.
pub from_str-rendered_label : (c : KeyCombo) → IsCombo c → from_str (rendered_label c) ≡ ok c
from_str-rendered_label c v =
    let row =
      passes_to_at (λ m. passes_to (reads_back m) 0x70) 16 c.modifiers table v.modifier_bits in
    let cell = passes_to_at (reads_back c.modifiers) 0x70 c.key row (usage_small c.key v.usage) in
    reads_as-eq c _ (at_usage c v.usage cell)

bits_table : passes_to (λ m. passes_to (λ n. ltb (bit_or m n) 16) 9) 16 ≡ true
unfolding passes_to
bits_table = refl

or_small : (m n : ℕ) → m < 16 → n < 9 → bit_or m n < 16
or_small m n hm hn =
    let row = passes_to_at (λ a. passes_to (λ b. ltb (bit_or a b) 16) 9) 16 m bits_table hm in
    let cell = passes_to_at (λ b. ltb (bit_or m b) 16) 9 n row hn in ground arith

modifier_small : (token : List ℕ) {n : ℕ} → parse_modifier token ≡ some n → n < 9
unfolding parse_modifier
modifier_small token e = ground arith

checked_usage : (token : List ℕ) (o : Option ℕ) {k : ℕ} → checked token o ≡ ok k → is_usage k ≡ true
unfolding checked
checked_usage token none e = cc
checked_usage token (some u) e = ground arith

-- A key so far is one that the types allow.
abbrev IsKey : Option ℕ → Type 0
IsKey none = Unit
IsKey (some k) = is_usage k ≡ true

-- The rest of the loop keeps to the types.
abbrev Allows : (ℕ → Option ℕ → Parsed KeyCombo) → Type 0
Allows rest =
    (m : ℕ) (k : Option ℕ) → m < 16 → IsKey k → (c : KeyCombo) → rest m k ≡ ok c → IsCombo c

parse_key-usage : (token : List ℕ) {k : ℕ} → parse_key token ≡ ok k → is_usage k ≡ true
unfolding parse_key
parse_key-usage token e = checked_usage token (usage_of (to_ascii_lowercase token)) e

with_key-IsCombo :
    (p : Parsed ℕ) (rest : ℕ → Parsed KeyCombo) {c : KeyCombo}
    → ((k : ℕ) → p ≡ ok k → rest k ≡ ok c → IsCombo c)
    → with_key p rest ≡ ok c
    → IsCombo c
with_key-IsCombo (ok k) rest h e = h k refl e
with_key-IsCombo (err x) rest h e = cc

finished-IsCombo :
    (m k : ℕ) → m < 16 → is_usage k ≡ true → (c : KeyCombo) → finished m (some k) ≡ ok c → IsCombo c
finished-IsCombo m k hm hk c e = ground arith

with_token-IsCombo :
    (o : Option ℕ) (token : List ℕ) (m : ℕ) (k : Option ℕ) (rest : ℕ → Option ℕ → Parsed KeyCombo)
    → parse_modifier token ≡ o
    → m < 16
    → IsKey k
    → Allows rest
    → (c : KeyCombo) → with_token o token m k rest ≡ ok c
    → IsCombo c
with_token-IsCombo (some n) token m k rest p hm hk h c e =
    h (bit_or m n) k (or_small m n hm (modifier_small token p)) hk c e
with_token-IsCombo none token m (some k) rest p hm hk h c e = cc
with_token-IsCombo none token m none rest p hm hk h c e =
    with_key-IsCombo (parse_key token) (λ k. rest m (some k))
      (λ k q. h m (some k) hm (parse_key-usage token q) c) e

tokens-IsCombo : (ts : List (List ℕ)) → Allows (λ m k. tokens m k ts)
unfolding tokens
tokens-IsCombo [] m none hm hk c e = cc
tokens-IsCombo [] m (some k) hm hk c e = finished-IsCombo m k hm hk c e
tokens-IsCombo (raw ∷ ts) m k hm hk c e = elim (Bool-cases (is_nil (trim raw))) [
  | inl t ↦ (let f : err (unknown_token raw) ≡ ok c = rw t at e in cc)
  | inr n ↦
      with_token-IsCombo (parse_modifier (trim raw)) (trim raw) m k (λ m' k'. tokens m' k' ts) refl
        hm hk (tokens-IsCombo ts) c (rw n at e)
]

from_str-IsCombo : (text : List ℕ) (c : KeyCombo) → from_str text ≡ ok c → IsCombo c
unfolding from_str
from_str-IsCombo text c e = elim (Bool-cases (is_nil (trim text))) [
  | inl t ↦ (let f : err empty ≡ ok c = rw t at e in cc)
  | inr n ↦ tokens-IsCombo (split b'+' (trim text)) 0 none (omega arith) tt c (rw n at e)
]

-- Whatever text is read as a shortcut, the shortcut has none but the four modifier bits and a supported
-- key, and its label reads as the same shortcut.
pub from_str-canonical :
    (text : List ℕ) (c : KeyCombo)
    → from_str text ≡ ok c
    → IsCombo c × (from_str (rendered_label c) ≡ ok c)
from_str-canonical text c e = let v = from_str-IsCombo text c e in (v, from_str-rendered_label c v)
