-- ===== src/Keys/Device/Identity.antt =====
-- A serial number or a unit id in a key, and whether it names a device.
use logi_battery.Base.{
  ℕ, ◌/◌, ◌%◌, ◌<◌, ◌≡◌, ◌∙◌, ap, ap₂, sym, refl, List, [], ◌∷◌, ◌++◌, some, Bool, true, false, not,
  ◌&&◌, length, All, ◌==◌, passes_to, passes_to_at, arith, IsByte,
}
use logi_battery.Keys.Text.{codes, same_text, strip_prefix, all_hexdigits, hex_digit, hex2}
use logi_battery.Keys.Device.{
  DeviceIdentity, serial, unit, is_nil, key, hex_unit, all_zero, is_physical,
  identity_fragment_is_physical, is_unit_text,
}
use logi_battery.Keys.Device.Fragments.{or_false, hex_digit_lem}

same_bool : Bool → Bool → Bool
same_bool true b = b
same_bool false b = not b

zero_table : passes_to (λ n. same_bool (hex_digit n == b'0') (n == 0)) 16 ≡ true
unfolding passes_to hex_digit same_bool
zero_table = refl

same_bool-eq : (a b : Bool) → same_bool a b ≡ true → a ≡ b
unfolding same_bool
same_bool-eq true b h = sym h
same_bool-eq false true h = cc
same_bool-eq false false h = refl

zero_digit : (n : ℕ) → n < 16 → (hex_digit n == b'0') ≡ (n == 0)
zero_digit n h =
    same_bool-eq _ _
      (passes_to_at (λ k. same_bool (hex_digit k == b'0') (k == 0)) 16 n zero_table h)

zero_byte : (b : ℕ) (rest : Bool) → (b / 16 == 0 && (b % 16 == 0 && rest)) ≡ (b == 0 && rest)
zero_byte b rest = ground arith

-- The two digits of a byte are zeros exactly for the byte 0.
byte_zeros :
    (b : ℕ) (ds : List ℕ) (zs : List ℕ)
    → b < 256
    → same_text (hex2 b ++ ds) (b'0' ∷ b'0' ∷ zs) ≡ (b == 0 && same_text ds zs)
unfolding same_text hex2
byte_zeros b ds zs h =
    rw (zero_digit (b / 16) (omega arith))
      (rw (zero_digit (b % 16) (omega arith)) (zero_byte b (same_text ds zs)))

byte_digits : (b : ℕ) (ds : List ℕ) → b < 256 → all_hexdigits (hex2 b ++ ds) ≡ all_hexdigits ds
unfolding all_hexdigits hex2
byte_digits b ds h =
    rw ((hex_digit_lem (b / 16) (omega arith)).0)
      (rw ((hex_digit_lem (b % 16) (omega arith)).0) refl)

unit_physical :
    (a b c d : ℕ)
    → a < 256
    → b < 256
    → c < 256
    → d < 256
    → is_unit_text (some (hex_unit (a ∷ b ∷ c ∷ d ∷ []))) ≡ not (all_zero (a ∷ b ∷ c ∷ d ∷ []))
unfolding hex_unit all_hexdigits same_text
unit_physical a b c d ha hb hc hd =
    let digits =
      byte_digits a (hex2 b ++ (hex2 c ++ (hex2 d ++ []))) ha
      ∙ byte_digits b (hex2 c ++ (hex2 d ++ [])) hb
      ∙ byte_digits c (hex2 d ++ []) hc
      ∙ byte_digits d [] hd in
    let zeros =
      byte_zeros a (hex2 b ++ (hex2 c ++ (hex2 d ++ []))) (codes "000000") ha
      ∙ ap (λ r. a == 0 && r)
          (byte_zeros b (hex2 c ++ (hex2 d ++ [])) (codes "0000") hb
            ∙ ap (λ r. b == 0 && r)
                (byte_zeros c (hex2 d ++ []) (codes "00") hc
                  ∙ ap (λ r. c == 0 && r) (byte_zeros d [] [] hd))) in
    ap₂ (λ x y. x && not y) digits zeros

-- Four bytes, or a serial number.
abbrev pub IsIdentity : DeviceIdentity → Type 0
IsIdentity (serial s) = Unit
IsIdentity (unit u) = (length u ≡ 4) × All IsByte u

pub identity_fragment_is_physical-key :
    (identity : DeviceIdentity)
    → IsIdentity identity
    → identity_fragment_is_physical (key identity) ≡ is_physical identity
unfolding identity_fragment_is_physical is_physical strip_prefix key
identity_fragment_is_physical-key (serial s) w = or_false (not (is_nil s))
identity_fragment_is_physical-key (unit (a ∷ b ∷ c ∷ d ∷ [])) w =
    unit_physical a b c d w.1.0 w.1.1.0 w.1.1.1.0 w.1.1.1.1.0
identity_fragment_is_physical-key (unit _) w = absurd (omega arith)
