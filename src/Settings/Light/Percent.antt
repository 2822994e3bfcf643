-- ===== src/Settings/Light/Percent.antt =====
-- Brightness as a percentage of a light's range.
use logi_battery.Base.{
  ℕ, ◌+◌, ◌-◌, ◌*◌, ◌/◌, ◌≤◌, ◌<◌, ◌≡◌, Option, none, some, true, false, Bool-cases, arith, ltb,
  inl, inr, ◌==◌,
}
use native.Mathlib.Nat.{div-add-mod', mul-le-mul_left, mul-le-mul_right}
use logi_battery.Settings.Light.{
  LightValueUnit, LightValueRange, ok, new, contains, native_for_percent, percent_for_native,
  to_u16, to_u8,
}
use logi_battery.Settings.Light.Nearest.{IsRange, new-IsRange, quantize-contains}

-- A native value exactly for a percentage, and a supported one.
abbrev pub IsNative : LightValueRange → ℕ → Option ℕ → Type 0
IsNative r p none = 100 < p
IsNative r p (some v) = (p ≤ 100) × (contains r v ≡ true)

-- A percentage exactly for a supported value.
abbrev pub IsPercent : LightValueRange → ℕ → Option ℕ → Type 0
IsPercent r v none = contains r v ≡ false
IsPercent r v (some p) = (contains r v ≡ true) × (p ≤ 100)

-- The share of a span that a percentage stands for lies in the span.
share : (span p : ℕ) → p ≤ 100 → (span * p + 50) / 100 ≤ span
share span p h = let le : span * p ≤ span * 100 = mul-le-mul_left span h in omega (arith, le)

native_for_percent-IsNative :
    {r : LightValueRange} (p : ℕ) → IsRange r → IsNative r p (native_for_percent r p)
unfolding native_for_percent
native_for_percent-IsNative {r} p h = elim (Bool-cases (ltb 100 p)) [
  | inl t ↦ rw t (ground arith)
  | inr f ↦
      let in_span = share (r.upper - r.lower) p (ground arith) in
      let fits : to_u16 (r.lower + ((r.upper - r.lower) * p + 50) / 100)
          ≡ some (r.lower + ((r.upper - r.lower) * p + 50) / 100) =
        ground (arith, h.ordered, h.upper_u16) in
      rw f (rw fits (ground arith, quantize-contains _ h))
]

-- The rounded percentage of a part of a span is at most 100.
rounded : (part span : ℕ) → part ≤ span → 0 < span → (part * 100 + span / 2) / span ≤ 100
rounded part span h pos = elim (Bool-cases (ltb 100 ((part * 100 + span / 2) / span))) [
  | inl t ↦
      let more : 101 * span ≤ (part * 100 + span / 2) / span * span =
        mul-le-mul_right span (ground arith) in
      absurd (omega (arith, more, div-add-mod' (part * 100 + span / 2) span))
  | inr f ↦ ground arith
]

in_bounds : (r : LightValueRange) (v : ℕ) → contains r v ≡ true → (r.lower ≤ v) × (v ≤ r.upper)
unfolding contains
in_bounds r v c = ground arith

percent_for_native-IsPercent :
    (r : LightValueRange) (v : ℕ) → IsPercent r v (percent_for_native r v)
unfolding percent_for_native
percent_for_native-IsPercent r v = elim (Bool-cases (contains r v)) [
  | inr f ↦ rw f f
  | inl t ↦ elim (Bool-cases (r.upper - r.lower == 0)) [
    | inl z ↦ rw t (rw z (t, omega arith))
    | inr n ↦
        let b = in_bounds r v t in
        let most = rounded (v - r.lower) (r.upper - r.lower) (omega (arith, b)) (ground arith) in
        let fits : to_u8 (((v - r.lower) * 100 + (r.upper - r.lower) / 2) / (r.upper - r.lower))
            ≡ some (((v - r.lower) * 100 + (r.upper - r.lower) / 2) / (r.upper - r.lower)) =
          ground (arith, most) in
        rw t (rw n (rw fits (t, most)))
  ]
]

-- In a range that `new` makes of 16-bit numbers, a percentage up to 100 has a native value, which the
-- range supports, and no other number has one; a value that the range supports has a percentage, which
-- is at most 100, and no other value has one.
pub native_for_percent-percent_for_native :
    (lower upper step p v : ℕ) (unit : LightValueUnit) {r : LightValueRange}
    → upper ≤ 65535
    → step ≤ 65535
    → new lower upper step unit ≡ ok r
    → IsNative r p (native_for_percent r p) × IsPercent r v (percent_for_native r v)
native_for_percent-percent_for_native lower upper step p v unit {r} hu hs e = (
  native_for_percent-IsNative p (new-IsRange lower upper step unit hu hs e),
  percent_for_native-IsPercent r v,
)
