-- ===== src/Settings/Light/Nearest.antt =====
-- The nearest stop of a light's range.
use logi_battery.Base.{
  ℕ, ◌+◌, ◌-◌, ◌*◌, ◌/◌, ◌%◌, ◌≤◌, ◌<◌, ◌≡◌, ◌⊎◌, inl, inr, refl, ap, ◌∙◌, true, Bool-cases, arith,
  ltb, leb,
}
use native.Mathlib.Nat.{
  div-add-mod', mod-lt, mul-le-mul_right, le-mul_of_pos_right, add-mul-mod_self_right, zero-mod,
}
use logi_battery.Settings.Light.{
  LightValueUnit, LightValueRange, ok, new, contains, clamp, index_of, quantize, saturated,
}

-- How far apart two values are.
abbrev pub distance : ℕ → ℕ → ℕ
distance a b = (a - b) + (b - a)

-- What the stops around an offset are, in a span of whole steps.
record Grid (offset step span : ℕ) : Type 0 where
  pos : 0 < step
  within : offset ≤ span
  aligned : span % step ≡ 0
  small : span ≤ 65535
  narrow : step ≤ 65535

times_suc : (n step : ℕ) → (n + 1) * step ≡ n * step + step
times_suc n step = grind arith

whole : {offset step span : ℕ} → Grid offset step span → span / step * step ≡ span
whole {step} {span} g = omega (arith, div-add-mod' span step, g.aligned)

quot_lt :
    {offset step span : ℕ} → Grid offset step span → 0 < offset % step → offset / step < span / step
quot_lt {offset} {step} {span} g r = elim (Bool-cases (ltb (offset / step) (span / step))) [
  | inl t ↦ ground arith
  | inr f ↦
      let le : span / step * step ≤ offset / step * step = mul-le-mul_right step (ground arith) in
      absurd (omega (arith, le, whole g, div-add-mod' offset step, g.within, r))
]

-- The index is the stop below, or the one above where that is as near.
index_cases :
    {offset step span : ℕ}
    → Grid offset step span
    → ((offset % step * 2 < step) × (index_of offset step ≡ offset / step))
      ⊎ ((step ≤ offset % step * 2)
          × (offset / step < span / step)
          × (index_of offset step ≡ offset / step + 1))
unfolding index_of
index_cases {offset} {step} {span} g =
    let few : span / step ≤ span / step * step = le-mul_of_pos_right (span / step) g.pos in
    let rest = mod-lt offset g.pos in
    elim (Bool-cases (leb step (saturated (offset % step * 2)))) [
      | inl t ↦
          let half : step ≤ offset % step * 2 = ground arith in
          let below = quot_lt g (omega (arith, half, g.pos)) in
          inr (half, below, rw t (omega (arith, few, whole g, below, g.small)))
      | inr f ↦ let n = g.narrow in inl (ground arith, rw f refl)
    ]

-- The stop is in the span, and no multiple of the step is nearer to the offset.
stop :
    {offset step span : ℕ}
    → Grid offset step span
    → (j : ℕ)
    → (index_of offset step * step ≤ span)
      × (distance (index_of offset step * step) offset ≤ distance (j * step) offset)
stop {offset} {step} {span} g j = elim (index_cases g) [
  | inl (few, e) ↦ rw e (
    omega (arith, parts, g.within),
    elim (Bool-cases (leb j (offset / step))) [
      | inl t ↦
          let le : j * step ≤ offset / step * step = mul-le-mul_right step (ground arith) in
          omega (arith, parts, le)
      | inr f ↦
          let le : (offset / step + 1) * step ≤ j * step = mul-le-mul_right step (ground arith) in
          omega (arith, parts, le, times_suc (offset / step) step, few)
    ],
  )
  | inr (half, below, e) ↦ rw e (
    (let le : (offset / step + 1) * step ≤ span / step * step =
          mul-le-mul_right step (ground arith) in
        omega (arith, le, whole g)),
    elim (Bool-cases (leb j (offset / step))) [
      | inl t ↦
          let le : j * step ≤ offset / step * step = mul-le-mul_right step (ground arith) in
          omega (arith, parts, le, times_suc (offset / step) step, half, rest)
      | inr f ↦
          let le : (offset / step + 1) * step ≤ j * step = mul-le-mul_right step (ground arith) in
          omega (arith, parts, le, times_suc (offset / step) step, half, rest)
    ],
  )
]
  where
    parts : offset / step * step + offset % step ≡ offset
    parts = div-add-mod' offset step

    rest : offset % step < step
    rest = mod-lt offset g.pos

-- What `new` establishes of a range of 16-bit numbers.
pub record IsRange (r : LightValueRange) : Type 0 where
  pub ordered : r.lower ≤ r.upper
  pub moves : 0 < r.step
  pub aligned : (r.upper - r.lower) % r.step ≡ 0
  pub upper_u16 : r.upper ≤ 65535
  pub step_u16 : r.step ≤ 65535

pub new-IsRange :
    (lower upper step : ℕ) (unit : LightValueUnit) {r : LightValueRange}
    → upper ≤ 65535
    → step ≤ 65535
    → new lower upper step unit ≡ ok r
    → IsRange r
unfolding new
new-IsRange lower upper step unit hu hs e = ground arith

Grid-clamp :
    {r : LightValueRange} (v : ℕ)
    → IsRange r
    → Grid (clamp r v - r.lower) r.step (r.upper - r.lower)
Grid-clamp {r} v h = record {
  pos = h.moves;
  within = omega (arith, h.ordered);
  aligned = h.aligned;
  small = omega (arith, h.upper_u16);
  narrow = h.step_u16;
}

-- `quantize` without its saturations, none of which is met.
quantize-stop :
    {r : LightValueRange} (v : ℕ)
    → IsRange r
    → quantize r v ≡ r.lower + index_of (clamp r v - r.lower) r.step * r.step
unfolding quantize
quantize-stop {r} v h =
    let g = stop (Grid-clamp v h) 0 in omega (arith, g.0, h.ordered, h.upper_u16)

multiple : (k n : ℕ) → k * n % n ≡ 0
multiple k n = ground (arith, add-mul-mod_self_right 0 k n, zero-mod n)

pub quantize-contains : {r : LightValueRange} (v : ℕ) → IsRange r → contains r (quantize r v) ≡ true
unfolding contains
quantize-contains {r} v h =
    let g = stop (Grid-clamp v h) 0 in
    let index : ℕ = index_of (clamp r v - r.lower) r.step in
    let q = quantize-stop v h in
    let off : quantize r v - r.lower ≡ index * r.step = omega (arith, q) in
    let even : (quantize r v - r.lower) % r.step ≡ 0 =
      ap (λ n. n % r.step) off ∙ multiple index r.step in
    ground (arith, q, g.0, h.ordered, h.moves)

-- `quantize` gives a supported value of the range, and none that the range supports is nearer to the
-- value asked for, for each range that `new` makes of 16-bit numbers.
pub quantize-nearest :
    (lower upper step v w : ℕ) (unit : LightValueUnit) {r : LightValueRange}
    → upper ≤ 65535
    → step ≤ 65535
    → new lower upper step unit ≡ ok r
    → contains r w ≡ true
    → (contains r (quantize r v) ≡ true) × (distance (quantize r v) v ≤ distance w v)
unfolding contains
quantize-nearest lower upper step v w unit {r} hu hs e c =
    let h = new-IsRange lower upper step unit hu hs e in
    let j : ℕ = (w - r.lower) / r.step in
    let g = stop (Grid-clamp v h) j in
    let q = quantize-stop v h in
    let even : (w - r.lower) % r.step ≡ 0 = ground arith in
    let at : j * r.step ≡ w - r.lower = omega (arith, div-add-mod' (w - r.lower) r.step, even) in
    let low : r.lower ≤ w = ground arith in
    let high : w ≤ r.upper = ground arith in
    (quantize-contains v h, omega (arith, q, g.0, g.1, at, low, high, h.ordered))
