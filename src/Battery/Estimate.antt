-- ===== src/Battery/Estimate.antt =====
-- The charge that is estimated from a voltage: within 0 to 100, never falling as the voltage rises,
-- and exact on the measured points of the curve.
use logi_battery.Base.{
  ℕ, zero, suc, ◌+◌, ◌-◌, ◌≤◌, ◌<◌, ◌≡◌, inl, inr, refl, ap, subst, true, arith, ltb, leb, All,
  passes_to, passes_to_at, Bool-cases, leb→le,
}
use native.Mathlib.Nat.{add-zero}
use logi_battery.Battery.Mappings.{curve, voltage_battery_percentage}

-- Between the ends of the curve, by evaluation.
step_table :
    passes_to
      (λ k. leb (voltage_battery_percentage (3490 + k)) (voltage_battery_percentage (3491 + k)))
      700
    ≡ true
unfolding passes_to voltage_battery_percentage
step_table = refl

percentage_below : (v : ℕ) → v < 3500 → voltage_battery_percentage v ≡ 0
unfolding voltage_battery_percentage
percentage_below v h = ground arith

percentage_above : (v : ℕ) → 4186 ≤ v → voltage_battery_percentage v ≡ 100
unfolding voltage_battery_percentage
percentage_above v h = ground arith

percentage_step : (v : ℕ) → voltage_battery_percentage v ≤ voltage_battery_percentage (v + 1)
percentage_step v = elim (Bool-cases (ltb v 3490)) [
  | inl low ↦ rw (percentage_below v (ground arith)) (omega arith)
  | inr more ↦ elim (Bool-cases (ltb v 4186)) [
    | inl inner ↦
        let at : 3490 + (v - 3490) ≡ v = ground arith in
        let next : 3491 + (v - 3490) ≡ v + 1 = ground arith in
        rw at at (
          rw next at (
            leb→le _ _ (
              passes_to_at
                (λ k.
                  leb (voltage_battery_percentage (3490 + k))
                    (voltage_battery_percentage (3491 + k)))
                700 (v - 3490) step_table (ground arith))))
    | inr high ↦
        rw (percentage_above v (ground arith), percentage_above (v + 1) (ground arith))
          (omega arith)
  ]
]

percentage_steps : (n v : ℕ) → voltage_battery_percentage v ≤ voltage_battery_percentage (v + n)
percentage_steps zero v = rw add-zero (omega arith)
percentage_steps (suc n) v = omega (
  arith,
  percentage_steps n v,
  percentage_step (v + n),
  ap voltage_battery_percentage (regroup v n),
)
  where
    regroup : (v n : ℕ) → v + n + 1 ≡ v + suc n
    regroup v n = omega arith

-- More volts never mean less charge, and no reading exceeds 100 percent.
pub voltage_battery_percentage_mono :
    (v w : ℕ)
    → v ≤ w
    → (voltage_battery_percentage v ≤ voltage_battery_percentage w)
      × (voltage_battery_percentage w ≤ 100)
voltage_battery_percentage_mono v w h = (
  subst (λ x. voltage_battery_percentage v ≤ voltage_battery_percentage x) (omega arith)
      (percentage_steps (w - v) v),
  omega (arith, percentage_steps 4186 w, percentage_above (w + 4186) (omega arith)),
)

-- Each measured point of the curve has its own percentage.
abbrev pub IsExact : ℕ × ℕ → Type 0
IsExact p = voltage_battery_percentage p.0 ≡ p.1

-- At the voltage of each measured point of the curve, the estimate is that point's percentage.
pub curve-IsExact : All IsExact curve
unfolding voltage_battery_percentage
curve-IsExact = omega arith
