-- ===== src/Battery/Reading/Bounds.antt =====
-- How the readings that are estimated from a voltage compare.
use logi_battery.Base.{ℕ, ◌≤◌, ◌≡◌, false, Bool-cases, inl, inr, arith}
use logi_battery.Battery.Model.{BatteryLevel}
use logi_battery.Battery.Voltage.{VoltageInfo}
use logi_battery.Battery.Mappings.{legacy_battery_level_from_percentage}
use logi_battery.Battery.Estimate.{voltage_battery_percentage_mono}
use logi_battery.Battery.Reading.{of_voltage}

-- The order of the buckets. An estimate is never `unknown`.
abbrev pub rank : BatteryLevel → ℕ
rank BatteryLevel.critical = 0
rank BatteryLevel.low = 1
rank BatteryLevel.good = 2
rank BatteryLevel.full = 3
rank BatteryLevel.unknown = 4

level_mono :
    (p q : ℕ)
    → p ≤ q
    → rank (legacy_battery_level_from_percentage p) ≤ rank (legacy_battery_level_from_percentage q)
unfolding legacy_battery_level_from_percentage
level_mono p q h = ground arith

-- Of two readings by voltage, the one with more volts, unless its firmware calls the charge critical,
-- shows no smaller percentage and no lower bucket than the other, at most 100 percent, and a bucket up
-- to `full`.
pub of_voltage_mono :
    (a b : VoltageInfo)
    → a.voltage_mv ≤ b.voltage_mv
    → b.critical ≡ false
    → ((of_voltage a).percentage ≤ (of_voltage b).percentage)
      × ((of_voltage b).percentage ≤ 100)
      × (rank (of_voltage a).level ≤ rank (of_voltage b).level)
      × (rank (of_voltage b).level ≤ 3)
unfolding of_voltage
of_voltage_mono a b h c =
    let (more, most) = voltage_battery_percentage_mono a.voltage_mv b.voltage_mv h in
    (
      more,
      most,
      rw c (elim (Bool-cases a.critical) [
        | inl t ↦ rw t (omega arith)
        | inr f ↦ rw f (level_mono _ _ more)
      ]),
      rw c (unfold legacy_battery_level_from_percentage in level_mono _ 100 most),
    )
