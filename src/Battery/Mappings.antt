-- ===== src/Battery/Mappings.antt =====
-- The battery half of crates/openlogi-device/src/inventory/mappings.rs.
use logi_battery.Base.{ℕ, ◌+◌, ◌-◌, ◌*◌, ◌/◌, List, [], ◌∷◌, ltb, leb, if◌then◌else◌}
use logi_battery.Battery.Model.{BatteryLevel, BatteryStatus}
use logi_battery.Battery.Unified
use logi_battery.Battery.Legacy
use logi_battery.Battery.Voltage

pub map_battery_level : Unified.Level → BatteryLevel
map_battery_level Unified.Level.critical = BatteryLevel.critical
map_battery_level Unified.Level.low = BatteryLevel.low
map_battery_level Unified.Level.good = BatteryLevel.good
map_battery_level Unified.Level.full = BatteryLevel.full

pub map_battery_status : Unified.Status → BatteryStatus
map_battery_status Unified.Status.discharging = BatteryStatus.discharging
map_battery_status Unified.Status.charging = BatteryStatus.charging
map_battery_status Unified.Status.charging_nearly_full = BatteryStatus.charging
map_battery_status Unified.Status.charging_slow = BatteryStatus.charging_slow
map_battery_status Unified.Status.full = BatteryStatus.full
map_battery_status Unified.Status.invalid_battery = BatteryStatus.error
map_battery_status Unified.Status.thermal_error = BatteryStatus.error
map_battery_status Unified.Status.charging_error = BatteryStatus.error

pub map_legacy_battery_status : Legacy.LegacyStatus → BatteryStatus
map_legacy_battery_status Legacy.LegacyStatus.discharging = BatteryStatus.discharging
map_legacy_battery_status Legacy.LegacyStatus.recharging = BatteryStatus.charging
map_legacy_battery_status Legacy.LegacyStatus.almost_full = BatteryStatus.charging
map_legacy_battery_status Legacy.LegacyStatus.slow_recharge = BatteryStatus.charging_slow
map_legacy_battery_status Legacy.LegacyStatus.full = BatteryStatus.full
map_legacy_battery_status Legacy.LegacyStatus.invalid_battery = BatteryStatus.error
map_legacy_battery_status Legacy.LegacyStatus.thermal_error = BatteryStatus.error
map_legacy_battery_status Legacy.LegacyStatus.other = BatteryStatus.unknown

pub map_voltage_battery_status : Voltage.ChargingStatus → BatteryStatus
map_voltage_battery_status Voltage.ChargingStatus.discharging = BatteryStatus.discharging
map_voltage_battery_status Voltage.ChargingStatus.charging = BatteryStatus.charging
map_voltage_battery_status Voltage.ChargingStatus.charging_fast = BatteryStatus.charging
map_voltage_battery_status Voltage.ChargingStatus.charging_slow = BatteryStatus.charging_slow
map_voltage_battery_status Voltage.ChargingStatus.full = BatteryStatus.full
map_voltage_battery_status Voltage.ChargingStatus.not_charging = BatteryStatus.error

-- The (millivolt, percent) discharge curve, descending.
abbrev pub curve : List (ℕ × ℕ)
curve =
    (4186, 100)
    ∷ (4067, 90)
    ∷ (3989, 80)
    ∷ (3922, 70)
    ∷ (3859, 60)
    ∷ (3811, 50)
    ∷ (3778, 40)
    ∷ (3751, 30)
    ∷ (3717, 20)
    ∷ (3671, 10)
    ∷ (3646, 5)
    ∷ (3579, 2)
    ∷ (3500, 0)
    ∷ []

-- `u8::try_from(interpolated).unwrap_or(high_percent)`
or_high : ℕ → ℕ → ℕ
or_high interpolated high_percent = if ltb interpolated 256 then interpolated else high_percent

interpolate : ℕ → ℕ → ℕ → ℕ → ℕ → ℕ
unfolding or_high
interpolate voltage_mv high_mv high_percent low_mv low_percent =
    or_high
      (low_percent
        + ((high_percent - low_percent) * (voltage_mv - low_mv) + (high_mv - low_mv) / 2)
          / (high_mv - low_mv))
      high_percent

-- The loop over neighbouring points of the curve: `high` is the point before the list.
segments : ℕ → ℕ → ℕ → List (ℕ × ℕ) → ℕ
unfolding interpolate
segments voltage_mv high_mv high_percent [] = 0
segments voltage_mv high_mv high_percent ((low_mv, low_percent) ∷ rest) =
    if leb low_mv voltage_mv
    then interpolate voltage_mv high_mv high_percent low_mv low_percent
    else segments voltage_mv low_mv low_percent rest

on_curve : ℕ → List (ℕ × ℕ) → ℕ
unfolding segments
on_curve voltage_mv [] = 0
on_curve voltage_mv ((top_mv, top_percent) ∷ rest) =
    if leb top_mv voltage_mv then top_percent else segments voltage_mv top_mv top_percent rest

unfoldable pub voltage_battery_percentage : ℕ → ℕ
unfolding on_curve
voltage_battery_percentage voltage_mv = on_curve voltage_mv curve

unfoldable pub legacy_battery_level_from_percentage : ℕ → BatteryLevel
legacy_battery_level_from_percentage p =
    if leb 90 p
    then BatteryLevel.full
    else if leb 50 p
    then BatteryLevel.good
    else if leb 20 p
    then BatteryLevel.low
    else BatteryLevel.critical
