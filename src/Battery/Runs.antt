-- ===== src/Battery/Runs.antt =====
-- Readings of the three battery features.
use logi_battery.Base.{ℕ, ◌≡◌, ◌↔◌, [], ◌∷◌, some, true, false, take}
use logi_battery.Battery.Unified.{
  Level, UnifiedInfo, level_byte, good, get_battery_info, decode_event, capabilities_from,
  BatteryCapabilities,
}
use logi_battery.Battery.Unified
use logi_battery.Battery.Unified.Codes.{encode, get_battery_info-encode}
use logi_battery.Battery.Voltage.{VoltageInfo}
use logi_battery.Battery.Voltage
use logi_battery.Battery.Reading.{battery_feature_index}
use logi_battery.Battery.Reading.Lookup.{preferred, battery_feature_index-preferred}

abbrev half : UnifiedInfo
half = record { charging_percentage = 50; level = good; status = Unified.Status.charging }

abbrev broadcast : ℕ
broadcast = 0

get_battery_info-encode_example :
    ((get_battery_info (50 ∷ 4 ∷ 1 ∷ 0 ∷ []) ≡ some half) ↔ (50 ∷ 4 ∷ 1 ∷ [] ≡ encode half))
    × ((decode_event broadcast (50 ∷ 4 ∷ 1 ∷ 0 ∷ []) ≡ some half)
        ↔ ((broadcast ≡ 0) × (50 ∷ 4 ∷ 1 ∷ [] ≡ encode half)))
get_battery_info-encode_example = get_battery_info-encode 50 4 1 (0 ∷ []) half broadcast

battery_feature_index-preferred_example :
    battery_feature_index (0x1001 ∷ 0x1000 ∷ 0x2201 ∷ [])
    ≡ preferred (take 255 (0x1001 ∷ 0x1000 ∷ 0x2201 ∷ []))
battery_feature_index-preferred_example =
    battery_feature_index-preferred (0x1001 ∷ 0x1000 ∷ 0x2201 ∷ [])

abbrev low : VoltageInfo
low = record { voltage_mv = 3600; status = Voltage.ChargingStatus.discharging; critical = true }

abbrev high : VoltageInfo
high = record { voltage_mv = 4000; status = Voltage.ChargingStatus.charging; critical = false }
