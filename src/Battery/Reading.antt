-- ===== src/Battery/Reading.antt =====
-- crates/openlogi-device/src/inventory/features.rs: which battery feature a device has, and the
-- reading that its reply gives.
pub mod Lookup
pub mod Bounds
use logi_battery.Base.{
  ℕ, suc, ◌+◌, List, [], ◌∷◌, Option, none, some, or_else, Bool, ltb, leb, ◌==◌, if◌then◌else◌,
}
use logi_battery.Battery.Model.{BatteryLevel, BatteryStatus, BatteryInfo}
use logi_battery.Battery.Unified
use logi_battery.Battery.Legacy
use logi_battery.Battery.Voltage
use logi_battery.Battery.Mappings.{
  map_battery_level, map_battery_status, map_legacy_battery_status, map_voltage_battery_status,
  voltage_battery_percentage, legacy_battery_level_from_percentage,
}
use logi_battery.Hidpp.V20
use logi_battery.Hidpp.Exchange.{V20Outcome, replied, failed, in_progress}
use mathlib.Core.Option

pub data BatteryProbe : Type 0 where
  unified legacy voltage : ℕ → BatteryProbe

abbrev pub unified_id : ℕ
unified_id = 0x1004

abbrev pub legacy_id : ℕ
legacy_id = 0x1000

abbrev pub voltage_id : ℕ
voltage_id = 0x1001

-- `if id == wanted && seen.is_none() { seen = Some(probe) }`
remember : Bool → BatteryProbe → Option BatteryProbe → Option BatteryProbe
remember hit probe none = if hit then some probe else none
remember hit probe (some p) = some p

-- The loop over the table: the position, what was found so far of the legacy and the voltage feature,
-- and the ids left.
search_table : ℕ → Option BatteryProbe → Option BatteryProbe → List ℕ → Option BatteryProbe
unfolding remember
search_table pos found_legacy found_voltage [] = or_else found_legacy found_voltage
search_table pos found_legacy found_voltage (id ∷ ids) =
    let rest =
      search_table (pos + 1) (remember (id == legacy_id) (legacy (pos + 1)) found_legacy)
        (remember (id == voltage_id) (voltage (pos + 1)) found_voltage) ids in
    if ltb 255 (pos + 1)
    then or_else found_legacy found_voltage
    else if id == unified_id
    then some (unified (pos + 1))
    else rest

pub battery_feature_index : List ℕ → Option BatteryProbe
unfolding search_table
battery_feature_index ids = search_table 0 none none ids

of_unified : Unified.UnifiedInfo → BatteryInfo
of_unified info = record {
  percentage = info.charging_percentage;
  level = map_battery_level info.level;
  status = map_battery_status info.status;
}

of_legacy : Legacy.LegacyInfo → BatteryInfo
of_legacy info = record {
  percentage = info.discharge_level;
  level = legacy_battery_level_from_percentage info.discharge_level;
  status = map_legacy_battery_status info.status;
}

pub of_voltage : Voltage.VoltageInfo → BatteryInfo
of_voltage info = record {
  percentage = voltage_battery_percentage info.voltage_mv;
  level =
      if info.critical
      then BatteryLevel.critical
      else legacy_battery_level_from_percentage (voltage_battery_percentage info.voltage_mv);
  status = map_voltage_battery_status info.status;
}

-- The reading that a payload gives to each kind of probe.
pub read_payload : BatteryProbe → List ℕ → Option BatteryInfo
unfolding of_unified of_legacy of_voltage
read_payload (unified index) payload = Option.map of_unified (Unified.get_battery_info payload)
read_payload (legacy index) payload = Option.map of_legacy (Legacy.get_battery_level_status payload)
read_payload (voltage index) payload = some (of_voltage (Voltage.from_wire payload))

-- The feature index and the function of the request.
pub battery_request : BatteryProbe → ℕ × ℕ
battery_request (unified index) = (index, 1)
battery_request (legacy index) = (index, 0)
battery_request (voltage index) = (index, 0)

-- `read_battery`, from what `send_v20` came to. A device that does not answer gives no reading.
pub read_battery : BatteryProbe → V20Outcome → Option BatteryInfo
read_battery probe (replied (V20.V20Result.ok m)) = read_payload probe (V20.extend_payload m)
read_battery probe (replied (V20.V20Result.feature_error e)) = none
read_battery probe (replied V20.V20Result.unsupported_response) = none
read_battery probe (failed e) = none
read_battery probe in_progress = none
