-- ===== src/Battery/Unified.antt =====
-- crates/openlogi-hidpp/src/feature/unified_battery.rs: the feature 0x1004.
pub mod Codes
use logi_battery.Base.{
  ℕ, List, [], ◌∷◌, ◌++◌, Option, none, some, Bool, ◌≡◌, get_or, ◌==◌, not, if◌then◌else◌, has_bits,
}

pub data Level : Type 0 where
  critical low good full : Level

pub data Status : Type 0 where
  discharging charging charging_nearly_full full charging_slow : Status
  invalid_battery thermal_error charging_error : Status

abbrev pub level_byte : Level → ℕ
level_byte critical = 1
level_byte low = 2
level_byte good = 4
level_byte full = 8

pub level_from : ℕ → Option Level
level_from b =
    if b == 1
    then some critical
    else if b == 2
    then some low
    else if b == 4
    then some good
    else if b == 8
    then some full
    else none

abbrev pub status_byte : Status → ℕ
status_byte discharging = 0
status_byte charging = 1
status_byte charging_nearly_full = 2
status_byte full = 3
status_byte charging_slow = 4
status_byte invalid_battery = 5
status_byte thermal_error = 6
status_byte charging_error = 7

pub status_from : ℕ → Option Status
status_from b =
    if b == 0
    then some discharging
    else if b == 1
    then some charging
    else if b == 2
    then some charging_nearly_full
    else if b == 3
    then some full
    else if b == 4
    then some charging_slow
    else if b == 5
    then some invalid_battery
    else if b == 6
    then some thermal_error
    else if b == 7
    then some charging_error
    else none

pub record UnifiedInfo : Type 0 where
  pub charging_percentage : ℕ
  pub level : Level
  pub status : Status

info : ℕ → Option Level → Option Status → Option UnifiedInfo
info percentage none s = none
info percentage (some l) none = none
info percentage (some l) (some s) =
    some (record { charging_percentage = percentage; level = l; status = s })

-- `get_battery_info` on the extended payload; `none` is `UnsupportedResponse`.
pub get_battery_info : List ℕ → Option UnifiedInfo
unfolding info
get_battery_info payload =
    info (get_or payload 0 0) (level_from (get_or payload 1 0)) (status_from (get_or payload 2 0))

-- `DecodeEvent::decode`
pub decode_event : ℕ → List ℕ → Option UnifiedInfo
unfolding info
decode_event sub_id payload =
    if not (sub_id == 0)
    then none
    else info (get_or payload 0 0) (level_from (get_or payload 1 0))
        (status_from (get_or payload 2 0))

-- The set of levels is a list without repetition, in the order of insertion.
pub record BatteryCapabilities : Type 0 where
  pub reported_levels : List Level
  pub rechargeable : Bool
  pub percentage : Bool

insert_if : Bool → Level → List Level → List Level
insert_if b l ls = if b then ls ++ (l ∷ []) else ls

pub capabilities_from : ℕ → ℕ → BatteryCapabilities
unfolding insert_if
capabilities_from levels flags = record {
  reported_levels = insert_if (has_bits levels 8) full (
      insert_if (has_bits levels 4) good
        (insert_if (has_bits levels 2) low (insert_if (has_bits levels 1) critical [])));
  rechargeable = has_bits flags 1;
  percentage = has_bits flags 2;
}
