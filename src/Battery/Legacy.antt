-- ===== src/Battery/Legacy.antt =====
-- crates/openlogi-hidpp/src/feature/battery_status.rs: the feature 0x1000.
use logi_battery.Base.{ℕ, List, Option, none, some, get_or, ◌==◌, if◌then◌else◌}

pub data LegacyStatus : Type 0 where
  discharging recharging almost_full full slow_recharge : LegacyStatus
  invalid_battery thermal_error other : LegacyStatus

abbrev pub status_byte : LegacyStatus → ℕ
status_byte discharging = 0
status_byte recharging = 1
status_byte almost_full = 2
status_byte full = 3
status_byte slow_recharge = 4
status_byte invalid_battery = 5
status_byte thermal_error = 6
status_byte other = 7

pub status_from : ℕ → Option LegacyStatus
status_from b =
    if b == 0
    then some discharging
    else if b == 1
    then some recharging
    else if b == 2
    then some almost_full
    else if b == 3
    then some full
    else if b == 4
    then some slow_recharge
    else if b == 5
    then some invalid_battery
    else if b == 6
    then some thermal_error
    else if b == 7
    then some other
    else none

pub record LegacyInfo : Type 0 where
  pub discharge_level : ℕ
  pub next_level : ℕ
  pub status : LegacyStatus

info : ℕ → ℕ → Option LegacyStatus → Option LegacyInfo
info level next none = none
info level next (some s) = some (record { discharge_level = level; next_level = next; status = s })

-- `get_battery_level_status` on the extended payload; `none` is `UnsupportedResponse`.
pub get_battery_level_status : List ℕ → Option LegacyInfo
unfolding info
get_battery_level_status payload =
    info (get_or payload 0 0) (get_or payload 1 0) (status_from (get_or payload 2 0))
