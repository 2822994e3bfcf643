-- ===== src/Inventory/Cache.antt =====
-- crates/openlogi-device/src/inventory/cache.rs: what a device's probe makes of the memoized one. What
-- `probe_features` and `read_battery` returned is given; an instant is a number of milliseconds.
pub mod Probe
mod Runs
use logi_battery.Base.{
  ℕ, ◌-◌, List, [], Option, none, some, Bool, true, false, not, ◌&&◌, leb, ◌==◌, ltb, if◌then◌else◌,
}
use logi_battery.Battery.Model.{BatteryInfo, BatteryStatus}
use logi_battery.Battery.Reading.{BatteryProbe, unified, legacy, voltage}
use logi_battery.Inventory.Model.{Text, DeviceKind, DeviceModelInfo, Capabilities}
use logi_battery.Inventory.Events.{EventFeatureIndices, DeviceEvents, register_device}

pub record ProbedFeatures : Type 0 where
  pub battery : Option BatteryInfo
  pub model_info : Option DeviceModelInfo
  pub kind : Option DeviceKind
  pub marketing_name : Option Text
  pub capabilities : Option Capabilities
  pub identity_incomplete : Bool
  pub capabilities_incomplete : Bool

pub default : ProbedFeatures
default = record {
  battery = none;
  model_info = none;
  kind = none;
  marketing_name = none;
  capabilities = none;
  identity_incomplete = false;
  capabilities_incomplete = false;
}

abbrev pub refresh_interval : ℕ
refresh_interval = 30000

pub data CacheKey : Type 0 where
  bolt : List ℕ → CacheKey
  unifying_slot : Text → ℕ → CacheKey
  direct : Text → CacheKey

pub record Cached : Type 0 where
  pub probe : ProbedFeatures
  pub battery : Option BatteryProbe
  pub events : EventFeatureIndices
  pub probed_at : ℕ

pub data CacheOutcome : Type 0 where
  fresh : CacheKey → Cached → CacheOutcome
  update : CacheKey → Cached → CacheOutcome
  seen_key : CacheKey → CacheOutcome
  unkeyed : CacheOutcome

-- What `probe_features` returned.
pub record Probed : Type 0 where
  pub features : ProbedFeatures
  pub battery : Option BatteryProbe
  pub events : EventFeatureIndices

abbrev pub is_legacy : BatteryProbe → Bool
is_legacy (legacy i) = true
is_legacy _ = false

abbrev pub is_charging : BatteryStatus → Bool
is_charging BatteryStatus.charging = true
is_charging BatteryStatus.charging_slow = true
is_charging _ = false

-- The previous reading in the place of a percentage of 0, if it has one of its own.
pub carry_over : BatteryInfo → Option BatteryInfo → BatteryInfo
carry_over reading none = reading
carry_over reading (some p) =
    if ltb 0 p.percentage
    then record { percentage = p.percentage; level = p.level; status = reading.status }
    else reading

pub hold_percentage_while_charging : BatteryInfo → Option BatteryInfo → BatteryProbe → BatteryInfo
hold_percentage_while_charging reading prev probe =
    if not (is_legacy probe)
    then reading
    else if is_charging reading.status && reading.percentage == 0
    then carry_over reading prev
    else reading

pub seen : Option CacheKey → CacheOutcome
seen none = unkeyed
seen (some key) = seen_key key

pub is_stale : Cached → ℕ → Bool
is_stale cached now = leb refresh_interval (now - cached.probed_at)

abbrev pub is_some {ℓ} : {A : Type ℓ} → Option A → Bool
is_some none = false
is_some (some a) = true

pub keep_known_capabilities : ProbedFeatures → ProbedFeatures → ProbedFeatures
keep_known_capabilities new cached =
    if new.capabilities_incomplete && is_some cached.capabilities
    then record new { capabilities = cached.capabilities }
    else new

-- The `match` of `backfill_identity` on the model that was read and the one known.
pub backfill_model :
    Option DeviceModelInfo → Option DeviceModelInfo → ProbedFeatures → ProbedFeatures
backfill_model none (some previous) new = record new {
  model_info = some previous;
  identity_incomplete = false;
}
backfill_model (some model) (some previous) new =
    if not (is_some model.serial_number) && is_some previous.serial_number
    then record new {
      model_info = some (record model { serial_number = previous.serial_number });
      identity_incomplete = false;
    }
    else new
backfill_model model none new = new

abbrev pub or_known {ℓ} : {A : Type ℓ} → Option A → Option A → Option A
or_known none known = known
or_known (some a) known = some a

pub backfill_identity : ProbedFeatures → ProbedFeatures → ProbedFeatures
backfill_identity new cached =
    let named = record new {
      kind = or_known new.kind cached.kind;
      marketing_name = or_known new.marketing_name cached.marketing_name;
    } in
    if not new.identity_incomplete
    then named
    else backfill_model new.model_info cached.model_info named
