-- ===== src/Inventory/Cache/Probe.antt =====
-- `probe_or_reuse` of crates/openlogi-device/src/inventory/cache.rs.
pub mod Outcomes
pub mod Keeps
use logi_battery.Base.{
  ℕ, List, Option, none, some, Bool, true, false, not, ◌&&◌, ◌||◌, if◌then◌else◌,
}
use logi_battery.Battery.Model.{BatteryInfo}
use logi_battery.Battery.Reading.{BatteryProbe}
use logi_battery.Inventory.Events.{DeviceEvents, register_device}
use logi_battery.Inventory.Cache.{
  ProbedFeatures, default, CacheKey, Cached, CacheOutcome, fresh, update, unkeyed, Probed,
  hold_percentage_while_charging, seen, is_stale, is_some, keep_known_capabilities,
  backfill_identity,
}

-- `cached.and_then(|c| c.probe.battery.as_ref())`
abbrev pub known_battery : Option Cached → Option BatteryInfo
known_battery none = none
known_battery (some c) = c.probe.battery

-- A reading without the probe that it came from is dropped.
pub settle_battery :
    Option BatteryInfo → Option BatteryProbe → Option BatteryInfo → Option BatteryInfo
settle_battery (some reading) (some probe) prev =
    some (hold_percentage_while_charging reading prev probe)
settle_battery _ _ prev = none

-- `match id`: only a device with a key is memoized.
pub memoize : Option CacheKey → Cached → ProbedFeatures × CacheOutcome
memoize none value = (value.probe, unkeyed)
memoize (some key) value = (value.probe, fresh key value)

pub backfill : Option Cached → ProbedFeatures → ProbedFeatures
backfill none new = new
backfill (some c) new = backfill_identity new c.probe

pub keep_known : Option Cached → ProbedFeatures → ProbedFeatures
keep_known none new = new
keep_known (some c) new = keep_known_capabilities new c.probe

-- The probe was good: what is served, and whether it is memoized.
pub accept :
    Option CacheKey → Option Cached → ℕ → Probed → ProbedFeatures → ProbedFeatures × CacheOutcome
accept id cached now probed new =
    if new.identity_incomplete && not (is_some cached)
    then (new, seen id)
    else if new.capabilities_incomplete
    then (keep_known cached new, seen id)
    else memoize id
        (record { probe = new; battery = probed.battery; events = probed.events; probed_at = now })

pub fall_back : Option CacheKey → Option Cached → ProbedFeatures → ProbedFeatures × CacheOutcome
fall_back id none new = (new, seen id)
fall_back id (some c) new = (c.probe, seen id)

pub after_probe : Option CacheKey → Option Cached → ℕ → Probed → ProbedFeatures × CacheOutcome
after_probe id cached now probed =
    let new = record (probed.features) {
      battery = settle_battery probed.features.battery probed.battery (known_battery cached);
    } in
    if is_some new.capabilities
    then accept id cached now probed (backfill cached new)
    else fall_back id cached new

-- The reading replaces the cached one, unless a condition before it failed.
pub refresh :
    Option CacheKey
    → Cached
    → Option BatteryProbe
    → Option BatteryInfo
    → ProbedFeatures × CacheOutcome
refresh (some key) c (some probe) (some reading) =
    let held = hold_percentage_while_charging reading c.probe.battery probe in
    let entry = record c { probe = record (c.probe) { battery = some held } } in
    (entry.probe, update key entry)
refresh id c probe reading = (c.probe, seen id)

-- `read_battery` on the memoized probe.
abbrev pub read_known :
    (BatteryProbe → Option BatteryInfo) → Option BatteryProbe → Option BatteryInfo
read_known read none = none
read_known read (some probe) = read probe

pub reuse :
    Option CacheKey
    → Option Cached
    → Bool
    → (BatteryProbe → Option BatteryInfo)
    → ProbedFeatures × CacheOutcome
reuse id none online read = (default, seen id)
reuse id (some c) online read =
    if online then refresh id c c.battery (read_known read c.battery) else (c.probe, seen id)

abbrev pub needs_probe : Option Cached → ℕ → Bool
needs_probe none now = true
needs_probe (some c) now = is_stale c now

-- The devices of the subscription, if there is one: a cached device is registered first.
pub register_cached : ℕ → Option Cached → Option (List DeviceEvents) → Option (List DeviceEvents)
register_cached index (some c) (some devices) = some (register_device index c.events devices)
register_cached index cached subscriptions = subscriptions

-- The probe and its contribution to the cache, and the registered devices before any read. The device
-- answers a full probe with `probed` and a read of its battery with `read`.
pub probe_or_reuse :
    ℕ
    → Option CacheKey
    → Option Cached
    → Bool
    → ℕ
    → Option (List DeviceEvents)
    → Probed
    → (BatteryProbe → Option BatteryInfo)
    → (ProbedFeatures × CacheOutcome) × Option (List DeviceEvents)
probe_or_reuse index id cached online now subscriptions probed read =
    let served =
      if online && needs_probe cached now
      then after_probe id cached now probed
      else reuse id cached online read in
    (served, register_cached index cached subscriptions)
