-- ===== src/Inventory/Cache/Runs.antt =====
-- A known mouse whose probe is cut short, and its charge.
use logi_battery.Base.{[], ◌∷◌, Option, none, some, true, false}
use logi_battery.Battery.Model.{BatteryInfo, BatteryLevel, BatteryStatus}
use logi_battery.Battery.Reading.{legacy}
use logi_battery.Inventory.Model.{DeviceKind, no_capabilities}
use logi_battery.Inventory.Events.{EventFeatureIndices}
use logi_battery.Inventory.Cache.{CacheKey, bolt, Cached, Probed}
use logi_battery.Inventory.Cache.Probe.{probe_or_reuse}
use logi_battery.Inventory.Cache.Probe.Outcomes.{IsCacheable, probe_or_reuse-IsCacheable}
use logi_battery.Inventory.Cache.Probe.Keeps.{IsKnown, probe_or_reuse-IsKnown}

abbrev half : BatteryInfo
half = record { percentage = 50; level = BatteryLevel.good; status = BatteryStatus.discharging }

abbrev sentinel : BatteryInfo
sentinel = record { percentage = 0; level = BatteryLevel.critical; status = BatteryStatus.charging }

abbrev no_events : EventFeatureIndices
no_events = record { wireless_status = none; unified_battery = none }

abbrev known : Cached
known = record {
  probe = record {
    battery = some half;
    model_info = none;
    kind = some DeviceKind.mouse;
    marketing_name = some (77 ∷ 88 ∷ []);
    capabilities = some no_capabilities;
    identity_incomplete = false;
    capabilities_incomplete = false;
  };
  battery = some (legacy 4);
  events = no_events;
  probed_at = 1000;
}

-- A walk that lost a reply: the battery is there, the kind and the name are not.
abbrev cut_short : Probed
cut_short = record {
  features = record {
    battery = some sentinel;
    model_info = none;
    kind = none;
    marketing_name = none;
    capabilities = some no_capabilities;
    identity_incomplete = true;
    capabilities_incomplete = true;
  };
  battery = some (legacy 4);
  events = no_events;
}

abbrev key : Option CacheKey
key = some (bolt (1 ∷ 2 ∷ 3 ∷ 4 ∷ []))

abbrev complete : Probed
complete = record cut_short { features = record (known.probe) { battery = some sentinel } }

probe_or_reuse-IsCacheable_example :
    IsCacheable key
      (some known)
      40000
      (probe_or_reuse 2 key (some known) true 40000 none complete (λ p. none)).0
probe_or_reuse-IsCacheable_example =
    probe_or_reuse-IsCacheable 2 key (some known) true 40000 none complete (λ p. none)

probe_or_reuse-IsKnown_example :
    IsKnown known.probe cut_short.features
      (probe_or_reuse 2 key (some known) true 40000 (some []) cut_short (λ p. none)).0.0
probe_or_reuse-IsKnown_example =
    probe_or_reuse-IsKnown 2 key known true 40000 (some []) cut_short (λ p. none)
