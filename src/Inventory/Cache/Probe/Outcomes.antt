-- ===== src/Inventory/Cache/Probe/Outcomes.antt =====
-- What `probe_or_reuse` may put in the cache.
use logi_battery.Base.{
  ℕ, ◌≡◌, refl, ap, sym, subst, ◌∙◌, Bool-cases, inl, inr, List, Option, none, some, Bool, true,
  false, not, ◌&&◌, if◌then◌else◌, arith,
}
use logi_battery.Battery.Model.{BatteryInfo}
use logi_battery.Battery.Reading.{BatteryProbe}
use logi_battery.Inventory.Model.{DeviceModelInfo, Capabilities}
use logi_battery.Inventory.Events.{DeviceEvents}
use logi_battery.Inventory.Cache.{
  ProbedFeatures, default, CacheKey, Cached, CacheOutcome, fresh, update, seen_key, unkeyed, Probed,
  seen, is_some, backfill_model, backfill_identity,
}
use logi_battery.Inventory.Cache.Probe.{
  memoize, backfill, keep_known, accept, fall_back, after_probe, refresh, read_known, reuse,
  needs_probe, probe_or_reuse, settle_battery, known_battery,
}

-- A fresh entry is a complete walk of now under the device's own key; a first one has its identity too.
-- An update is the known entry with another battery. Both are what is served.
abbrev pub IsCacheable :
    Option CacheKey → Option Cached → ℕ → ProbedFeatures × CacheOutcome → Type 0
IsCacheable id cached now (served, fresh key v) =
    (id ≡ some key)
    × (v.probe ≡ served)
    × (v.probed_at ≡ now)
    × (is_some served.capabilities ≡ true)
    × (served.capabilities_incomplete ≡ false)
    × (served.identity_incomplete && not (is_some cached) ≡ false)
IsCacheable id cached now (served, update key v) =
    (id ≡ some key)
    × (v.probe ≡ served)
    × ((c : Cached) × (cached ≡ some c)
        × (v ≡ record c { probe = record (c.probe) { battery = served.battery } }))
IsCacheable id cached now (served, seen_key key) = id ≡ some key
IsCacheable id cached now (served, unkeyed) = id ≡ none

seen-IsCacheable :
    (id : Option CacheKey) (cached : Option Cached) (now : ℕ) (served : ProbedFeatures)
    → IsCacheable id cached now (served, seen id)
unfolding seen
seen-IsCacheable none cached now served = refl
seen-IsCacheable (some key) cached now served = refl

if-IsCacheable :
    (b : Bool) (id : Option CacheKey) (cached : Option Cached) (now : ℕ)
    (x y : ProbedFeatures × CacheOutcome)
    → IsCacheable id cached now x
    → (b ≡ false → IsCacheable id cached now y)
    → IsCacheable id cached now (if b then x else y)
if-IsCacheable true id cached now x y hx hy = hx
if-IsCacheable false id cached now x y hx hy = hy refl

memoize-IsCacheable :
    (id : Option CacheKey) (cached : Option Cached) (now : ℕ) (v : Cached)
    → (v.probed_at ≡ now)
      × (is_some v.probe.capabilities ≡ true)
      × (v.probe.capabilities_incomplete ≡ false)
      × (v.probe.identity_incomplete && not (is_some cached) ≡ false)
    → IsCacheable id cached now (memoize id v)
unfolding memoize
memoize-IsCacheable none cached now v h = refl
memoize-IsCacheable (some key) cached now v h = (refl, refl, h.0, h.1, h.2, h.3)

accept-IsCacheable :
    (id : Option CacheKey) (cached : Option Cached) (now : ℕ) (probed : Probed)
    (new : ProbedFeatures)
    → is_some new.capabilities ≡ true
    → IsCacheable id cached now (accept id cached now probed new)
unfolding accept
accept-IsCacheable id cached now probed new h =
    if-IsCacheable (new.identity_incomplete && not (is_some cached)) id cached now _ _
      (seen-IsCacheable id cached now new)
      (λ i.
        if-IsCacheable new.capabilities_incomplete id cached now _ _
          (seen-IsCacheable id cached now (keep_known cached new))
          (λ c. memoize-IsCacheable id cached now _ (refl, h, c, i)))

fall_back-IsCacheable :
    (id : Option CacheKey) (cached : Option Cached) (now : ℕ) (new : ProbedFeatures)
    → IsCacheable id cached now (fall_back id cached new)
unfolding fall_back
fall_back-IsCacheable id none now new = seen-IsCacheable id none now new
fall_back-IsCacheable id (some c) now new = seen-IsCacheable id (some c) now c.probe

-- Backfilling an identity leaves the capabilities alone.
pub backfill_model-capabilities :
    (model known : Option DeviceModelInfo) (new : ProbedFeatures)
    → (backfill_model model known new).capabilities ≡ new.capabilities
unfolding backfill_model
backfill_model-capabilities none (some previous) new = refl
backfill_model-capabilities (some model) (some previous) new = ground arith
backfill_model-capabilities none none new = refl
backfill_model-capabilities (some model) none new = refl

if-capabilities :
    (b : Bool) (x y : ProbedFeatures) {k : Option Capabilities}
    → x.capabilities ≡ k
    → y.capabilities ≡ k
    → (if b then x else y).capabilities ≡ k
if-capabilities true x y hx hy = hx
if-capabilities false x y hx hy = hy

pub backfill-capabilities :
    (cached : Option Cached) (new : ProbedFeatures)
    → (backfill cached new).capabilities ≡ new.capabilities
unfolding backfill backfill_identity
backfill-capabilities none new = refl
backfill-capabilities (some c) new =
    if-capabilities (not new.identity_incomplete) _ _ refl
      (backfill_model-capabilities new.model_info c.probe.model_info _)

refresh-IsCacheable :
    (id : Option CacheKey) (c : Cached) (now : ℕ) (probe : Option BatteryProbe)
    (reading : Option BatteryInfo)
    → IsCacheable id (some c) now (refresh id c probe reading)
unfolding refresh
refresh-IsCacheable none c now probe reading = seen-IsCacheable none (some c) now c.probe
refresh-IsCacheable (some key) c now none reading = seen-IsCacheable (some key) (some c) now c.probe
refresh-IsCacheable (some key) c now (some probe) none =
    seen-IsCacheable (some key) (some c) now c.probe
refresh-IsCacheable (some key) c now (some probe) (some reading) = (refl, refl, (c, refl, refl))

reuse-IsCacheable :
    (id : Option CacheKey) (cached : Option Cached) (online : Bool) (now : ℕ)
    (read : BatteryProbe → Option BatteryInfo)
    → IsCacheable id cached now (reuse id cached online read)
unfolding reuse
reuse-IsCacheable id none online now read = seen-IsCacheable id none now default
reuse-IsCacheable id (some c) online now read =
    if-IsCacheable online id (some c) now _ _
      (refresh-IsCacheable id c now c.battery (read_known read c.battery))
      (λ _. seen-IsCacheable id (some c) now c.probe)

after_probe-IsCacheable :
    (id : Option CacheKey) (cached : Option Cached) (now : ℕ) (probed : Probed)
    → IsCacheable id cached now (after_probe id cached now probed)
unfolding after_probe
after_probe-IsCacheable id cached now probed =
    let new = record (probed.features) {
      battery = settle_battery probed.features.battery probed.battery (known_battery cached);
    } in
    elim (Bool-cases (is_some new.capabilities)) [
      | inl h ↦
          subst
            (λ b. IsCacheable id cached now (
              if b
              then accept id cached now probed (backfill cached new)
              else fall_back id cached new))
            (sym h)
            (accept-IsCacheable id cached now probed (backfill cached new)
              (ap is_some (backfill-capabilities cached new) ∙ h))
      | inr h ↦
          subst
            (λ b. IsCacheable id cached now (
              if b
              then accept id cached now probed (backfill cached new)
              else fall_back id cached new))
            (sym h) (fall_back-IsCacheable id cached now new)
    ]

-- What `probe_or_reuse` gives the cache is sound. A fresh entry stands under the device's own key, is
-- what is served, is stamped now, has a feature-table walk that succeeded in full, and has a complete
-- identity if no entry was known. An update is what is served, and differs from the known entry, its
-- time included, at most in the reading of the battery. A device is unkeyed only without a key.
pub probe_or_reuse-IsCacheable :
    (index : ℕ) (id : Option CacheKey) (cached : Option Cached) (online : Bool) (now : ℕ)
    (subscriptions : Option (List DeviceEvents)) (probed : Probed)
    (read : BatteryProbe → Option BatteryInfo)
    → IsCacheable id cached now
        (probe_or_reuse index id cached online now subscriptions probed read).0
unfolding probe_or_reuse
probe_or_reuse-IsCacheable index id cached online now subscriptions probed read =
    if-IsCacheable (online && needs_probe cached now) id cached now _ _
      (after_probe-IsCacheable id cached now probed)
      (λ _. reuse-IsCacheable id cached online now read)
