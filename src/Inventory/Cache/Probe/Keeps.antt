-- ===== src/Inventory/Cache/Probe/Keeps.antt =====
-- What a device keeps when its probe fails or is cut short.
use logi_battery.Base.{
  ℕ, ◌≡◌, ◌⊎◌, ◌∙◌, refl, sym, Bool-cases, inl, inr, List, Option, none, some, Bool, true, false,
  not, ◌&&◌, if◌then◌else◌,
}
use logi_battery.Battery.Model.{BatteryInfo}
use logi_battery.Battery.Reading.{BatteryProbe}
use logi_battery.Inventory.Model.{DeviceModelInfo, Capabilities}
use logi_battery.Inventory.Events.{DeviceEvents}
use logi_battery.Inventory.Cache.{
  ProbedFeatures, CacheKey, Cached, CacheOutcome, Probed, is_some, or_known, seen, backfill_model,
  backfill_identity, keep_known_capabilities,
}
use logi_battery.Inventory.Cache.Probe.{
  memoize, keep_known, accept, fall_back, after_probe, refresh, read_known, reuse, needs_probe,
  probe_or_reuse, settle_battery, backfill,
}

-- A field that was known is served as it was known, or as the probe read it.
abbrev pub IsKept {ℓ} : {A : Type ℓ} → Option A → Option A → Option A → Type ℓ
IsKept none read served = Unit
IsKept (some a) read served = (served ≡ some a) ⊎ ((is_some read ≡ true) × (served ≡ read))

-- Capabilities that were known are served as they were known, or as a walk of all features read them.
abbrev pub IsWalked {ℓ} : {A : Type ℓ} → Option A → Bool → Option A → Option A → Type ℓ
IsWalked none incomplete read served = Unit
IsWalked (some a) incomplete read served =
    (served ≡ some a) ⊎ ((incomplete ≡ false) × (is_some read ≡ true) × (served ≡ read))

abbrev pub IsKnown : ProbedFeatures → ProbedFeatures → ProbedFeatures → Type 0
IsKnown known read served =
    IsKept known.kind read.kind served.kind
    × IsKept known.marketing_name read.marketing_name served.marketing_name
    × IsWalked known.capabilities read.capabilities_incomplete read.capabilities served.capabilities

-- What a backfill makes of a probe: the identity is kept, and the walk stays as it was.
abbrev IsBackfilled : ProbedFeatures → ProbedFeatures → ProbedFeatures → Type 0
IsBackfilled known read new =
    IsKept known.kind read.kind new.kind
    × IsKept known.marketing_name read.marketing_name new.marketing_name
    × (new.capabilities ≡ read.capabilities)
    × (new.capabilities_incomplete ≡ read.capabilities_incomplete)

IsKept-same {ℓ} : {A : Type ℓ} (known read : Option A) → IsKept known read known
IsKept-same none read = tt
IsKept-same (some a) read = inl refl

IsWalked-same {ℓ} :
    {A : Type ℓ} (known : Option A) (incomplete : Bool) (read : Option A)
    → IsWalked known incomplete read known
IsWalked-same none incomplete read = tt
IsWalked-same (some a) incomplete read = inl refl

IsWalked-new {ℓ} :
    {A : Type ℓ} (known : Option A) (read : Option A)
    → is_some read ≡ true
    → IsWalked known false read read
IsWalked-new none read h = tt
IsWalked-new (some a) read h = inr (refl, h, refl)

IsKept-or {ℓ} : {A : Type ℓ} (read known : Option A) → IsKept known read (or_known read known)
IsKept-or none known = IsKept-same known none
IsKept-or (some a) none = tt
IsKept-or (some a) (some b) = inr (refl, refl)

if_either :
    (P : ProbedFeatures → Type 0) (b : Bool) (x y : ProbedFeatures)
    → P x
    → P y
    → P (if b then x else y)
if_either P true x y hx hy = hx
if_either P false x y hx hy = hy

IsKnown-same : (known read : ProbedFeatures) → IsKnown known read known
IsKnown-same known read = (
  IsKept-same known.kind read.kind,
  IsKept-same known.marketing_name read.marketing_name,
  IsWalked-same known.capabilities read.capabilities_incomplete read.capabilities,
)

-- A backfilled model changes none of the fields.
model-IsBackfilled :
    (model previous : Option DeviceModelInfo) (known read new : ProbedFeatures)
    → IsBackfilled known read new
    → IsBackfilled known read (backfill_model model previous new)
unfolding backfill_model
model-IsBackfilled none (some previous) known read new h = h
model-IsBackfilled (some model) (some previous) known read new h =
    if_either (IsBackfilled known read)
      (not (is_some model.serial_number) && is_some previous.serial_number) _ new h h
model-IsBackfilled none none known read new h = h
model-IsBackfilled (some model) none known read new h = h

backfill-IsBackfilled :
    (known new : ProbedFeatures) → IsBackfilled known new (backfill_identity new known)
unfolding backfill_identity
backfill-IsBackfilled known new =
    let named : IsKept known.kind new.kind (or_known new.kind known.kind)
        × IsKept known.marketing_name new.marketing_name
            (or_known new.marketing_name known.marketing_name)
        × (new.capabilities ≡ new.capabilities)
        × (new.capabilities_incomplete ≡ new.capabilities_incomplete) =
      (
        IsKept-or new.kind known.kind,
        IsKept-or new.marketing_name known.marketing_name,
        refl,
        refl,
      ) in
    if_either (IsBackfilled known new) (not new.identity_incomplete) _ _ named
      (model-IsBackfilled new.model_info known.model_info known new _ named)

cut_short :
    (known read : ProbedFeatures) (capabilities : Option Capabilities) (incomplete : Bool)
    (new : ProbedFeatures)
    → incomplete ≡ true
    → IsBackfilled known read new
    → IsKnown
        (record known { capabilities = capabilities })
        read
        (if incomplete && is_some capabilities
          then record new { capabilities = capabilities }
          else new)
cut_short known read none true new t h = (h.0, h.1, tt)
cut_short known read (some a) true new t h = (h.0, h.1, inl refl)
cut_short known read capabilities false new t h = cc

-- A walk cut short serves the capabilities that were known.
kept_capabilities :
    (known read new : ProbedFeatures)
    → new.capabilities_incomplete ≡ true
    → IsBackfilled known read new
    → IsKnown known read (keep_known_capabilities new known)
unfolding keep_known_capabilities
kept_capabilities known read new t h =
    cut_short known read known.capabilities new.capabilities_incomplete new t h

-- A complete walk serves the capabilities that it read.
walked_capabilities :
    (known read new : ProbedFeatures)
    → new.capabilities_incomplete ≡ false
    → is_some read.capabilities ≡ true
    → IsBackfilled known read new
    → IsKnown known read new
walked_capabilities known read new f s (kind, name, same, incomplete) = (
  kind,
  name,
  rw (sym incomplete ∙ f, same) (IsWalked-new known.capabilities read.capabilities s),
)

-- A known device is served the new probe only where its identity was read.
never_served :
    (known read : ProbedFeatures) (b : Bool) (x y : ProbedFeatures × CacheOutcome)
    → IsKnown known read y.0
    → IsKnown known read (if b && false then x else y).0
never_served known read true x y h = h
never_served known read false x y h = h

walk_decides :
    (known read : ProbedFeatures) (b : Bool) (x y : ProbedFeatures × CacheOutcome)
    → (b ≡ true → IsKnown known read x.0)
    → (b ≡ false → IsKnown known read y.0)
    → IsKnown known read (if b then x else y).0
walk_decides known read true x y hx hy = hx refl
walk_decides known read false x y hx hy = hy refl

if-served :
    (known read : ProbedFeatures) (b : Bool) (x y : ProbedFeatures × CacheOutcome)
    → IsKnown known read x.0
    → IsKnown known read y.0
    → IsKnown known read (if b then x else y).0
if-served known read true x y hx hy = hx
if-served known read false x y hx hy = hy

memoize-IsKnown :
    (id : Option CacheKey) (known read : ProbedFeatures) (v : Cached)
    → IsKnown known read v.probe
    → IsKnown known read (memoize id v).0
unfolding memoize
memoize-IsKnown none known read v h = h
memoize-IsKnown (some key) known read v h = h

accept-IsKnown :
    (id : Option CacheKey) (c : Cached) (now : ℕ) (probed : Probed) (read new : ProbedFeatures)
    → is_some read.capabilities ≡ true
    → IsBackfilled c.probe read new
    → IsKnown c.probe read (accept id (some c) now probed new).0
unfolding accept keep_known
accept-IsKnown id c now probed read new s h =
    never_served c.probe read new.identity_incomplete _ _ (
      walk_decides c.probe read new.capabilities_incomplete _ _
        (λ t. kept_capabilities c.probe read new t h)
        (λ f. memoize-IsKnown id c.probe read _ (walked_capabilities c.probe read new f s h)))

refresh-IsKnown :
    (id : Option CacheKey) (c : Cached) (read : ProbedFeatures) (probe : Option BatteryProbe)
    (reading : Option BatteryInfo)
    → IsKnown c.probe read (refresh id c probe reading).0
unfolding refresh
refresh-IsKnown none c read probe reading = IsKnown-same c.probe read
refresh-IsKnown (some key) c read none reading = IsKnown-same c.probe read
refresh-IsKnown (some key) c read (some probe) none = IsKnown-same c.probe read
refresh-IsKnown (some key) c read (some probe) (some reading) = IsKnown-same c.probe read

after_probe-IsKnown :
    (id : Option CacheKey) (c : Cached) (now : ℕ) (probed : Probed)
    → IsKnown c.probe probed.features (after_probe id (some c) now probed).0
unfolding after_probe fall_back backfill
after_probe-IsKnown id c now probed =
    let new = record (probed.features) {
      battery = settle_battery probed.features.battery probed.battery c.probe.battery;
    } in
    elim (Bool-cases (is_some probed.features.capabilities)) [
      | inl h ↦
          rw h
            (accept-IsKnown id c now probed probed.features _ h (backfill-IsBackfilled c.probe new))
      | inr h ↦ rw h (IsKnown-same c.probe probed.features)
    ]

-- What is served of a known device, online or not. Its kind is the one that its entry has, or the one
-- that the probe read; so is its marketing name. Its capabilities are those that its entry has, or
-- those that the probe read in a walk that was not cut short. Each holds where the entry has the field;
-- so none that was known is lost, whatever the probe returned.
pub probe_or_reuse-IsKnown :
    (index : ℕ) (id : Option CacheKey) (c : Cached) (online : Bool) (now : ℕ)
    (subscriptions : Option (List DeviceEvents)) (probed : Probed)
    (read : BatteryProbe → Option BatteryInfo)
    → IsKnown c.probe probed.features
        (probe_or_reuse index id (some c) online now subscriptions probed read).0.0
unfolding probe_or_reuse reuse seen
probe_or_reuse-IsKnown index id c online now subscriptions probed read =
    if-served c.probe probed.features (online && needs_probe (some c) now) _ _
      (after_probe-IsKnown id c now probed)
      (if-served c.probe probed.features online _ _
        (refresh-IsKnown id c probed.features c.battery (read_known read c.battery))
        (IsKnown-same c.probe probed.features))
