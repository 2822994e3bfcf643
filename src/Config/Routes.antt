-- ===== src/Config/Routes.antt =====
-- crates/openlogi-core/src/config/identity.rs: which entry a device has, by its identity or by a route.
-- Keys are texts.
pub mod Owners
pub mod Entries
pub mod Resolve
pub mod Repair
mod Runs
use logi_battery.Base.{
  ℕ, List, [], ◌∷◌, Option, none, some, Bool, true, false, not, ◌&&◌, ◌||◌, if◌then◌else◌, or_else,
  KeyEq, is_some, map,
}
use logi_battery.Keys.Text.{same_text}
use logi_battery.Keys.Device.{
  DeviceIdentity, DeviceStableId, is_physical, key, parse, physical_key, route_key,
}
use logi_battery.Config.Map.{Text, Map, get, contains_key, value_or, remove, or_insert, modify}
use logi_battery.Config.Device.{
  LinkConfig, DeviceConfig, no_link, default_device, holds_settings, fold,
}

-- The part of `Config` that the functions of this module use.
pub record Config (V : Type 0) : Type 0 where
  pub devices : Map (DeviceConfig V)
  pub selected_device : Option Text

-- `DeviceIdentity::config_key`
pub config_key : DeviceIdentity → Option Text
config_key identity = if is_physical identity then some (key identity) else none

abbrev parsed : Option Text → Option Text
parsed none = none
parsed (some text) = parse text

-- The configuration key of an identity, where it has one that is the key of a physical device.
pub identity_key : Option DeviceIdentity → Option Text
unfolding config_key
identity_key none = none
identity_key (some identity) = parsed (config_key identity)

pub canonical_device_key : DeviceStableId → Option DeviceIdentity → Option Text
unfolding identity_key
canonical_device_key stable identity = or_else (identity_key identity) (physical_key stable)

abbrev pub is_owned : Text → List Text → Bool
is_owned route [] = false
is_owned route (r ∷ owners) = same_text route r || is_owned route owners

abbrev repoint_target : Text → Text → Text → Text
repoint_target old new target = if same_text target old then new else target

abbrev repoint_selected : Text → Text → Option Text → Option Text
repoint_selected old new none = none
repoint_selected old new (some k) = if same_text k old then some new else some k

module _ {V : Type 0} where
  -- `device.links.contains_key(&route)`
  abbrev pub owns : Text → DeviceConfig V → Bool
  owns route d = contains_key route d.links

  -- The first entry that a route is a link of.
  pub find_owner : Text → Map (DeviceConfig V) → Option Text
  find_owner route [] = none
  find_owner route ((k, d) ∷ m) =
      let rest = find_owner route m in if owns route d then some k else rest

  -- `links.retain(..)`, with the routes that earlier entries own.
  pub retain_unowned : List Text → Map (LinkConfig V) → List Text × Map (LinkConfig V)
  retain_unowned owners [] = (owners, [])
  retain_unowned owners ((route, link) ∷ links) =
      let rest = retain_unowned (if is_owned route owners then owners else route ∷ owners) links in
      (rest.0, if is_owned route owners then rest.1 else (route, link) ∷ rest.1)

  pub repair_all : List Text → Map (DeviceConfig V) → Map (DeviceConfig V)
  unfolding retain_unowned
  repair_all owners [] = []
  repair_all owners ((k, d) ∷ m) =
      let retained = retain_unowned owners d.links in
      (k, record d { links = retained.1 }) ∷ repair_all retained.0 m

  pub repair_duplicate_routes : Config V → Config V
  unfolding repair_all
  repair_duplicate_routes self = record self { devices = repair_all [] self.devices }

  -- The route is removed from the links of every entry but the canonical one: whether it was there.
  pub remove_route : Text → Text → Map (DeviceConfig V) → Bool × Map (DeviceConfig V)
  remove_route canonical route [] = (false, [])
  remove_route canonical route ((k, d) ∷ m) =
      let rest = remove_route canonical route m in
      if not (same_text k canonical) && owns route d
      then (true, (k, record d { links = remove route d.links }) ∷ rest.1)
      else (rest.0, (k, d) ∷ rest.1)

  abbrev repoint_device : Text → Text → DeviceConfig V → DeviceConfig V
  repoint_device old new d = record d {
    host_switch_targets = map (repoint_target old new) d.host_switch_targets;
  }

  pub map_values : (DeviceConfig V → DeviceConfig V) → Map (DeviceConfig V) → Map (DeviceConfig V)
  map_values f [] = []
  map_values f ((k, d) ∷ m) = (k, f d) ∷ map_values f m

  pub repoint_references : Text → Text → Config V → Config V
  unfolding map_values
  repoint_references old new self = record {
    devices = map_values (repoint_device old new) self.devices;
    selected_device = repoint_selected old new self.selected_device;
  }

module _ {V : Type 0} (eq : KeyEq V) (ring : V) where
  abbrev holds : Option (DeviceConfig V) → Bool
  holds none = false
  holds (some d) = holds_settings eq ring d

  -- The key of the identity, or the legacy key while only its entry holds settings.
  abbrev settled : Config V → Text → Option Text → Text
  settled self k none = k
  settled self k (some legacy) =
      if not (same_text legacy k)
        && not (holds (get k self.devices))
        && holds (get legacy self.devices)
      then legacy
      else k

  abbrev indexed : Config V → DeviceStableId → Option Text
  indexed self stable =
      or_else (parsed (find_owner (route_key stable) self.devices)) (physical_key stable)

  abbrev resolved : Config V → DeviceStableId → Option Text → Option Text
  resolved self stable none = indexed self stable
  resolved self stable (some k) = some (settled self k (physical_key stable))

  pub resolve_device_key : Config V → DeviceStableId → Option DeviceIdentity → Option Text
  unfolding identity_key
  resolve_device_key self stable identity = resolved self stable (identity_key identity)

  -- Whether a probe measured other capabilities than the link has recorded.
  abbrev says_new : Option V → Option V → Bool
  says_new none recorded = false
  says_new (some c) none = true
  says_new (some c) (some d) = not (eq.same d c)

  abbrev measured : Option V → LinkConfig V → LinkConfig V
  measured capabilities link =
      if says_new capabilities link.capabilities
      then record link { capabilities = capabilities }
      else link

  pub sighted : Text → Option V → DeviceConfig V → DeviceConfig V
  sighted route capabilities d = record d {
    links = modify route (measured capabilities) (or_insert route no_link d.links);
  }

  pub sighting_changes : Text → Option V → DeviceConfig V → Bool
  sighting_changes route capabilities d =
      not (owns route d)
      || says_new capabilities (value_or no_link (get route d.links)).capabilities

  -- The end of `adopt_route`, with the legacy entry that was taken out.
  pub adopt_with :
      Text → Text → Option V → Bool → Option (DeviceConfig V) → Config V → Bool × Config V
  unfolding sighted sighting_changes repoint_references
  adopt_with canonical route capabilities changed none self = (
    changed
        || sighting_changes route capabilities
            (value_or (default_device ring) (get canonical self.devices)),
    record self {
      devices =
          modify canonical (sighted route capabilities)
            (or_insert canonical (default_device ring) self.devices);
    },
  )
  adopt_with canonical route capabilities changed (some legacy) self = (
    true,
    repoint_references route canonical (record self {
      devices =
          modify canonical (λ d. fold eq ring (sighted route capabilities d) legacy route)
            (or_insert canonical (default_device ring) self.devices);
    }),
  )

  abbrev taken : Text → Text → Map (DeviceConfig V) → Option (DeviceConfig V) × Map (DeviceConfig V)
  taken canonical route devices =
      if same_text route canonical
      then (none, devices)
      else (get route devices, remove route devices)

  pub adopt_route : Config V → Text → Text → Option V → Bool × Config V
  unfolding adopt_with remove_route
  adopt_route self canonical route capabilities =
      let others = remove_route canonical route self.devices in
      let legacy = taken canonical route others.1 in
      adopt_with canonical route capabilities others.0 legacy.0 (record self { devices = legacy.1 })
