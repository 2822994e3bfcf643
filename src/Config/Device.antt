-- ===== src/Config/Device.antt =====
-- crates/openlogi-core/src/config/device.rs (the entry of a device) and the `fold` of config/identity.rs,
-- which merges an entry that was kept under a route. The values of the settings are of a type with an
-- equality; so is the action ring, of which one value is the default. Keys of maps are texts.
pub mod Kept
mod Runs
use logi_battery.Base.{
  ℕ, List, [], ◌∷◌, Option, none, some, Bool, true, false, not, ◌&&◌, ◌||◌, if◌then◌else◌, or_else,
  KeyEq, is_some,
}
use logi_battery.Config.Map.{Text, Map, get, or_insert, or_insert_all, modify}

pub record LinkOverrides (V : Type 0) : Type 0 where
  pub dpi : Option V
  pub invert_scroll : Option Bool
  pub scroll_resolution : Option V
  pub lighting : Option V
  pub smartshift : Option V

pub record LinkConfig (V : Type 0) : Type 0 where
  pub capabilities : Option V
  pub overrides : LinkOverrides V

-- `DeviceIdentity`, the probed identity.
pub record Identity (V : Type 0) : Type 0 where
  pub display_name : V
  pub model_info : Option V
  pub codename : Option V
  pub kind : V
  pub capabilities : V
  pub light_capabilities : Option V
  pub driver_id : Option V
  pub registry_model_id : Option V

pub record DeviceConfig (V : Type 0) : Type 0 where
  pub enabled : Bool
  pub custom_name : Option V
  pub gesture_owner : Option V
  pub identity : Option (Identity V)
  pub links : Map (LinkConfig V)
  pub bindings : Map V
  pub disabled_gestures : Map V
  pub per_app_bindings : Map V
  pub action_ring : V
  pub dpi_presets : List V
  pub dpi : Option V
  pub lighting : Option V
  pub light : Option V
  pub smartshift : Option V
  pub camera_controls : Option V
  pub camera_profiles : Map V
  pub camera_profile : Option V
  pub thumbwheel_sensitivity : Option V
  pub invert_scroll : Bool
  pub scroll_resolution : Option V
  pub host_switch_targets : List Text
  pub fn_lock : Option V

abbrev pub no_overrides : {V : Type 0} → LinkOverrides V
no_overrides = record {
  dpi = none;
  invert_scroll = none;
  scroll_resolution = none;
  lighting = none;
  smartshift = none;
}

abbrev pub no_link : {V : Type 0} → LinkConfig V
no_link = record { capabilities = none; overrides = no_overrides }

-- `DeviceConfig::default`, with the default ring.
abbrev pub default_device : {V : Type 0} → V → DeviceConfig V
default_device ring = record {
  enabled = true;
  custom_name = none;
  gesture_owner = none;
  identity = none;
  links = [];
  bindings = [];
  disabled_gestures = [];
  per_app_bindings = [];
  action_ring = ring;
  dpi_presets = [];
  dpi = none;
  lighting = none;
  light = none;
  smartshift = none;
  camera_controls = none;
  camera_profiles = [];
  camera_profile = none;
  thumbwheel_sensitivity = none;
  invert_scroll = false;
  scroll_resolution = none;
  host_switch_targets = [];
  fn_lock = none;
}

abbrev pub is_empty {ℓ} : {A : Type ℓ} → List A → Bool
is_empty [] = true
is_empty (a ∷ as') = false

abbrev pub overrides_of : {V : Type 0} → Option (LinkConfig V) → LinkOverrides V
overrides_of none = no_overrides
overrides_of (some link) = link.overrides

abbrev bool_or : Option Bool → Bool → Bool
bool_or none b = b
bool_or (some a) b = a

-- `fold_if_empty!`
abbrev pub or_list {ℓ} : {A : Type ℓ} → List A → List A → List A
or_list [] theirs = theirs
or_list (a ∷ as') theirs = a ∷ as'

module _ {V : Type 0} where
  -- `link_overrides(route_key).and_then(..)`; a route with no link has no overrides.
  pub link_overrides : DeviceConfig V → Text → LinkOverrides V
  link_overrides self route = overrides_of (get route self.links)

  pub effective_dpi : DeviceConfig V → Text → Option V
  unfolding link_overrides
  effective_dpi self route = or_else (link_overrides self route).dpi self.dpi

  pub effective_invert_scroll : DeviceConfig V → Text → Bool
  unfolding link_overrides
  effective_invert_scroll self route =
      bool_or (link_overrides self route).invert_scroll self.invert_scroll

  pub effective_scroll_resolution : DeviceConfig V → Text → Option V
  unfolding link_overrides
  effective_scroll_resolution self route =
      or_else (link_overrides self route).scroll_resolution self.scroll_resolution

  pub effective_lighting : DeviceConfig V → Text → Option V
  unfolding link_overrides
  effective_lighting self route = or_else (link_overrides self route).lighting self.lighting

  pub effective_smartshift : DeviceConfig V → Text → Option V
  unfolding link_overrides
  effective_smartshift self route = or_else (link_overrides self route).smartshift self.smartshift

  abbrev capabilities_of : Option (Identity V) → Option V
  capabilities_of none = none
  capabilities_of (some identity) = some identity.capabilities

module _ {V : Type 0} (eq : KeyEq V) (ring : V) where
  -- `holds_settings`: the entry without its identity and its links is not the default.
  pub holds_settings : DeviceConfig V → Bool
  holds_settings d = not (
      d.enabled
      && not (is_some d.custom_name)
      && not (is_some d.gesture_owner)
      && is_empty d.bindings
      && is_empty d.disabled_gestures
      && is_empty d.per_app_bindings
      && eq.same d.action_ring ring
      && is_empty d.dpi_presets
      && not (is_some d.dpi)
      && not (is_some d.lighting)
      && not (is_some d.light)
      && not (is_some d.smartshift)
      && not (is_some d.camera_controls)
      && is_empty d.camera_profiles
      && not (is_some d.camera_profile)
      && not (is_some d.thumbwheel_sensitivity)
      && not d.invert_scroll
      && not (is_some d.scroll_resolution)
      && is_empty d.host_switch_targets
      && not (is_some d.fn_lock))

  -- `fold_field!`: the override that the route gets, from the one that it had.
  abbrev overridden : Option V → Option V → Option V → Option V
  overridden none theirs was = was
  overridden (some ours) none was = was
  overridden (some ours) (some theirs) was = if eq.same ours theirs then was else some theirs

  -- The link of the route once both entries are merged.
  pub folded_link : DeviceConfig V → DeviceConfig V → LinkConfig V → LinkConfig V
  folded_link device legacy link = record {
    capabilities = or_else link.capabilities (capabilities_of legacy.identity);
    overrides = record {
      dpi = overridden device.dpi legacy.dpi link.overrides.dpi;
      invert_scroll =
          if legacy.invert_scroll && not device.invert_scroll
          then some true
          else link.overrides.invert_scroll;
      scroll_resolution =
          overridden device.scroll_resolution legacy.scroll_resolution
            link.overrides.scroll_resolution;
      lighting = overridden device.lighting legacy.lighting link.overrides.lighting;
      smartshift = overridden device.smartshift legacy.smartshift link.overrides.smartshift;
    };
  }

  pub fold : DeviceConfig V → DeviceConfig V → Text → DeviceConfig V
  unfolding folded_link
  fold device legacy route = record device {
    links =
        modify route (folded_link device legacy)
          (or_insert route no_link (or_insert_all legacy.links device.links));
    bindings = or_insert_all legacy.bindings device.bindings;
    disabled_gestures = or_insert_all legacy.disabled_gestures device.disabled_gestures;
    per_app_bindings = or_insert_all legacy.per_app_bindings device.per_app_bindings;
    camera_profiles = or_insert_all legacy.camera_profiles device.camera_profiles;
    dpi = or_else device.dpi legacy.dpi;
    scroll_resolution = or_else device.scroll_resolution legacy.scroll_resolution;
    lighting = or_else device.lighting legacy.lighting;
    smartshift = or_else device.smartshift legacy.smartshift;
    light = or_else device.light legacy.light;
    camera_controls = or_else device.camera_controls legacy.camera_controls;
    camera_profile = or_else device.camera_profile legacy.camera_profile;
    thumbwheel_sensitivity = or_else device.thumbwheel_sensitivity legacy.thumbwheel_sensitivity;
    fn_lock = or_else device.fn_lock legacy.fn_lock;
    custom_name = or_else device.custom_name legacy.custom_name;
    identity = or_else device.identity legacy.identity;
    dpi_presets = or_list device.dpi_presets legacy.dpi_presets;
    host_switch_targets = or_list device.host_switch_targets legacy.host_switch_targets;
    action_ring =
        if eq.same device.action_ring ring then legacy.action_ring else device.action_ring;
    enabled = device.enabled && legacy.enabled;
  }
