-- ===== src/Inventory/Model.antt =====
-- The inventory types of crates/openlogi-core/src/device.rs. A text is the list of its UTF-8 bytes.
use logi_battery.Base.{ℕ, List, [], ◌∷◌, Option, Bool, true, false, ◌||◌, ◌==◌}
use logi_battery.Battery.Model.{BatteryInfo}

abbrev pub Text : Type 0
Text = List ℕ

pub data DeviceKind : Type 0 where
  mouse keyboard numpad presenter remote trackball touchpad : DeviceKind
  tablet gamepad joystick headset camera unknown light : DeviceKind

pub record Capabilities : Type 0 where
  pub buttons : Bool
  pub pointer : Bool
  pub lighting : Bool
  pub scroll_inversion : Bool
  pub hires_wheel : Bool
  pub thumbwheel : Bool
  pub haptic_feedback : Bool
  pub haptic_panel : Bool

pub record DeviceTransports : Type 0 where
  pub usb : Bool
  pub equad : Bool
  pub btle : Bool
  pub bluetooth : Bool

pub record DeviceModelInfo : Type 0 where
  pub entity_count : ℕ
  pub serial_number : Option Text
  pub unit_id : List ℕ
  pub transports : DeviceTransports
  pub model_ids : List ℕ
  pub extended_model_id : ℕ

pub record ReceiverInfo : Type 0 where
  pub name : Text
  pub vendor_id : ℕ
  pub product_id : ℕ
  pub unique_id : Option Text

pub record PairedDevice : Type 0 where
  pub slot : ℕ
  pub codename : Option Text
  pub wpid : Option ℕ
  pub kind : DeviceKind
  pub online : Bool
  pub battery : Option BatteryInfo
  pub model_info : Option DeviceModelInfo
  pub capabilities : Option Capabilities

pub record DeviceInventory : Type 0 where
  pub receiver : ReceiverInfo
  pub paired : List PairedDevice

abbrev pub contains_id : List ℕ → ℕ → Bool
contains_id [] id = false
contains_id (x ∷ xs) id = x == id || contains_id xs id

-- `ids.iter().any(|id| family.contains(id))`
abbrev pub has_family : List ℕ → List ℕ → Bool
has_family [] family = false
has_family (id ∷ ids) family = contains_id family id || has_family ids family

pub from_feature_ids : List ℕ → Capabilities
from_feature_ids ids = record {
  buttons = has_family ids (0x1b00 ∷ 0x1b01 ∷ 0x1b02 ∷ 0x1b03 ∷ 0x1b04 ∷ []);
  pointer = has_family ids (0x2201 ∷ 0x2202 ∷ []);
  lighting = has_family ids (0x8080 ∷ 0x8070 ∷ 0x8081 ∷ []);
  scroll_inversion = false;
  hires_wheel = contains_id ids 0x2121;
  thumbwheel = contains_id ids 0x2150;
  haptic_feedback = contains_id ids 0x19b0;
  haptic_panel = false;
}

abbrev pub no_capabilities : Capabilities
no_capabilities = record {
  buttons = false;
  pointer = false;
  lighting = false;
  scroll_inversion = false;
  hires_wheel = false;
  thumbwheel = false;
  haptic_feedback = false;
  haptic_panel = false;
}

pub presumed_from_kind : DeviceKind → Capabilities
presumed_from_kind mouse = record no_capabilities { buttons = true; pointer = true }
presumed_from_kind trackball = record no_capabilities { buttons = true; pointer = true }
presumed_from_kind keyboard = record no_capabilities { lighting = true }
presumed_from_kind _ = no_capabilities
