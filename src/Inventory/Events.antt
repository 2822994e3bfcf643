-- ===== src/Inventory/Events.antt =====
-- crates/openlogi-device/src/inventory/events.rs: the features of a device whose events matter to the
-- inventory, and the devices registered with a channel's listener.
pub mod Registry
pub mod Decode
mod Runs
use logi_battery.Base.{
  ℕ, suc, ◌+◌, List, [], ◌∷◌, Option, none, some, Bool, ltb, ◌==◌, if◌then◌else◌,
}

pub record EventFeatureIndices : Type 0 where
  pub wireless_status : Option ℕ
  pub unified_battery : Option ℕ

pub record DeviceEvents : Type 0 where
  pub device_index : ℕ
  pub features : EventFeatureIndices

pub default : EventFeatureIndices
default = record { wireless_status = none; unified_battery = none }

-- `Some(index)` in the place of what was seen if the id is the wanted one.
pub mark : Bool → ℕ → Option ℕ → Option ℕ
mark hit index seen = if hit then some index else seen

-- The `match id` at an index of the table.
pub mark_id : ℕ → ℕ → EventFeatureIndices → EventFeatureIndices
unfolding mark
mark_id id index found = record {
  wireless_status = mark (id == 0x1d4b) index found.wireless_status;
  unified_battery = mark (id == 0x1004) index found.unified_battery;
}

-- The loop over the table from a position, with the indices found so far.
pub scan_table : ℕ → EventFeatureIndices → List ℕ → EventFeatureIndices
scan_table position found [] = found
scan_table position found (id ∷ ids) =
    let rest = scan_table (position + 1) (mark_id id (position + 1) found) ids in
    if ltb 255 (position + 1) then found else rest

pub from_feature_ids : List ℕ → EventFeatureIndices
unfolding default
from_feature_ids ids = scan_table 0 default ids

pub register_device : ℕ → EventFeatureIndices → List DeviceEvents → List DeviceEvents
register_device index features [] = record { device_index = index; features = features } ∷ []
register_device index features (d ∷ ds) =
    if d.device_index == index
    then record d { features = features } ∷ ds
    else d ∷ register_device index features ds

-- `devices.iter().find(|device| device.device_index == index)`, and its features.
pub find_device : ℕ → List DeviceEvents → Option EventFeatureIndices
find_device index [] = none
find_device index (d ∷ ds) =
    if d.device_index == index then some d.features else find_device index ds
