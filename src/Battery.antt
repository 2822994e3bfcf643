-- ===== src/Battery.antt =====
-- The battery, from the bytes of the three HID++ battery features (crates/openlogi-hidpp/src/feature)
-- to the reading that the inventory publishes (crates/openlogi-device/src/inventory).
pub mod Model
pub mod Unified
pub mod Legacy
pub mod Voltage
pub mod Mappings
pub mod Estimate
pub mod Reading
mod Runs
