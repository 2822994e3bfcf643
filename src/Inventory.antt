-- ===== src/Inventory.antt =====
-- The device inventory: its types (crates/openlogi-core/src/device.rs), and how probes keep it
-- (crates/openlogi-device/src/inventory).
pub mod Model
pub mod Ledger
pub mod Events
pub mod Cache
