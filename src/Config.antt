-- ===== src/Config.antt =====
-- crates/openlogi-core/src/config: the entries of devices, and the routes by which they are found.
pub mod Map
pub mod Device
pub mod Routes
