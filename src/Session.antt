-- ===== src/Session.antt =====
-- crates/openlogi-device/src/session: the sessions that capture a device's input.
pub mod Liveness
pub mod HostSwitch
pub mod Restore
pub mod Capture
