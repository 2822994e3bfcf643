-- ===== src/Pairing.antt =====
-- crates/openlogi-device/src/pairing.rs and its notification.rs and registers.rs: the session that pairs
-- a device with a receiver. Names are the bytes before `from_utf8_lossy`, a device's kind is its byte
-- or nibble, and the texts of errors are left out.
pub mod Notification
pub mod Discovery
pub mod Session
mod Runs
