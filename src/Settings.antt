-- ===== src/Settings.antt =====
-- Settings of a device that the program computes with: crates/openlogi-core/src/hid.
pub mod Dpi
pub mod Light
