-- ===== src/Keys.antt =====
-- crates/openlogi-core/src/binding: what a binding is written as.
pub mod Text
pub mod Combo
pub mod Device
