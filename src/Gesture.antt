-- ===== src/Gesture.antt =====
-- Gestures: crates/openlogi-core/src/binding.
pub mod Swipe
