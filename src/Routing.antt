-- ===== src/Routing.antt =====
-- Which channel serves a route to a device: crates/openlogi-device/src/channel.
pub mod Registry
