-- ===== src/Lib.antt =====
-- logi-battery reads the batteries of Logitech devices over HID++ and hands them to C callers. This
-- library models the core of it: the protocol crate openlogi-hidpp, the inventory and the
-- sessions of openlogi-device (capture, host switch, pairing), of openlogi-core the swipe recognition,
-- the keys of devices and their configuration entries, and the C interface.
--
-- How the parts work together. A transport gives a `HidppChannel` (crates/openlogi-hidpp/src/channel.rs)
-- reports as bytes. Its read loop reads each as a message, gives it to the oldest pending request that
-- accepts it, and tells the listeners. `send_v20` (protocol/v20.rs) and the register accesses
-- (protocol/v10.rs) are requests with a predicate and a reading of the response. The inventory
-- (crates/openlogi-device/src/inventory) asks devices for their battery by one of three features,
-- memoizes what a probe returned, and keeps a ledger of the health of every node. The sessions hold
-- the channel that the registry (channel/registry.rs) serves for a route, divert a device's controls
-- and restore them. A device has its configuration entry by its identity, or by the route on which it
-- was last seen (crates/openlogi-core/src/config/identity.rs). The C interface
-- (src/ffi.rs) flattens the inventories into an array.
--
-- Which module models which part:
--   Base             bytes, lists, signed 32-bit integers, Boolean tests
--   Hidpp.Nibble     crates/openlogi-hidpp/src/nibble.rs
--   Hidpp.Message    channel/message.rs: `read_raw`, `write_raw`, `widened`
--   Hidpp.V20, V10   protocol/v20.rs and v10.rs: conversions, predicates, errors, registers
--   Hidpp.Version    protocol.rs: `determine_version`
--   Hidpp.Channel    channel.rs: state `Channel`; `register`, `unregister`, `dispatch`, `read_loop`,
--                    `send_with_timeout`, `send_and_forget`; SoftwareId has `get_sw_id`
--   Hidpp.Exchange   `send_v20` over the channel
--   Hidpp.Access     v10.rs: the four register accesses over the channel
--   Hidpp.Device     device.rs: `read_feature_entry` and the loop of `enumerate_features`
--   Hidpp.Receiver   receiver/{unifying,bolt/event}.rs: device connections
--   Battery          feature/{unified_battery,battery_status,battery_voltage}.rs, and of the
--                    inventory mappings.rs and features.rs: `battery_feature_index`, `read_battery`
--   Inventory        crates/openlogi-core/src/device.rs, and of the inventory ledger.rs, cache.rs
--                    (`probe_or_reuse`) and events.rs (`register_device`, `decode`)
--   Gesture.Swipe    crates/openlogi-core/src/binding/{swipe,gesture}.rs
--   Routing.Registry crates/openlogi-device/src/channel/registry.rs: `replace_node`, `lookup`
--   Settings         crates/openlogi-core/src: hid/dpi.rs (Dpi), device/light.rs (Light)
--   Session.Liveness crates/openlogi-device/src/session/gesture/liveness.rs: `CaptureLiveness`
--   Session.HostSwitch  session/host_switch.rs: arming and restoring (Controls),
--                    `run_host_switch_session` (Watch), `switch_linked_hosts` (Moves)
--   Session.Capture  session/gesture.rs: `handle_reprog_with_gesture_buttons`
--   Session.Restore  session/capture_restore.rs: `retry`, `restore_after_stop`
--   Pairing          crates/openlogi-device/src/pairing.rs and pairing/: `run_pairing`
--   Keys.Combo       crates/openlogi-core/src/binding/key_combo.rs: `KeyCombo`
--   Keys.Device      crates/openlogi-core/src/device_order.rs: `DeviceStableId`, `PhysicalDeviceKey`
--   Config           crates/openlogi-core/src/config: device.rs (Device), identity.rs (Routes); Map has
--                    the maps of texts
--   Ffi              src/ffi.rs: `lb_enumerate_devices`, `lb_read_battery`, `lb_free_devices`,
--                    `lb_last_error`
--
-- How state is modelled. A function that changes shared state takes it and returns it. Threads are an
-- explicit list of events: a round of the read loop, another request, the end of the own write, a poll,
-- the deadline. The sender side of a oneshot is the id of the request in the list of what was
-- delivered; the listeners' calls are a list of what they heard. The heap of the C interface is a list
-- of blocks with their addresses. Clocks are numbers of milliseconds. Results of the transport, of
-- `enumerate` and of `probe_features` are arguments.
--
-- Bounds and fuel. Every loop of the modelled code goes over a list or a count, so all are structural
-- recursions and none takes fuel. Bytes and wider words are natural numbers; the types' ranges are
-- predicates (`IsByte`, `IsFrame`, `IsHeader`, `IsI32`), and wrap-around and saturation are written
-- out. The 64-bit request counter wraps in the model; what is shown of a request takes a run in
-- which it does not. A feature table is searched up to its 255th entry, like the code's `u8` index.
--
-- Not modelled: the operating system's transports, serialisation and files, logging, the procedural
-- macro, the setters and migrations of the configuration, the binding tables, the arming of a capture
-- session and the keyboard session, device writes, and the features other than the batteries.
pub mod Base
pub mod Hidpp
pub mod Battery
pub mod Inventory
pub mod Gesture
pub mod Routing
pub mod Settings
pub mod Session
pub mod Pairing
pub mod Keys
pub mod Config
pub mod Ffi
