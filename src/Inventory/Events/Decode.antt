-- ===== src/Inventory/Events/Decode.antt =====
-- crates/openlogi-device/src/inventory/events.rs: what a channel's listener makes of a report
-- (`SubscriptionState::decode`), with the state that its handles and guards change.
pub mod Sources
pub mod Reports
mod Runs
use logi_battery.Base.{
  ℕ, ◌+◌, ◌-◌, ◌%◌, ◌^◌, List, [], ◌∷◌, Option, none, some, Bool, true, false, not, ◌&&◌, ◌==◌,
  get_or, is_some, if◌then◌else◌,
}
use logi_battery.Hidpp.Nibble.{to_lo}
use logi_battery.Hidpp.Message.{HidppMessage}
use logi_battery.Hidpp.V10
use logi_battery.Hidpp.V20.{V20Message, header, extend_payload, from_hidpp}
use logi_battery.Hidpp.Receiver.{decode_notification}
use logi_battery.Battery.Unified.{decode_event}
use logi_battery.Inventory.Events.{EventFeatureIndices, DeviceEvents, register_device, find_device}

pub data HidppEventSource : Type 0 where
  receiver_connection wireless_device_status unified_battery : HidppEventSource

pub data ReceiverProtocol : Type 0 where
  bolt unifying : ReceiverProtocol

pub record SubscriptionState : Type 0 where
  pub protocol : Option ReceiverProtocol
  pub devices : List DeviceEvents
  pub receiver_snapshot_depth : ℕ

-- The bytes of a reconnection broadcast.
pub record WirelessDeviceStatusBroadcast : Type 0 where
  pub status : ℕ
  pub request : ℕ
  pub reason : ℕ

pub decode_wireless : ℕ → List ℕ → Option WirelessDeviceStatusBroadcast
decode_wireless sub_id payload =
    if not (sub_id == 0)
    then none
    else some (record {
      status = get_or payload 0 0;
      request = get_or payload 1 0;
      reason = get_or payload 2 0;
    })

-- `index == Some(feature_index)`
abbrev pub is_at : Option ℕ → ℕ → Bool
is_at none feature_index = false
is_at (some index) feature_index = index == feature_index

pub recognizes : EventFeatureIndices → V20Message → Option HidppEventSource
recognizes self message =
    let function_id = to_lo (header message).function_id in
    let payload = extend_payload message in
    if not (to_lo (header message).software_id == 0)
    then none
    else if is_at self.wireless_status (header message).feature_index
        && is_some (decode_wireless function_id payload)
    then some wireless_device_status
    else if is_at self.unified_battery (header message).feature_index
        && is_some (decode_event function_id payload)
    then some unified_battery
    else none

-- The `match` on the receiver's protocol.
pub is_receiver_connection : Option ReceiverProtocol → HidppMessage → Bool
is_receiver_connection (some bolt) raw = is_some (decode_notification (V10.from_hidpp raw))
is_receiver_connection (some unifying) raw = is_some (decode_notification (V10.from_hidpp raw))
is_receiver_connection none raw = false

abbrev pub recognized_by : Option EventFeatureIndices → V20Message → Option HidppEventSource
recognized_by none message = none
recognized_by (some features) message = recognizes features message

pub decode : SubscriptionState → HidppMessage → Bool → Option HidppEventSource
decode self raw true = none
decode self raw false =
    if is_receiver_connection self.protocol raw
    then (if self.receiver_snapshot_depth == 0 then some receiver_connection else none)
    else recognized_by (find_device (header (from_hidpp raw)).device_index self.devices)
        (from_hidpp raw)

abbrev usize : ℕ
usize = 2 ^ 64

-- `fetch_add(1)`, and the guard's `fetch_sub(1)`; both wrap around.
pub begin_receiver_snapshot : SubscriptionState → SubscriptionState
begin_receiver_snapshot self = record self {
  receiver_snapshot_depth = (self.receiver_snapshot_depth + 1) % usize;
}

pub drop_guard : SubscriptionState → SubscriptionState
drop_guard self = record self {
  receiver_snapshot_depth = (self.receiver_snapshot_depth + (usize - 1)) % usize;
}
