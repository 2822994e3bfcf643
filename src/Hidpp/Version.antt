-- ===== src/Hidpp/Version.antt =====
-- `determine_version` of crates/openlogi-hidpp/src/protocol.rs: a HID++2.0 ping, whose answer or
-- HID++1.0 error tells the protocol version of a device.
pub mod Detection
mod Runs
use logi_battery.Base.{
  ℕ, List, [], ◌∷◌, Option, none, some, Bool, ◌&&◌, ◌||◌, get_or, ◌==◌, if◌then◌else◌, false,
}
use logi_battery.Hidpp.Nibble.{U4, from_lo, combine}
use logi_battery.Hidpp.Message.{HidppMessage}
use logi_battery.Hidpp.V20
use logi_battery.Hidpp.V20.{MessageHeader, header_eq}
use logi_battery.Hidpp.V10

pub data ProtocolVersion : Type 0 where
  v10 : ProtocolVersion
  v20 : ℕ → ℕ → ProtocolVersion

pub ping_header : ℕ → U4 → MessageHeader
ping_header device_index sw_id = record {
  device_index = device_index;
  feature_index = 0x00;
  function_id = from_lo 0x1;
  software_id = sw_id;
}

-- The message that is sent.
pub ping : ℕ → U4 → HidppMessage
unfolding ping_header
ping device_index sw_id =
    V20.into_hidpp (V20.V20Message.short (ping_header device_index sw_id) (0x00 ∷ 0x00 ∷ 0x00 ∷ []))

-- A short HID++1.0 error that names the ping: its feature index 0 as the sub id, and its function byte
-- as the register's address.
is_ping_error : ℕ → U4 → V10.V10Message → Bool
is_ping_error device_index sw_id (V10.V10Message.short h payload) =
    h.device_index == device_index
    && h.sub_id == V10.type_byte V10.MessageType.error
    && get_or payload 0 0 == 0x00
    && get_or payload 1 0 == combine (from_lo 0x1) sw_id
is_ping_error device_index sw_id (V10.V10Message.long h payload) = false

-- The response predicate.
pub accepts_ping : ℕ → U4 → HidppMessage → Bool
unfolding ping_header is_ping_error
accepts_ping device_index sw_id resp =
    header_eq (V20.header (V20.from_hidpp resp)) (ping_header device_index sw_id)
    || is_ping_error device_index sw_id (V10.from_hidpp resp)

-- The error code of a short HID++1.0 message.
version_of_v10 : V10.V10Message → Option ProtocolVersion
version_of_v10 (V10.V10Message.short h payload) =
    if get_or payload 2 0 == V10.to_byte V10.ErrorType.invalid_sub_id then some v10 else none
version_of_v10 (V10.V10Message.long h payload) = none

-- What is made of the response; `none` means that there is no device.
pub determine_version : ℕ → U4 → HidppMessage → Option ProtocolVersion
unfolding ping_header version_of_v10
determine_version device_index sw_id resp =
    if header_eq (V20.header (V20.from_hidpp resp)) (ping_header device_index sw_id)
    then some (
        v20 (get_or (V20.extend_payload (V20.from_hidpp resp)) 0 0)
          (get_or (V20.extend_payload (V20.from_hidpp resp)) 1 0))
    else version_of_v10 (V10.from_hidpp resp)
