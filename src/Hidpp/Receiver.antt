-- ===== src/Hidpp/Receiver.antt =====
-- crates/openlogi-hidpp/src/receiver/unifying.rs (`decode_notification`) and the device connections of
-- receiver/bolt/event.rs (`decode`), whose other notifications are not modelled. The kind of a device
-- is its nibble, before `DeviceKind::from`.
pub mod Connection
use logi_battery.Base.{
  ℕ, Option, none, some, Bool, not, ◌==◌, ◌+◌, ◌*◌, bit_and, get_or, if◌then◌else◌,
}
use logi_battery.Hidpp.V10.{V10Message, header, extend_payload}

pub record DeviceConnection : Type 0 where
  pub index : ℕ
  pub kind : ℕ
  pub encrypted : Bool
  pub online : Bool
  pub wpid : ℕ

abbrev pub device_connection_sub_id : ℕ
device_connection_sub_id = 0x41

-- The connection that a message reports, from its payload.
pub connection : V10Message → DeviceConnection
connection msg =
    let payload = extend_payload msg in
    record {
      index = (header msg).device_index;
      kind = bit_and (get_or payload 1 0) 0x0f;
      encrypted = not (bit_and (get_or payload 1 0) 32 == 0);
      online = bit_and (get_or payload 1 0) 64 == 0;
      wpid = get_or payload 2 0 + get_or payload 3 0 * 256;
    }

pub decode_notification : V10Message → Option DeviceConnection
decode_notification msg =
    if (header msg).sub_id == device_connection_sub_id then some (connection msg) else none
