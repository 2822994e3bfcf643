-- ===== src/Hidpp/Receiver/Connection.antt =====
-- Which reports are device connections.
use logi_battery.Base.{◌≡◌, ◌↔◌, true, is_some, get_or, arith}
use logi_battery.Hidpp.Message.{HidppMessage, payload_of}
use logi_battery.Hidpp.V10.{from_hidpp}
use logi_battery.Hidpp.Receiver.{decode_notification}

pub decode_notification_iff :
    (raw : HidppMessage)
    → (is_some (decode_notification (from_hidpp raw)) ≡ true) ↔ (get_or (payload_of raw) 1 0 ≡ 0x41)
unfolding decode_notification from_hidpp
decode_notification_iff (HidppMessage.short payload) = ground arith
decode_notification_iff (HidppMessage.long payload) = ground arith
