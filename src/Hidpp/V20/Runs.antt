-- ===== src/Hidpp/V20/Runs.antt =====
-- HID++2.0 messages at concrete values: a request for the battery of the device in slot 1, its answer
-- and an error reply to it.
use logi_battery.Base.{◌≡◌, refl, [], ◌∷◌, replicate, arith}
use logi_battery.Hidpp.Nibble.{combine, from_hi, from_lo}
use logi_battery.Hidpp.Message.{HidppMessage}
use logi_battery.Hidpp.V20.{
  MessageHeader, IsHeader, IsMessage, extend_payload, from_hidpp, into_hidpp, accepts, interpret,
  is_error,
}
use logi_battery.Hidpp.V20.RoundTrip.{into_hidpp-from_hidpp}
use logi_battery.Hidpp.V20.Correlation.{Interprets, interpret-Interprets}

abbrev asked : MessageHeader
asked = record {
  device_index = 0x01;
  feature_index = 0x06;
  function_id = record { raw = 1 };
  software_id = record { raw = 10 };
}

abbrev answer : HidppMessage
answer = HidppMessage.long (0x01 ∷ 0x06 ∷ 0x1a ∷ 0x32 ∷ 0x02 ∷ replicate 14 0)

-- Error 8, busy.
abbrev busy_reply : HidppMessage
busy_reply = HidppMessage.long (0x01 ∷ 0xff ∷ 0x06 ∷ 0x1a ∷ 0x08 ∷ replicate 14 0)

abbrev ping : HidppMessage
ping = HidppMessage.short (0xff ∷ 0x00 ∷ 0x11 ∷ 0x00 ∷ 0x00 ∷ 0x5a ∷ [])

into_hidpp-from_hidpp_example :
    IsMessage (from_hidpp answer) × (into_hidpp (from_hidpp answer) ≡ answer)
into_hidpp-from_hidpp_example = into_hidpp-from_hidpp answer (omega arith)

asked-IsHeader : IsHeader asked
asked-IsHeader = record {
  device_byte = omega arith;
  feature_byte = omega arith;
  function_nibble = omega arith;
  software_nibble = omega arith;
}

interpret-Interprets_example : Interprets asked busy_reply (interpret busy_reply)
unfolding accepts is_error from_hidpp extend_payload combine from_hi from_lo
interpret-Interprets_example =
    interpret-Interprets asked busy_reply (omega arith) (omega arith) refl
