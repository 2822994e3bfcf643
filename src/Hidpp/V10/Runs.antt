-- ===== src/Hidpp/V10/Runs.antt =====
-- Register accesses of HID++1.0 at concrete messages.
use logi_battery.Base.{refl, [], ◌∷◌, replicate, arith}
use logi_battery.Hidpp.Message.{HidppMessage}
use logi_battery.Hidpp.V10.{V10Message, long, is_rap_response, get_long_register}
use logi_battery.Hidpp.V10.Registers.{IsAccess, is_rap_response-IsAccess}

-- An error reply to the read of register 0xb5.
abbrev refused : HidppMessage
refused = HidppMessage.short (0xff ∷ 0x8f ∷ 0x83 ∷ 0xb5 ∷ 0x02 ∷ 0x00 ∷ [])

abbrev message : V10Message
message = long (record { device_index = 0xff; sub_id = 0x83 }) (0xb5 ∷ replicate 16 7)

is_rap_response-IsAccess_example : IsAccess get_long_register 0xff 0xb5 refused
unfolding is_rap_response
is_rap_response-IsAccess_example =
    is_rap_response-IsAccess get_long_register 0xff 0xb5 refused (omega arith) refl
