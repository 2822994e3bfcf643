-- ===== src/Hidpp/Version/Runs.antt =====
-- The ping of a receiver, which speaks HID++1.0.
use logi_battery.Base.{refl, [], ◌∷◌, arith}
use logi_battery.Hidpp.Nibble.{combine, from_lo}
use logi_battery.Hidpp.Message.{short}
use logi_battery.Hidpp.V10
use logi_battery.Hidpp.V20
use logi_battery.Hidpp.Version.{accepts_ping}
use logi_battery.Hidpp.Version.Detection.{Tells, determine_version-Tells}

determine_version-Tells_example :
    Tells 0xff (record { raw = 1 }) (short (0xff ∷ 0x8f ∷ 0x00 ∷ 0x11 ∷ 0x01 ∷ 0x00 ∷ []))
unfolding accepts_ping V20.from_hidpp V10.from_hidpp combine from_lo
determine_version-Tells_example =
    determine_version-Tells 0xff (record { raw = 1 })
      (short (0xff ∷ 0x8f ∷ 0x00 ∷ 0x11 ∷ 0x01 ∷ 0x00 ∷ [])) (omega arith) (omega arith) refl
