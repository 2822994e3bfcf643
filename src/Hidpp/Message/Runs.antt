-- ===== src/Hidpp/Message/Runs.antt =====
-- The reports of crates/openlogi-hidpp/src/channel/message.rs at concrete bytes.
use logi_battery.Base.{ℕ, ◌≡◌, refl, List, [], ◌∷◌, some, take, replicate, arith}
use logi_battery.Hidpp.Message.{HidppMessage, short, long, IsFrame, read_raw, write_raw}
use logi_battery.Hidpp.Message.RoundTrip.{Written, read_raw-Written, write_raw-Written}

-- A battery request as the device sees it.
abbrev request : List ℕ
request = 0x10 ∷ 0x01 ∷ 0x06 ∷ 0x1a ∷ 0x00 ∷ 0x00 ∷ 0x00 ∷ []

abbrev ping : HidppMessage
ping = short (0xff ∷ 0x00 ∷ 0x11 ∷ 0x00 ∷ 0x00 ∷ 0x5a ∷ [])

abbrev answer : HidppMessage
answer = long (0x01 ∷ 0x06 ∷ 0x1a ∷ 0x32 ∷ 0x02 ∷ replicate 14 0)

read_raw-Written_example :
    IsFrame (short (0x01 ∷ 0x06 ∷ 0x1a ∷ 0x00 ∷ 0x00 ∷ 0x00 ∷ []))
    × ((out : List ℕ) × (write_raw
            (short (0x01 ∷ 0x06 ∷ 0x1a ∷ 0x00 ∷ 0x00 ∷ 0x00 ∷ []))
            (replicate 20 0)
          ≡ some (out, 7))
        × (take 7 out ≡ request))
unfolding read_raw
read_raw-Written_example =
    read_raw-Written request (short (0x01 ∷ 0x06 ∷ 0x1a ∷ 0x00 ∷ 0x00 ∷ 0x00 ∷ [])) (omega arith)
      refl

write_raw-Written_example : (out : List ℕ) × (len : ℕ) × Written answer (replicate 20 0xee) out len
write_raw-Written_example = write_raw-Written answer (replicate 20 0xee) (omega arith) (omega arith)
