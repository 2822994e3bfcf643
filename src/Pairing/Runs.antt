-- ===== src/Pairing/Runs.antt =====
-- A mouse is found by a Bolt receiver and paired by clicks.
use logi_battery.Base.{◌≡◌, List, [], ◌∷◌, some, none, true, replicate}
use logi_battery.Hidpp.Message.{HidppMessage}
use logi_battery.Pairing.Discovery.{DiscoveredDevice, default}
use logi_battery.Pairing.Discovery.Once.{Frame, info, name, feed, emit, first_both, feed-first_both}
use logi_battery.Pairing.Session.{Receiver, Arrival, command, notified, pair, bolt, run_pairing}
use logi_battery.Pairing.Session.Ends.{Ends, run_pairing-Ends}

abbrev obliging : Receiver
obliging ws w = true

abbrev mouse : DiscoveredDevice
mouse = record {
  address = 1 ∷ 2 ∷ 3 ∷ 4 ∷ 5 ∷ 6 ∷ [];
  authentication = 2;
  kind = 2;
  name = b'M' ∷ b'X' ∷ [];
}

-- The frames of the discovery, the user's choice, a passkey, and the assignment of slot 3.
abbrev arrivals : List Arrival
arrivals =
    notified (
      some (
        HidppMessage.long
          (0xff ∷ 0x4f ∷ 1 ∷ 0 ∷ 0 ∷ 0 ∷ 2 ∷ 0 ∷ 0 ∷ 1 ∷ 2 ∷ 3 ∷ 4 ∷ 5 ∷ 6 ∷ 0 ∷ 0 ∷ 2 ∷ 0 ∷ [])))
    ∷ notified
        (some (HidppMessage.long (0xff ∷ 0x4f ∷ 1 ∷ 0 ∷ 1 ∷ 2 ∷ b'M' ∷ b'X' ∷ replicate 11 0)))
    ∷ command (some (pair mouse))
    ∷ notified
        (some (HidppMessage.long (0xff ∷ 0x4d ∷ 0 ∷ b'1' ∷ b'0' ∷ b'0' ∷ b'5' ∷ replicate 13 0)))
    ∷ notified
        (some (HidppMessage.long (0xff ∷ 0x54 ∷ 2 ∷ 0 ∷ 0 ∷ 0 ∷ 0 ∷ 0 ∷ 0 ∷ 0 ∷ 3 ∷ replicate 8 0)))
    ∷ []

run_pairing-Ends_example : Ends bolt arrivals (run_pairing obliging bolt arrivals)
run_pairing-Ends_example = run_pairing-Ends obliging bolt arrivals

abbrev frames : List Frame
frames =
    name (b'M' ∷ [])
    ∷ name (b'M' ∷ b'X' ∷ [])
    ∷ info 2 (1 ∷ 2 ∷ 3 ∷ 4 ∷ 5 ∷ 6 ∷ []) 2
    ∷ name []
    ∷ []

feed-first_both_example : feed default frames ≡ emit (first_both none none frames) []
feed-first_both_example = feed-first_both frames
