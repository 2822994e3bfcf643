-- ===== src/Pairing/Session/Open.antt =====
-- A session whose search is open, and the reports that tell that a device is paired.
use logi_battery.Base.{
  bit_and, ℕ, ◌&&◌, ◌||◌, get_or, ◌≡◌, ◌⊎◌, inl, inr, List, [], ◌∷◌, ◌++◌, Option, none, some, Bool,
  true, false, All, if◌then◌else◌, ◌==◌,
}
use logi_battery.Pairing.Notification.{
  Notification, pairing_succeeded, connected, decode, parse_notification,
}
use logi_battery.Pairing.Notification.Paired.{
  parse_notification-succeeded, parse_notification-connected,
}
use logi_battery.Hidpp.Message.{HidppMessage}
use logi_battery.Pairing.Session.{
  ReceiverFamily, bolt, unifying, PairingPhase, bolt_discovery, bolt_pairing, unifying_pairing,
  PairingEvent, searching, device_found, passkey_needed, paired, failed, Write, short, long,
  Arrival, deadline, command, notified, pair, cancel, Session, notifications, open_search,
  pair_write,
}

-- The write asks the receiver to pair a device.
abbrev pub is_pair : Write → Bool
is_pair (short address payload) = false
is_pair (long address payload) = address == 0xc1 && get_or payload 0 0 == 1

abbrev pub has_pair : List Write → Bool
has_pair [] = false
has_pair (w ∷ ws) = is_pair w || has_pair ws

-- The flow that the writes opened last.
abbrev pub opened : ReceiverFamily → List Write → PairingPhase
opened unifying ws = unifying_pairing
opened bolt ws = if has_pair ws then bolt_pairing else bolt_discovery

-- The writes that ask to pair the devices chosen among some arrivals, in their order.
abbrev pub asked : Arrival → List Write
asked deadline = []
asked (command none) = []
asked (command (some cancel)) = []
asked (command (some (pair d))) = pair_write d ∷ []
asked (notified m) = []

abbrev pub pair_writes : List Arrival → List Write
pair_writes [] = []
pair_writes (a ∷ as') = asked a ++ pair_writes as'

-- An event of a session that goes on.
abbrev pub IsNews : PairingEvent → Type 0
IsNews searching = Unit
IsNews (device_found d) = Unit
IsNews (passkey_needed m) = Unit
IsNews (paired slot) = ⊥
IsNews (failed e) = ⊥

-- A session whose search is open, and that has asked for pairings by the writes `ws`.
pub record Open (family : ReceiverFamily) (ws : List Write) (s : Session) : Type 0 where
  pub tracks : s.phase ≡ opened family ws
  pub begun : s.written ≡ notifications (0 ∷ 9 ∷ 0 ∷ []) ∷ open_search family ∷ ws
  pub news : (es : List PairingEvent) × All IsNews es × (s.events ≡ searching ∷ es)

-- The notification tells that the device at a slot is paired.
abbrev pub IsPaired : ReceiverFamily → Option Notification → ℕ → Type 0
IsPaired family note slot =
    (note ≡ some (pairing_succeeded slot))
    ⊎ ((family ≡ unifying) × (note ≡ some (connected slot true)))

-- The bytes of a report that tell so: a pairing status of state 2 and error 0, which names the slot, or
-- to a Unifying receiver's session a connection of the slot whose link is established.
abbrev pub Tells : ReceiverFamily → Arrival → ℕ → Type 0
Tells family deadline slot = ⊥
Tells family (command c) slot = ⊥
Tells family (notified none) slot = ⊥
Tells family (notified (some msg)) slot =
    let (device_index, sub_id, p) = decode msg in
    ((sub_id ≡ 0x54) × (get_or p 0 0 ≡ 2) × (get_or p 1 0 ≡ 0) × (slot ≡ get_or p 8 0))
    ⊎ ((family ≡ unifying)
        × (sub_id ≡ 0x41)
        × (slot ≡ device_index)
        × (bit_and (get_or p 1 0) 64 ≡ 0))

pub IsPaired-Tells :
    (family : ReceiverFamily) (msg : HidppMessage) (slot : ℕ)
    → let (device_index, sub_id, p) = decode msg in
      IsPaired family (parse_notification sub_id device_index p) slot
      → Tells family (notified (some msg)) slot
IsPaired-Tells family msg slot (inl e) =
    inl (parse_notification-succeeded (decode msg).1 (decode msg).0 (decode msg).2 slot e)
IsPaired-Tells family msg slot (inr (u, e)) =
    let (sub, at_slot, link) =
      parse_notification-connected (decode msg).1 (decode msg).0 (decode msg).2 slot e in
    inr (u, sub, at_slot, link)
