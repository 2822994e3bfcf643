-- ===== src/Pairing/Session.antt =====
-- The session: commands, notifications and the deadline in the order of their arrival, and the
-- register writes and events that they lead to.
pub mod Open
pub mod Steps
pub mod Turns
pub mod Ends
use logi_battery.Base.{
  ℕ, zero, suc, ◌+◌, ◌/◌, ◌%◌, ◌^◌, Option, none, some, List, [], ◌∷◌, ◌++◌, Bool, true, false, not,
  ◌==◌, if◌then◌else◌, bit_and, replicate,
}
use logi_battery.Hidpp.Message.{HidppMessage}
use logi_battery.Pairing.Notification.{
  Notification, discovery_info, discovery_name, pairing_succeeded, pairing_error, passkey,
  malformed_passkey, connected, unifying_lock, decode, parse_notification,
}
use logi_battery.Pairing.Discovery.{
  DiscoveredDevice, PartialDevice, build, with_info, with_name, entry, set_entry,
}

pub data ReceiverFamily : Type 0 where
  bolt unifying : ReceiverFamily

pub data PairingPhase : Type 0 where
  bolt_discovery bolt_pairing unifying_pairing : PairingPhase

abbrev pub phase_of : ReceiverFamily → PairingPhase
phase_of bolt = bolt_discovery
phase_of unifying = unifying_pairing

pub data PairingError : Type 0 where
  hid receiver_not_found register timeout cancelled unsupported_command : PairingError
  malformed_notification : PairingError
  device : ℕ → PairingError

pub data Click : Type 0 where
  left right : Click

pub data PasskeyMethod : Type 0 where
  keyboard : List ℕ → PasskeyMethod
  pointer : List ℕ → List Click → PasskeyMethod

pub data PairingEvent : Type 0 where
  searching : PairingEvent
  device_found : DiscoveredDevice → PairingEvent
  passkey_needed : PasskeyMethod → PairingEvent
  paired : ℕ → PairingEvent
  failed : PairingError → PairingEvent

pub data PairingCommand : Type 0 where
  pair : DiscoveredDevice → PairingCommand
  cancel : PairingCommand

-- A write of a register of the receiver: its address and its payload.
pub data Write : Type 0 where
  short : ℕ → List ℕ → Write
  long : ℕ → List ℕ → Write

-- What the `select!` of the loop takes next; `none` is a closed channel.
pub data Arrival : Type 0 where
  deadline : Arrival
  command : Option PairingCommand → Arrival
  notified : Option HidppMessage → Arrival

-- The variables of a session, with the writes and the events so far.
pub record Session : Type 0 where
  pub phase : PairingPhase
  pub found : List (ℕ × PartialDevice)
  pub pairing_auth : Option ℕ
  pub written : List Write
  pub events : List PairingEvent

pub data Progress : Type 0 where
  going : Session → Progress
  success : Session → Progress
  failure : PairingError → Session → Progress

-- The receiver may refuse a write, by what was written before.
abbrev pub Receiver : Type 0
Receiver = List Write → Write → Bool

abbrev pub send : PairingEvent → Session → Session
send event s = record s { events = s.events ++ (event ∷ []) }

abbrev pub log : Write → Session → Session
log w s = record s { written = s.written ++ (w ∷ []) }

-- `write_register(..).await?` and what follows it.
abbrev pub write : Receiver → Write → Session → (Session → Progress) → Progress
write accepts w s rest = if accepts s.written w then rest (log w s) else failure register (log w s)

abbrev pub notifications : List ℕ → Write
notifications flags = short 0x00 flags

abbrev pub open_search : ReceiverFamily → Write
open_search bolt = short 0xc0 (30 ∷ 1 ∷ 0 ∷ [])
open_search unifying = short 0xb2 (1 ∷ 0 ∷ 30 ∷ [])

-- The kind of a keyboard is 1.
abbrev pub entropy : DiscoveredDevice → ℕ
entropy d = if d.kind == 1 then 20 else 10

abbrev pub pair_write : DiscoveredDevice → Write
pair_write d = long 0xc1 (1 ∷ 0 ∷ (d.address ++ (d.authentication ∷ entropy d ∷ replicate 6 0)))

abbrev pub cancel_write : PairingPhase → Write
cancel_write bolt_discovery = short 0xc0 (30 ∷ 2 ∷ 0 ∷ [])
cancel_write bolt_pairing = long 0xc1 (2 ∷ replicate 15 0)
cancel_write unifying_pairing = short 0xb2 (2 ∷ 0 ∷ 0 ∷ [])

-- The bits of a passkey from bit `n - 1` down: `value & (1 << bit)`.
pub clicks_from : ℕ → ℕ → List Click
clicks_from zero value = []
clicks_from (suc n) value = (if value / 2 ^ n % 2 == 0 then left else right) ∷ clicks_from n value

pub passkey_to_clicks : ℕ → List Click
passkey_to_clicks value = clicks_from 10 value

abbrev pub on_keyboard : Option ℕ → Bool
on_keyboard none = false
on_keyboard (some auth) = not (bit_and auth 1 == 0)

pub passkey_method : Option ℕ → List ℕ → ℕ → PasskeyMethod
passkey_method auth digits value =
    if on_keyboard auth then keyboard digits else pointer digits (passkey_to_clicks value)

-- The entry of a counter is built once it is complete.
abbrev pub built : ℕ → PartialDevice × Option DiscoveredDevice → Session → Session
built counter (d, none) s = record s { found = set_entry counter d s.found }
built counter (d, some discovered) s =
    send (device_found discovered) (record s { found = set_entry counter d s.found })

abbrev pub to_bolt_pairing : PairingPhase → PairingPhase
to_bolt_pairing bolt_discovery = bolt_pairing
to_bolt_pairing bolt_pairing = bolt_pairing
to_bolt_pairing unifying_pairing = unifying_pairing

pub on_command : Receiver → ReceiverFamily → Option PairingCommand → Session → Progress
on_command accepts family none s = failure cancelled s
on_command accepts family (some cancel) s = failure cancelled s
on_command accepts unifying (some (pair d)) s = failure unsupported_command s
on_command accepts bolt (some (pair d)) s =
    write accepts (pair_write d)
      (record s { pairing_auth = some d.authentication; phase = to_bolt_pairing s.phase }) going

abbrev pub on_connected : ReceiverFamily → ℕ → Bool → Session → Progress
on_connected bolt slot established s = going s
on_connected unifying slot true s = success (send (paired slot) s)
on_connected unifying slot false s = going s

pub on_notification : ReceiverFamily → Notification → Session → Progress
unfolding passkey_method
on_notification family (discovery_info counter kind address authentication) s =
    going (built counter (build (with_info kind address authentication (entry counter s.found))) s)
on_notification family (discovery_name counter name) s =
    going (built counter (build (with_name name (entry counter s.found))) s)
on_notification family (passkey digits value) s =
    going (send (passkey_needed (passkey_method s.pairing_auth digits value)) s)
on_notification family malformed_passkey s = failure malformed_notification s
on_notification family (pairing_succeeded slot) s = success (send (paired slot) s)
on_notification family (pairing_error code) s = failure (device code) s
on_notification family (connected slot established) s = on_connected family slot established s
on_notification family (unifying_lock open' error) s =
    if not (error == 0)
    then failure (device error) s
    else if not open'
    then failure timeout s
    else going s

abbrev pub on_parsed : ReceiverFamily → Option Notification → Session → Progress
on_parsed family none s = going s
on_parsed family (some note) s = on_notification family note s

pub on_message : ReceiverFamily → Option HidppMessage → Session → Progress
on_message family none s = failure hid s
on_message family (some msg) s =
    let (device_index, sub_id, payload) = decode msg in
    on_parsed family (parse_notification sub_id device_index payload) s

pub on_arrival : Receiver → ReceiverFamily → Arrival → Session → Progress
on_arrival accepts family deadline s = failure timeout s
on_arrival accepts family (command c) s = on_command accepts family c s
on_arrival accepts family (notified m) s = on_message family m s

abbrev pub then_go : Progress → (Session → Progress) → Progress
then_go (going s) rest = rest s
then_go (success s) rest = success s
then_go (failure e s) rest = failure e s

-- The loop, over the arrivals so far.
pub turns : Receiver → ReceiverFamily → List Arrival → Session → Progress
turns accepts family [] s = going s
turns accepts family (a ∷ as') s =
    then_go (on_arrival accepts family a s) (turns accepts family as')

pub fresh : ReceiverFamily → Session
fresh family = record {
  phase = phase_of family;
  found = [];
  pairing_auth = none;
  written = [];
  events = [];
}

pub drive : Receiver → ReceiverFamily → List Arrival → Session → Progress
drive accepts family arrivals s = write accepts (notifications (0 ∷ 9 ∷ 0 ∷ [])) s (λ s'.
    write accepts (open_search family) s'
      (λ s''. turns accepts family arrivals (send searching s'')))

abbrev pub cancelled_after : Progress → Progress
cancelled_after (going s) = going s
cancelled_after (success s) = success s
cancelled_after (failure e s) = failure e (log (cancel_write s.phase) s)

pub run_session : Receiver → ReceiverFamily → List Arrival → Progress
unfolding fresh
run_session accepts family arrivals = cancelled_after (drive accepts family arrivals (fresh family))

abbrev pub restored : Progress → Progress
restored (going s) = going s
restored (success s) = success (log (notifications (0 ∷ 0 ∷ 0 ∷ [])) s)
restored (failure e s) = failure e (send (failed e) (log (notifications (0 ∷ 0 ∷ 0 ∷ [])) s))

-- `run_pairing` on the receiver that it opened.
pub run_pairing : Receiver → ReceiverFamily → List Arrival → Progress
run_pairing accepts family arrivals = restored (run_session accepts family arrivals)
