-- ===== src/Hidpp/Channel/Runs.antt =====
-- Requests on a channel that already has one in flight.
use logi_battery.Base.{
  ℕ, ◌≡◌, ◌⊎◌, refl, List, [], ◌∷◌, ◌++◌, Option, none, some, sym, ap, Bool, true, false, All,
  replicate, arith, if◌then◌else◌, get_or, ◌==◌,
}
use logi_battery.Hidpp.Message.{HidppMessage, short, long, payload_of, widened, read_raw}
use logi_battery.Hidpp.Channel.{
  Channel, PendingMessage, ok, err, message_type_not_supported, notify, dispatch, register,
  supports_msg, normalize_outgoing, send_and_forget, Event, received, report, read_error,
  registered, wrote, polled, done, send_with_timeout,
}
use logi_battery.Hidpp.Channel.Requests.{Inv, register-Inv}
use logi_battery.Hidpp.Channel.Dispatch.{Rejects, SplitAt, answered, dispatch_lem}
use logi_battery.Hidpp.Channel.Answers.{SendSettles, send_with_timeout-SendSettles}
use logi_battery.Hidpp.Channel.Rounds.{IsOther}
use logi_battery.Hidpp.Channel.Delivery.{send_with_timeout-returns}
use logi_battery.Hidpp.Channel.Outgoing.{can_carry, IsSameOnWire, send_and_forget-IsSameOnWire}

abbrev for_device : ℕ → HidppMessage → Bool
for_device d msg = get_or (payload_of msg) 0 0 == d

-- A channel that has only long reports, two listeners and no request.
abbrev idle : Channel
idle = record {
  supports_short = false;
  supports_long = true;
  pending = [];
  pending_message_id = 1;
  listeners = 1 ∷ 2 ∷ [];
  next_listener_hdl = 3;
  delivered = [];
  heard = [];
}

-- One request for device 1 waits.
abbrev busy : Channel
busy = (register (for_device 1) idle).1

abbrev question : HidppMessage
question = short (0x02 ∷ 0x06 ∷ 0x1a ∷ 0x00 ∷ 0x00 ∷ 0x00 ∷ [])

abbrev answer_bytes : List ℕ
answer_bytes = 0x11 ∷ 0x02 ∷ 0x06 ∷ 0x1a ∷ 0x32 ∷ 0x02 ∷ replicate 14 0

abbrev answer : HidppMessage
answer = long (0x02 ∷ 0x06 ∷ 0x1a ∷ 0x32 ∷ 0x02 ∷ replicate 14 0)

idle-Inv : Inv idle
idle-Inv = record { once = λ i. omega arith; fresh = λ i h. refl }

busy-Inv : Inv busy
busy-Inv = register-Inv (for_device 1) idle (omega arith) idle-Inv

-- While the request waits, a read fails, another request starts, and its answer comes.
abbrev meanwhile : List Event
meanwhile =
    received read_error
    ∷ wrote
    ∷ registered (for_device 3)
    ∷ received (report answer_bytes)
    ∷ polled
    ∷ []

send_with_timeout-SendSettles_example :
    SendSettles busy question
      (for_device 2)
      (send_with_timeout question (for_device 2) meanwhile busy)
unfolding register
send_with_timeout-SendSettles_example =
    send_with_timeout-SendSettles question (for_device 2) meanwhile busy (omega arith) (omega arith)
      busy-Inv

-- Before the answer a read fails, another request starts, the older one is answered and the request is
-- polled; behind it the write ends and a report comes.
abbrev other_bytes : List ℕ
other_bytes = 0x11 ∷ 0x01 ∷ 0x06 ∷ 0x1a ∷ 0x32 ∷ 0x02 ∷ replicate 14 0

abbrev sooner : List Event
sooner =
    received read_error ∷ registered (for_device 3) ∷ received (report other_bytes) ∷ polled ∷ []

abbrev later : List Event
later = wrote ∷ received (report other_bytes) ∷ []

abbrev for_second : Option HidppMessage → Bool
for_second none = false
for_second (some msg) = for_device 2 msg

sooner-IsOther : All (IsOther (for_device 2)) sooner
unfolding read_raw widened
sooner-IsOther = (tt, (tt, ((λ msg e. sym (ap for_second e)), (tt, tt))))

send_with_timeout-returns_example :
    (send_with_timeout question
      (for_device 2)
      (sooner ++ received (report answer_bytes) ∷ (later ++ polled ∷ []))
      busy).1
    ≡ done (ok answer)
unfolding register supports_msg normalize_outgoing read_raw widened
send_with_timeout-returns_example =
    send_with_timeout-returns question (for_device 2) answer_bytes answer sooner later [] busy refl
      busy-Inv (omega arith) refl refl (refl, tt) sooner-IsOther (omega arith) refl (omega arith)

-- A message for another device than the waiting request's.
dispatch_lem_example :
    (All (Rejects answer) busy.pending × (dispatch answer busy ≡ notify answer false busy))
    ⊎ ((p : PendingMessage) × (rest : List PendingMessage) × SplitAt answer busy.pending rest p
        × (dispatch answer busy ≡ answered answer busy p rest))
dispatch_lem_example = dispatch_lem answer busy

send_and_forget-IsSameOnWire_example :
    if can_carry idle question
    then ((bytes : List ℕ) × (send_and_forget question idle ≡ ok bytes)
        × IsSameOnWire question bytes)
    else (send_and_forget question idle ≡ err message_type_not_supported)
send_and_forget-IsSameOnWire_example = send_and_forget-IsSameOnWire question idle (omega arith)
