-- ===== src/Hidpp/Channel/Answers.antt =====
-- What a request returns: a message that it accepts, or a timeout, and never two answers or none.
use logi_battery.Base.{
  ℕ, ◌+◌, ◌<◌, ◌^◌, ◌≡◌, ◌⊎◌, refl, subst, List, [], ◌∷◌, none, some, Bool, true, false, Bool-cases,
  Option-cases, inl, inr, arith, ◌==◌, if◌then◌else◌, All,
}
use logi_battery.Hidpp.Message.{HidppMessage}
use logi_battery.Hidpp.Channel.{
  Channel, PendingMessage, Result, ok, err, timeout, implementation, message_type_not_supported,
  register, unregister, on_read, Event, received, registered, unregistered, wrote, write_failed,
  polled, elapsed, Outcome, done, waiting, find_delivered, is_pending, poll, run_send,
  send_with_timeout, supports_msg, normalize_outgoing,
}
use logi_battery.Hidpp.Channel.Requests.{
  Inv, in_flight, count_pending, count_delivered, count_pending-remove_self, counter-on_read,
  counter-register, counter-unregister, unregister-Inv,
}
use logi_battery.Hidpp.Channel.Running.{
  IsAnswerTo, Delivers, Running, IsForeign, registrations, on_read-Running, register-Running,
  unregister-Running, register-starts,
}

find_delivered-IsAnswerTo :
    (i : ℕ) (predicate : HidppMessage → Bool) (ds : List (ℕ × HidppMessage)) {msg : HidppMessage}
    → All (Delivers i predicate) ds
    → find_delivered i ds ≡ some msg
    → IsAnswerTo predicate msg
unfolding find_delivered
find_delivered-IsAnswerTo i predicate [] h e = cc
find_delivered-IsAnswerTo i predicate ((j, m) ∷ ds) h e = elim (Bool-cases (j == i)) [
  | inl t ↦ subst (IsAnswerTo predicate) (ground arith) (h.0 (ground arith))
  | inr f ↦ find_delivered-IsAnswerTo i predicate ds h.1 (ground arith)
]

find_delivered-none :
    (i : ℕ) (ds : List (ℕ × HidppMessage)) → find_delivered i ds ≡ none → count_delivered i ds ≡ 0
unfolding find_delivered
find_delivered-none i [] e = refl
find_delivered-none i ((j, m) ∷ ds) e = ground (arith, find_delivered-none i ds)

is_pending-false :
    (i : ℕ) (ps : List PendingMessage) → is_pending i ps ≡ false → count_pending i ps ≡ 0
unfolding is_pending
is_pending-false i [] e = refl
is_pending-false i (p ∷ ps) e = ground (arith, is_pending-false i ps)

-- A poll finds an answer that the request accepts, or the request still pending.
poll_cases :
    (i : ℕ) (predicate : HidppMessage → Bool) (ch : Channel)
    → Running i predicate ch
    → ((msg : HidppMessage) × IsAnswerTo predicate msg × (poll i ch ≡ done (ok msg)))
      ⊎ (poll i ch ≡ waiting)
unfolding poll
poll_cases i predicate ch v = elim (Option-cases (find_delivered i ch.delivered)) [
  | inr (msg, e) ↦
      inl (msg, find_delivered-IsAnswerTo i predicate ch.delivered v.answers e, rw (e, poll) refl)
  | inl e ↦ elim (Bool-cases (is_pending i ch.pending)) [
    | inl t ↦ inr (rw (e, poll) (rw t refl))
    | inr f ↦ absurd (
        omega
          (arith, v.mine, find_delivered-none i ch.delivered e, is_pending-false i ch.pending f))
  ]
]

-- How a request may stand after some events.
abbrev pub Settles : ℕ → (HidppMessage → Bool) → Channel × Outcome → Type 0
Settles i predicate (ch, waiting) = Inv ch × (in_flight i ch ≡ 1)
Settles i predicate (ch, done (ok msg)) =
    IsAnswerTo predicate msg × Inv ch × (count_pending i ch.pending ≡ 0)
Settles i predicate (ch, done (err e)) =
    ((e ≡ timeout) ⊎ (e ≡ implementation)) × Inv ch × (count_pending i ch.pending ≡ 0)

unregister_own :
    (i : ℕ) (predicate : HidppMessage → Bool) (ch : Channel)
    → Running i predicate ch
    → Inv (unregister i ch) × (count_pending i (unregister i ch).pending ≡ 0)
unfolding unregister
unregister_own i predicate ch v =
    (unregister-Inv i ch v.inv, omega (arith, count_pending-remove_self i ch.pending, v.mine))

pub run_send_done :
    (i : ℕ) (es : List Event) (ch : Channel) {r : Result HidppMessage}
    → poll i ch ≡ done r
    → run_send i true (polled ∷ es) ch ≡ (unregister i ch, done r)
unfolding run_send
run_send_done i es ch e = rw (e, run_send) refl

pub run_send_waiting :
    (i : ℕ) (es : List Event) (ch : Channel)
    → poll i ch ≡ waiting
    → run_send i true (polled ∷ es) ch ≡ run_send i true es ch
unfolding run_send
run_send_waiting i es ch e = rw (e, run_send) refl

pub run_send-Settles :
    (i : ℕ) (predicate : HidppMessage → Bool) (written : Bool) (events : List Event) (ch : Channel)
    → All (IsForeign i) events
    → ch.pending_message_id + registrations events < 2 ^ 64
    → Running i predicate ch
    → Settles i predicate (run_send i written events ch)
unfolding run_send
run_send-Settles i predicate written [] ch f room v = (v.inv, v.mine)
run_send-Settles i predicate written (received r ∷ es) ch f room v =
    run_send-Settles i predicate written es (on_read r ch) f.1
      (omega (arith, counter-on_read r ch, room)) (on_read-Running i predicate r ch f.0 v)
run_send-Settles i predicate written (registered p ∷ es) ch f room v =
    run_send-Settles i predicate written es (register p ch).1 f.1
      (omega (arith, counter-register p ch, room))
      (register-Running i predicate p ch (omega (arith, room)) v)
run_send-Settles i predicate written (unregistered j ∷ es) ch f room v =
    run_send-Settles i predicate written es (unregister j ch) f.1
      (omega (arith, counter-unregister j ch, room)) (unregister-Running i j predicate ch f.0 v)
run_send-Settles i predicate written (wrote ∷ es) ch f room v =
    run_send-Settles i predicate true es ch f.1 room v
run_send-Settles i predicate true (write_failed ∷ es) ch f room v =
    run_send-Settles i predicate true es ch f.1 room v
run_send-Settles i predicate false (write_failed ∷ es) ch f room v =
    (inr refl, (unregister_own i predicate ch v).0, (unregister_own i predicate ch v).1)
run_send-Settles i predicate false (polled ∷ es) ch f room v =
    run_send-Settles i predicate false es ch f.1 room v
run_send-Settles i predicate true (polled ∷ es) ch f room v = elim (poll_cases i predicate ch v) [
  | inl (msg, a, e) ↦
      rw (run_send_done i es ch e)
        (a, (unregister_own i predicate ch v).0, (unregister_own i predicate ch v).1)
  | inr e ↦ rw (run_send_waiting i es ch e) (run_send-Settles i predicate true es ch f.1 room v)
]
run_send-Settles i predicate written (elapsed ∷ es) ch f room v =
    (inl refl, (unregister_own i predicate ch v).0, (unregister_own i predicate ch v).1)

-- How a call of `send_with_timeout` may stand after some events, from the channel `start`.
abbrev pub SendSettles : Channel → HidppMessage → (HidppMessage → Bool) → Channel × Outcome → Type 0
SendSettles start msg predicate o =
    if supports_msg start (normalize_outgoing start msg)
    then Settles start.pending_message_id predicate o
    else (o ≡ (start, done (err message_type_not_supported)))

-- A request on a channel that carries its message ends in a message of a report that its predicate
-- accepts, in a timeout or in a failed write, or it still waits, once in the queue or once answered;
-- however it ends, it leaves the queue, and the invariant holds. In particular it is never told that there is no response. On any other
-- channel the message is refused and nothing changes. The other threads may do anything but drop this
-- request, and the 64-bit counter does not wrap.
pub send_with_timeout-SendSettles :
    (msg : HidppMessage) (predicate : HidppMessage → Bool) (events : List Event) (ch : Channel)
    → All (IsForeign ch.pending_message_id) events
    → ch.pending_message_id + 1 + registrations events < 2 ^ 64
    → Inv ch
    → SendSettles ch msg predicate (send_with_timeout msg predicate events ch)
unfolding send_with_timeout register
send_with_timeout-SendSettles msg predicate events ch f room v =
    elim (Bool-cases (supports_msg ch (normalize_outgoing ch msg))) [
      | inl t ↦ rw t (
          run_send-Settles ch.pending_message_id predicate false events (register predicate ch).1 f
            (omega (arith, counter-register predicate ch (omega arith), room))
            (register-starts predicate ch (omega arith) v))
      | inr n ↦ rw n refl
    ]
