-- ===== src/Hidpp/Channel/Rounds.antt =====
-- What a round of the read loop and a poll do for a request whose response is to come or has come.
use logi_battery.Base.{
  ℕ, ◌+◌, ◌≤◌, ◌≡◌, refl, List, [], ◌∷◌, none, some, Bool, true, false, All, ==_refl, Bool-cases,
  Option-cases, inl, inr, arith, ◌==◌, IsByte,
}
use logi_battery.Hidpp.Message.{HidppMessage, read_raw}
use logi_battery.Hidpp.Channel.{
  Channel, PendingMessage, ok, take_match, dispatch, notify, on_read, ReadResult, report,
  read_error, Event, received, registered, unregistered, wrote, write_failed, polled, elapsed, done,
  waiting, find_delivered, is_pending, poll,
}
use logi_battery.Hidpp.Channel.Requests.{in_flight, count_pending, count_delivered}
use logi_battery.Hidpp.Channel.Running.{Running, IsReadOfBytes, on_read-Running}
use logi_battery.Hidpp.Channel.Waiting.{
  IsNext, take_match-Leaves, take_match_next, count_pending-IsNext,
}

-- No report that is read answers the request.
abbrev pub IsOther : (HidppMessage → Bool) → Event → Type 0
IsOther predicate (received (report bytes)) =
    (msg : HidppMessage) → read_raw bytes ≡ some msg → predicate msg ≡ false
IsOther predicate (received read_error) = Unit
IsOther predicate (registered p) = Unit
IsOther predicate (unregistered j) = Unit
IsOther predicate wrote = Unit
IsOther predicate write_failed = Unit
IsOther predicate polled = Unit
IsOther predicate elapsed = Unit

-- The request is under way, and the response has been delivered to it.
pub record Answered (i : ℕ) (predicate : HidppMessage → Bool) (resp : HidppMessage) (ch : Channel)
    : Type 0 where
  pub running : Running i predicate ch
  pub there : find_delivered i ch.delivered ≡ some resp

-- The request is under way, and the response would be delivered to it.
pub record Expects (i : ℕ) (predicate : HidppMessage → Bool) (resp : HidppMessage) (ch : Channel)
    : Type 0 where
  pub running : Running i predicate ch
  pub next : IsNext i predicate resp ch.pending

count_delivered-there :
    (i : ℕ) (ds : List (ℕ × HidppMessage)) {msg : HidppMessage}
    → find_delivered i ds ≡ some msg
    → 1 ≤ count_delivered i ds
unfolding find_delivered
count_delivered-there i [] e = cc
count_delivered-there i ((j, m) ∷ ds) e = elim (Bool-cases (j == i)) [
  | inl t ↦ rw t (omega arith)
  | inr f ↦ rw f (count_delivered-there i ds (rw f at e))
]

find_delivered-absent :
    (i : ℕ) (ds : List (ℕ × HidppMessage)) → count_delivered i ds ≡ 0 → find_delivered i ds ≡ none
unfolding find_delivered
find_delivered-absent i [] e = refl
find_delivered-absent i ((j, m) ∷ ds) e = ground (arith, find_delivered-absent i ds)

-- A response behind one more delivery, of another request.
later_there :
    (i j : ℕ) (msg resp : HidppMessage) (ds : List (ℕ × HidppMessage))
    → count_delivered i ((j, msg) ∷ ds) ≤ 1
    → find_delivered i ds ≡ some resp
    → find_delivered i ((j, msg) ∷ ds) ≡ some resp
unfolding find_delivered
later_there i j msg resp ds n e = elim (Bool-cases (j == i)) [
  | inl t ↦ absurd (omega (arith, count_delivered-there i ds e, rw t at n))
  | inr f ↦ rw f e
]

-- A later message does not replace the response.
dispatch-there :
    (i : ℕ) (resp msg : HidppMessage) (ch : Channel)
    → in_flight i (dispatch msg ch) ≡ 1
    → find_delivered i ch.delivered ≡ some resp
    → find_delivered i (dispatch msg ch).delivered ≡ some resp
unfolding dispatch notify
dispatch-there i resp msg ch m v = elim (Option-cases (take_match msg ch.pending)) [
  | inl e ↦ rw (e, dispatch) v
  | inr ((p, rest), e) ↦
      let n : count_pending i rest + count_delivered i ((p.id, msg) ∷ ch.delivered) ≡ 1 =
        rw (e, dispatch) at m in
      rw (e, dispatch) (later_there i p.id msg resp ch.delivered (omega (arith, n)) v)
]

-- The round of the read loop that delivers the response.
dispatch_next :
    (i : ℕ) (predicate : HidppMessage → Bool) (resp : HidppMessage) (ch : Channel)
    → predicate resp ≡ true
    → IsNext i predicate resp ch.pending
    → find_delivered i (dispatch resp ch).delivered ≡ some resp
unfolding dispatch notify find_delivered
dispatch_next i predicate resp ch a w =
    let (own, rest, e, same) = take_match_next i predicate resp ch.pending a w in
    rw (e, dispatch) (rw (same, find_delivered) (rw (==_refl i) refl))

dispatch-IsNext :
    (i : ℕ) (predicate : HidppMessage → Bool) (resp msg : HidppMessage) (ch : Channel)
    → predicate msg ≡ false
    → IsNext i predicate resp ch.pending
    → IsNext i predicate resp (dispatch msg ch).pending
unfolding dispatch notify
dispatch-IsNext i predicate resp msg ch f w = elim (Option-cases (take_match msg ch.pending)) [
  | inl e ↦ rw (e, dispatch) w
  | inr ((q, rest), e) ↦
      rw (e, dispatch) (rw e at (take_match-Leaves i predicate resp msg ch.pending f w))
]

on_read-there :
    (i : ℕ) (resp : HidppMessage) (r : ReadResult) (ch : Channel)
    → in_flight i (on_read r ch) ≡ 1
    → find_delivered i ch.delivered ≡ some resp
    → find_delivered i (on_read r ch).delivered ≡ some resp
unfolding on_read
on_read-there i resp read_error ch m v = v
on_read-there i resp (report bytes) ch m v = elim (Option-cases (read_raw bytes)) [
  | inl e ↦ rw e v
  | inr (msg, e) ↦ rw e (dispatch-there i resp msg ch (rw e at m) v)
]

on_read-IsNext :
    (i : ℕ) (predicate : HidppMessage → Bool) (resp : HidppMessage) (r : ReadResult) (ch : Channel)
    → IsOther predicate (received r)
    → IsNext i predicate resp ch.pending
    → IsNext i predicate resp (on_read r ch).pending
unfolding on_read
on_read-IsNext i predicate resp read_error ch f w = w
on_read-IsNext i predicate resp (report bytes) ch f w = elim (Option-cases (read_raw bytes)) [
  | inl e ↦ rw e w
  | inr (msg, e) ↦ rw e (dispatch-IsNext i predicate resp msg ch (f msg e) w)
]

on_read_there :
    (i : ℕ) (predicate : HidppMessage → Bool) (bytes : List ℕ) (resp : HidppMessage) (ch : Channel)
    → read_raw bytes ≡ some resp
    → predicate resp ≡ true
    → IsNext i predicate resp ch.pending
    → find_delivered i (on_read (report bytes) ch).delivered ≡ some resp
unfolding on_read
on_read_there i predicate bytes resp ch e a w = rw e (dispatch_next i predicate resp ch a w)

is_pending-true :
    (i : ℕ) (ps : List PendingMessage) → 1 ≤ count_pending i ps → is_pending i ps ≡ true
unfolding is_pending
is_pending-true i [] n = absurd (omega (arith, n))
is_pending-true i (p ∷ ps) n = ground (arith, is_pending-true i ps)

pub on_read-Answered :
    (i : ℕ) (predicate : HidppMessage → Bool) (resp : HidppMessage) (r : ReadResult) (ch : Channel)
    → IsReadOfBytes r
    → Answered i predicate resp ch
    → Answered i predicate resp (on_read r ch)
on_read-Answered i predicate resp r ch b v = record {
  running = on_read-Running i predicate r ch b v.running;
  there = on_read-there i resp r ch (on_read-Running i predicate r ch b v.running).mine v.there;
}

pub on_read-Expects :
    (i : ℕ) (predicate : HidppMessage → Bool) (resp : HidppMessage) (r : ReadResult) (ch : Channel)
    → IsReadOfBytes r
    → IsOther predicate (received r)
    → Expects i predicate resp ch
    → Expects i predicate resp (on_read r ch)
on_read-Expects i predicate resp r ch b f v = record {
  running = on_read-Running i predicate r ch b v.running;
  next = on_read-IsNext i predicate resp r ch f v.next;
}

pub on_read_next :
    (i : ℕ) (predicate : HidppMessage → Bool) (bytes : List ℕ) (resp : HidppMessage) (ch : Channel)
    → All IsByte bytes
    → read_raw bytes ≡ some resp
    → predicate resp ≡ true
    → Expects i predicate resp ch
    → Answered i predicate resp (on_read (report bytes) ch)
on_read_next i predicate bytes resp ch b e a v = record {
  running = on_read-Running i predicate (report bytes) ch b v.running;
  there = on_read_there i predicate bytes resp ch e a v.next;
}

-- While its response is still to come, a poll finds the request waiting.
pub poll-Expects :
    (i : ℕ) (predicate : HidppMessage → Bool) (resp : HidppMessage) (ch : Channel)
    → Expects i predicate resp ch
    → poll i ch ≡ waiting
unfolding poll
poll-Expects i predicate resp ch v =
    let here = count_pending-IsNext i predicate resp ch.pending v.next in
    rw (find_delivered-absent i ch.delivered (omega (arith, v.running.mine, here)), poll)
      (rw (is_pending-true i ch.pending here) refl)

pub poll_found :
    (i : ℕ) (ch : Channel) {msg : HidppMessage}
    → find_delivered i ch.delivered ≡ some msg
    → poll i ch ≡ done (ok msg)
unfolding poll
poll_found i ch e = rw (e, poll) refl
