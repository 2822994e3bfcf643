-- ===== src/Hidpp/Channel/Delivery.antt =====
-- A response that is there is returned, whatever came before it and whenever the write ends.
use logi_battery.Base.{
  ℕ, ◌+◌, ◌<◌, ◌^◌, ◌≡◌, ◌≢◌, ◌∙◌, refl, ap, List, [], ◌∷◌, ◌++◌, some, Bool, true, false, ◌||◌,
  All, arith, IsByte,
}
use logi_battery.Hidpp.Message.{HidppMessage, read_raw}
use logi_battery.Hidpp.Channel.{
  Channel, ok, register, unregister, on_read, report, Event, received, registered, unregistered,
  wrote, write_failed, polled, elapsed, Outcome, done, run_send, send_with_timeout, supports_msg,
  normalize_outgoing,
}
use logi_battery.Hidpp.Channel.Dispatch.{Rejects}
use logi_battery.Hidpp.Channel.Requests.{Inv, counter-on_read, counter-register, counter-unregister}
use logi_battery.Hidpp.Channel.Running.{
  IsReadOfBytes, registrations, register-Running, unregister-Running, register-starts,
}
use logi_battery.Hidpp.Channel.Answers.{run_send_done, run_send_waiting}
use logi_battery.Hidpp.Channel.Waiting.{append-IsNext, last-IsNext, remove_id-IsNext}
use logi_battery.Hidpp.Channel.Rounds.{
  IsOther, Answered, Expects, on_read-Answered, on_read-Expects, on_read_next, poll-Expects,
  poll_found,
}

-- Nothing ends the request: its write does not fail, its time is not over, and no other thread drops it.
abbrev pub IsQuiet : ℕ → Event → Type 0
IsQuiet i (received r) = IsReadOfBytes r
IsQuiet i (registered p) = Unit
IsQuiet i (unregistered j) = j ≢ i
IsQuiet i wrote = Unit
IsQuiet i write_failed = ⊥
IsQuiet i polled = Unit
IsQuiet i elapsed = ⊥

abbrev pub is_wrote : Event → Bool
is_wrote wrote = true
is_wrote (received r) = false
is_wrote (registered p) = false
is_wrote (unregistered j) = false
is_wrote write_failed = false
is_wrote polled = false
is_wrote elapsed = false

abbrev pub has_wrote : List Event → Bool
has_wrote [] = false
has_wrote (e ∷ es) = is_wrote e || has_wrote es

-- A request whose response is there returns it at the next poll behind its write.
delivered_returns :
    (i : ℕ) (predicate : HidppMessage → Bool) (resp : HidppMessage) (written : Bool)
    (after rest : List Event) (ch : Channel)
    → All (IsQuiet i) after
    → ch.pending_message_id + registrations after < 2 ^ 64
    → (written || has_wrote after) ≡ true
    → Answered i predicate resp ch
    → (run_send i written (after ++ polled ∷ rest) ch).1 ≡ done (ok resp)
unfolding run_send
delivered_returns i predicate resp true [] rest ch q room w v =
    ap (λ (o : Channel × Outcome). o.1) (run_send_done i rest ch (poll_found i ch v.there))
delivered_returns i predicate resp false [] rest ch q room w v = cc
delivered_returns i predicate resp written (received r ∷ es) rest ch q room w v =
    delivered_returns i predicate resp written es rest (on_read r ch) q.1
      (omega (arith, counter-on_read r ch, room)) w (on_read-Answered i predicate resp r ch q.0 v)
delivered_returns i predicate resp written (registered p ∷ es) rest ch q room w v =
    delivered_returns i predicate resp written es rest (register p ch).1 q.1
      (omega (arith, counter-register p ch, room)) w
      (record {
        running = register-Running i predicate p ch (omega (arith, room)) v.running;
        there = unfold register in v.there;
      })
delivered_returns i predicate resp written (unregistered j ∷ es) rest ch q room w v =
    delivered_returns i predicate resp written es rest (unregister j ch) q.1
      (omega (arith, counter-unregister j ch, room)) w
      (record {
        running = unregister-Running i j predicate ch q.0 v.running;
        there = unfold unregister in v.there;
      })
delivered_returns i predicate resp written (wrote ∷ es) rest ch q room w v =
    delivered_returns i predicate resp true es rest ch q.1 room refl v
delivered_returns i predicate resp written (write_failed ∷ es) rest ch q room w v = absurd q.0
delivered_returns i predicate resp true (polled ∷ es) rest ch q room w v =
    ap (λ (o : Channel × Outcome). o.1)
      (run_send_done i (es ++ polled ∷ rest) ch (poll_found i ch v.there))
delivered_returns i predicate resp false (polled ∷ es) rest ch q room w v =
    delivered_returns i predicate resp false es rest ch q.1 room w v
delivered_returns i predicate resp written (elapsed ∷ es) rest ch q room w v = absurd q.0

-- A request that waits for its response returns it, once it comes and is polled.
expected_returns :
    (i : ℕ) (predicate : HidppMessage → Bool) (bytes : List ℕ) (resp : HidppMessage)
    (written : Bool) (before after rest : List Event) (ch : Channel)
    → All IsByte bytes
    → read_raw bytes ≡ some resp
    → predicate resp ≡ true
    → All (IsQuiet i) (before ++ after)
    → All (IsOther predicate) before
    → ch.pending_message_id + registrations (before ++ after) < 2 ^ 64
    → (written || has_wrote (before ++ after)) ≡ true
    → Expects i predicate resp ch
    → (run_send i written (before ++ received (report bytes) ∷ (after ++ polled ∷ rest)) ch).1
      ≡ done (ok resp)
unfolding run_send
expected_returns i predicate bytes resp written [] after rest ch b e a q f room w v =
    delivered_returns i predicate resp written after rest (on_read (report bytes) ch) q
      (omega (arith, counter-on_read (report bytes) ch, room)) w
      (on_read_next i predicate bytes resp ch b e a v)
expected_returns i predicate bytes resp written (received r ∷ es) after rest ch b e a q f room w v =
    expected_returns i predicate bytes resp written es after rest (on_read r ch) b e a q.1 f.1
      (omega (arith, counter-on_read r ch, room)) w
      (on_read-Expects i predicate resp r ch q.0 f.0 v)
expected_returns i predicate bytes resp written (registered p ∷ es) after rest ch b e a q f room w
      v =
    expected_returns i predicate bytes resp written es after rest (register p ch).1 b e a q.1 f.1
      (omega (arith, counter-register p ch, room)) w
      (record {
        running = register-Running i predicate p ch (omega (arith, room)) v.running;
        next = unfold register in append-IsNext i predicate resp ch.pending _ v.next;
      })
expected_returns i predicate bytes resp written (unregistered j ∷ es) after rest ch b e a q f room w
      v =
    expected_returns i predicate bytes resp written es after rest (unregister j ch) b e a q.1 f.1
      (omega (arith, counter-unregister j ch, room)) w
      (record {
        running = unregister-Running i j predicate ch q.0 v.running;
        next = unfold unregister in remove_id-IsNext i predicate resp j ch.pending q.0 v.next;
      })
expected_returns i predicate bytes resp written (wrote ∷ es) after rest ch b e a q f room w v =
    expected_returns i predicate bytes resp true es after rest ch b e a q.1 f.1 room refl v
expected_returns i predicate bytes resp written (write_failed ∷ es) after rest ch b e a q f room w
      v =
    absurd q.0
expected_returns i predicate bytes resp true (polled ∷ es) after rest ch b e a q f room w v =
    ap (λ (o : Channel × Outcome). o.1)
      (run_send_waiting i (es ++ received (report bytes) ∷ (after ++ polled ∷ rest)) ch
        (poll-Expects i predicate resp ch v))
    ∙ expected_returns i predicate bytes resp true es after rest ch b e a q.1 f.1 room refl v
expected_returns i predicate bytes resp false (polled ∷ es) after rest ch b e a q f room w v =
    expected_returns i predicate bytes resp false es after rest ch b e a q.1 f.1 room w v
expected_returns i predicate bytes resp written (elapsed ∷ es) after rest ch b e a q f room w v =
    absurd q.0

-- A request on a channel that carries its message returns the first report that its predicate accepts,
-- once it is polled after the report and after the end of its write, if no request that was pending at
-- its start accepts the report. Before the report any others may be read that the predicate rejects,
-- also reads that fail, and before and after it other requests may start and be dropped; the write may
-- end before or after the report, and what is read after it changes nothing. The write does not fail,
-- the time is not over before the poll, nobody else drops the request, the channel has its invariant,
-- and the 64-bit counter does not wrap.
pub send_with_timeout-returns :
    (msg : HidppMessage) (predicate : HidppMessage → Bool) (bytes : List ℕ) (resp : HidppMessage)
    (before after rest : List Event) (ch : Channel)
    → supports_msg ch (normalize_outgoing ch msg) ≡ true
    → Inv ch
    → All IsByte bytes
    → read_raw bytes ≡ some resp
    → predicate resp ≡ true
    → All (Rejects resp) ch.pending
    → All (IsOther predicate) before
    → All (IsQuiet ch.pending_message_id) (before ++ after)
    → has_wrote (before ++ after) ≡ true
    → ch.pending_message_id + 1 + registrations (before ++ after) < 2 ^ 64
    → (send_with_timeout msg predicate
        (before ++ received (report bytes) ∷ (after ++ polled ∷ rest))
        ch).1
      ≡ done (ok resp)
unfolding send_with_timeout
send_with_timeout-returns msg predicate bytes resp before after rest ch s inv b e a r f q w room =
    let started : Expects ch.pending_message_id predicate resp (register predicate ch).1 = record {
      running = register-starts predicate ch (omega (arith, room)) inv;
      next = unfold register in last-IsNext ch.pending_message_id predicate resp ch.pending r;
    } in
    rw s (
      unfold register in
      expected_returns ch.pending_message_id predicate bytes resp false before after rest
        (register predicate ch).1 b e a q f
        (omega (arith, counter-register predicate ch (omega (arith, room)), room)) w started)
