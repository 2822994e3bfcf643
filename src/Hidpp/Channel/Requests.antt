-- ===== src/Hidpp/Channel/Requests.antt =====
-- Every request is answered once at most: an id is in flight, as a pending request or as an answer,
-- once at most, and no id from the counter on was used.
use logi_battery.Base.{
  ℕ, suc, ◌+◌, ◌-◌, ◌≤◌, ◌<◌, ◌^◌, ◌≡◌, refl, ap, List, [], ◌∷◌, ◌++◌, Bool, Option-cases, inl, inr,
  arith, ◌==◌, if◌then◌else◌,
}
use logi_battery.Hidpp.Message.{HidppMessage, read_raw}
use logi_battery.Hidpp.Channel.{
  Channel, PendingMessage, ok, from_raw_channel, dispatch, notify, register, unregister, remove_id,
  ReadResult, report, read_error, on_read,
}
use logi_battery.Hidpp.Channel.Dispatch.{dispatch_lem}

abbrev pub count_pending : ℕ → List PendingMessage → ℕ
count_pending i [] = 0
count_pending i (p ∷ ps) = if p.id == i then suc (count_pending i ps) else count_pending i ps

abbrev pub count_delivered : ℕ → List (ℕ × HidppMessage) → ℕ
count_delivered i [] = 0
count_delivered i ((j, msg) ∷ ds) =
    if j == i then suc (count_delivered i ds) else count_delivered i ds

abbrev pub in_flight : ℕ → Channel → ℕ
in_flight i ch = count_pending i ch.pending + count_delivered i ch.delivered

pub record Inv (ch : Channel) : Type 0 where
  pub once : (i : ℕ) → in_flight i ch ≤ 1
  pub fresh : (i : ℕ) → ch.pending_message_id ≤ i → in_flight i ch ≡ 0

pub count_pending-append :
    (i : ℕ) (ps qs : List PendingMessage)
    → count_pending i (ps ++ qs) ≡ count_pending i ps + count_pending i qs
count_pending-append i [] qs = omega arith
count_pending-append i (p ∷ ps) qs = ground (arith, count_pending-append i ps qs)

pub count_pending-remove_id :
    (i j : ℕ) (ps : List PendingMessage) → count_pending i (remove_id j ps) ≤ count_pending i ps
unfolding remove_id
count_pending-remove_id i j [] = omega arith
count_pending-remove_id i j (p ∷ ps) = ground (arith, count_pending-remove_id i j ps)

-- A request that goes away takes one entry with its id, and none with another.
pub count_pending-remove_self :
    (i : ℕ) (ps : List PendingMessage) → count_pending i (remove_id i ps) ≡ count_pending i ps - 1
unfolding remove_id
count_pending-remove_self i [] = omega arith
count_pending-remove_self i (p ∷ ps) = ground (arith, count_pending-remove_self i ps)

pub count_pending-remove_ne :
    (i j : ℕ) (ps : List PendingMessage)
    → (j ≡ i → ⊥)
    → count_pending i (remove_id j ps) ≡ count_pending i ps
unfolding remove_id
count_pending-remove_ne i j [] h = refl
count_pending-remove_ne i j (p ∷ ps) h = ground (arith, count_pending-remove_ne i j ps h)

-- A delivery turns a pending request into an answer.
pub in_flight-dispatch :
    (i : ℕ) (msg : HidppMessage) (ch : Channel) → in_flight i (dispatch msg ch) ≡ in_flight i ch
in_flight-dispatch i msg ch = elim (dispatch_lem msg ch) [
  | inl (_, e) ↦ rw e (unfold notify in refl)
  | inr (p, rest, s, e) ↦ rw e (
      unfold notify in
      ground (
        arith,
        ap (count_pending i) s.whole,
        ap (count_pending i) s.left,
        count_pending-append i s.older (p ∷ s.newer),
        count_pending-append i s.older s.newer,
      ))
]

pub in_flight-on_read :
    (i : ℕ) (r : ReadResult) (ch : Channel) → in_flight i (on_read r ch) ≡ in_flight i ch
unfolding on_read
in_flight-on_read i read_error ch = refl
in_flight-on_read i (report bytes) ch = elim (Option-cases (read_raw bytes)) [
  | inl e ↦ rw e refl
  | inr (msg, e) ↦ rw e (in_flight-dispatch i msg ch)
]

-- The id that a registration takes is in flight once more, and no other.
pub in_flight-register :
    (i : ℕ) (predicate : HidppMessage → Bool) (ch : Channel)
    → in_flight i (register predicate ch).1
      ≡ (if ch.pending_message_id == i then in_flight i ch + 1 else in_flight i ch)
unfolding register
in_flight-register i predicate ch = ground (
  arith,
  count_pending-append i ch.pending
      (record { id = ch.pending_message_id; response_predicate = predicate } ∷ []),
)

pub in_flight-unregister : (i j : ℕ) (ch : Channel) → in_flight i (unregister j ch) ≤ in_flight i ch
unfolding unregister
in_flight-unregister i j ch = omega (arith, count_pending-remove_id i j ch.pending)

-- The request counter moves with a registration only.
pub counter-dispatch :
    (msg : HidppMessage) (ch : Channel)
    → (dispatch msg ch).pending_message_id ≡ ch.pending_message_id
counter-dispatch msg ch = elim (dispatch_lem msg ch) [
  | inl (_, e) ↦ rw e (unfold notify in refl)
  | inr (p, rest, s, e) ↦ rw e (unfold notify in refl)
]

pub counter-on_read :
    (r : ReadResult) (ch : Channel) → (on_read r ch).pending_message_id ≡ ch.pending_message_id
unfolding on_read
counter-on_read read_error ch = refl
counter-on_read (report bytes) ch = elim (Option-cases (read_raw bytes)) [
  | inl e ↦ rw e refl
  | inr (msg, e) ↦ rw e (counter-dispatch msg ch)
]

pub counter-register :
    (predicate : HidppMessage → Bool) (ch : Channel)
    → ch.pending_message_id + 1 < 2 ^ 64
    → (register predicate ch).1.pending_message_id ≡ ch.pending_message_id + 1
unfolding register
counter-register predicate ch room = omega arith

pub counter-unregister :
    (j : ℕ) (ch : Channel) → (unregister j ch).pending_message_id ≡ ch.pending_message_id
unfolding unregister
counter-unregister j ch = refl

pub from_raw_channel-Inv :
    (short long : Bool) (ch : Channel) → from_raw_channel short long ≡ ok ch → Inv ch
unfolding from_raw_channel
from_raw_channel-Inv short long ch e = record {
  once = λ i. ground arith;
  fresh = λ i h. ground arith;
}

pub on_read-Inv : (r : ReadResult) (ch : Channel) → Inv ch → Inv (on_read r ch)
on_read-Inv r ch v = record {
  once = λ i. omega (arith, in_flight-on_read i r ch, v.once i);
  fresh = λ i h. omega (arith, in_flight-on_read i r ch, counter-on_read r ch, v.fresh i);
}

pub register-Inv :
    (predicate : HidppMessage → Bool) (ch : Channel)
    → ch.pending_message_id + 1 < 2 ^ 64
    → Inv ch
    → Inv (register predicate ch).1
register-Inv predicate ch room v = record {
  once = λ i. ground (arith, in_flight-register i predicate ch, v.once i, v.fresh i);
  fresh = λ i h.
      ground
        (arith, in_flight-register i predicate ch, v.fresh i, counter-register predicate ch room);
}

pub unregister-Inv : (j : ℕ) (ch : Channel) → Inv ch → Inv (unregister j ch)
unregister-Inv j ch v = record {
  once = λ i. omega (arith, in_flight-unregister i j ch, v.once i);
  fresh = λ i h. omega (arith, in_flight-unregister i j ch, counter-unregister j ch, v.fresh i);
}
