-- ===== src/Hidpp/Channel/Running.antt =====
-- A request under way, and what the other threads may do without disturbing it.
use logi_battery.Base.{
  ℕ, suc, ◌+◌, ◌<◌, ◌^◌, ◌≡◌, ◌≢◌, refl, sym, ap, subst, ◌∙◌, List, [], ◌∷◌, ◌++◌, Bool, true,
  Bool-cases, Option-cases, inl, inr, arith, ◌==◌, All, IsByte, All-append,
}
use logi_battery.Hidpp.Message.{HidppMessage, read_raw, IsFrame}
use logi_battery.Hidpp.Message.RoundTrip.{read_raw-Written}
use logi_battery.Hidpp.Channel.{
  Channel, PendingMessage, dispatch, notify, register, unregister, remove_id, ReadResult, report,
  read_error, on_read, Event, received, registered, unregistered, wrote, write_failed, polled,
  elapsed,
}
use logi_battery.Hidpp.Channel.Dispatch.{dispatch_lem}
use logi_battery.Hidpp.Channel.Requests.{
  Inv, in_flight, count_pending, count_delivered, count_pending-remove_ne, in_flight-on_read,
  in_flight-register, counter-on_read, counter-register, on_read-Inv, register-Inv, unregister-Inv,
}

-- A message that may answer a request with the predicate.
abbrev pub IsAnswerTo : (HidppMessage → Bool) → HidppMessage → Type 0
IsAnswerTo predicate msg = (predicate msg ≡ true) × IsFrame msg

abbrev pub Carries : ℕ → (HidppMessage → Bool) → PendingMessage → Type 0
Carries i predicate p = p.id ≡ i → p.response_predicate ≡ predicate

abbrev pub Delivers : ℕ → (HidppMessage → Bool) → ℕ × HidppMessage → Type 0
Delivers i predicate d = d.0 ≡ i → IsAnswerTo predicate d.1

-- The request `i` is under way: it is pending or answered, and its answer is one that it accepts.
pub record Running (i : ℕ) (predicate : HidppMessage → Bool) (ch : Channel) : Type 0 where
  pub inv : Inv ch
  pub mine : in_flight i ch ≡ 1
  pub used : i < ch.pending_message_id
  pub carried : All (Carries i predicate) ch.pending
  pub answers : All (Delivers i predicate) ch.delivered

abbrev pub IsReadOfBytes : ReadResult → Type 0
IsReadOfBytes (report bytes) = All IsByte bytes
IsReadOfBytes read_error = Unit {0}

-- What the others may do while the request `i` is under way: they drop requests of their own only, and
-- the transport reports bytes.
abbrev pub IsForeign : ℕ → Event → Type 0
IsForeign i (received r) = IsReadOfBytes r
IsForeign i (unregistered j) = j ≢ i
IsForeign i (registered p) = Unit {0}
IsForeign i wrote = Unit {0}
IsForeign i write_failed = Unit {0}
IsForeign i polled = Unit {0}
IsForeign i elapsed = Unit {0}

abbrev pub registrations : List Event → ℕ
registrations [] = 0
registrations (registered p ∷ es) = suc (registrations es)
registrations (received r ∷ es) = registrations es
registrations (unregistered j ∷ es) = registrations es
registrations (wrote ∷ es) = registrations es
registrations (write_failed ∷ es) = registrations es
registrations (polled ∷ es) = registrations es
registrations (elapsed ∷ es) = registrations es

All-split {ℓ κ} :
    {A : Type ℓ} (P : A → Type κ) (xs ys : List A) → All P (xs ++ ys) → All P xs × All P ys
All-split P [] ys h = (tt, h)
All-split P (x ∷ xs) ys h = ((h.0, (All-split P xs ys h.1).0), (All-split P xs ys h.1).1)

All-remove_id :
    (P : PendingMessage → Type 0) (j : ℕ) (ps : List PendingMessage)
    → All P ps
    → All P (remove_id j ps)
unfolding remove_id
All-remove_id P j [] h = h
All-remove_id P j (p ∷ ps) h = elim (Bool-cases (p.id == j)) [
  | inl t ↦ rw t h.1
  | inr f ↦ rw f (h.0, All-remove_id P j ps h.1)
]

carried-dispatch :
    (i : ℕ) (predicate : HidppMessage → Bool) (msg : HidppMessage) (ch : Channel)
    → IsFrame msg
    → Running i predicate ch
    → All (Carries i predicate) (dispatch msg ch).pending
      × All (Delivers i predicate) (dispatch msg ch).delivered
carried-dispatch i predicate msg ch w r = elim (dispatch_lem msg ch) [
  | inl (_, e) ↦ rw e (unfold notify in (r.carried, r.answers))
  | inr (p, rest, s, e) ↦
      let whole : All (Carries i predicate) (s.older ++ (p ∷ s.newer)) =
        subst (All (Carries i predicate)) s.whole r.carried in
      let (older, here) = All-split (Carries i predicate) s.older (p ∷ s.newer) whole in
      rw e (
        unfold notify in
        (
          subst (All (Carries i predicate)) (sym s.left)
              (All-append _ s.older s.newer older here.1),
          ((λ q. (ap (λ f. f msg) (sym (here.0 q)) ∙ s.accepted, w)), r.answers),
        ))
]

carried-on_read :
    (i : ℕ) (predicate : HidppMessage → Bool) (r : ReadResult) (ch : Channel)
    → IsReadOfBytes r
    → Running i predicate ch
    → All (Carries i predicate) (on_read r ch).pending
      × All (Delivers i predicate) (on_read r ch).delivered
unfolding on_read
carried-on_read i predicate read_error ch b v = (v.carried, v.answers)
carried-on_read i predicate (report bytes) ch b v = elim (Option-cases (read_raw bytes)) [
  | inl e ↦ rw e (v.carried, v.answers)
  | inr (msg, e) ↦ rw e (carried-dispatch i predicate msg ch (read_raw-Written bytes msg b e).0 v)
]

pub on_read-Running :
    (i : ℕ) (predicate : HidppMessage → Bool) (r : ReadResult) (ch : Channel)
    → IsReadOfBytes r
    → Running i predicate ch
    → Running i predicate (on_read r ch)
on_read-Running i predicate r ch b v = record {
  inv = on_read-Inv r ch v.inv;
  mine = in_flight-on_read i r ch ∙ v.mine;
  used = omega (arith, counter-on_read r ch, v.used);
  carried = (carried-on_read i predicate r ch b v).0;
  answers = (carried-on_read i predicate r ch b v).1;
}

pub register-Running :
    (i : ℕ) (predicate other : HidppMessage → Bool) (ch : Channel)
    → ch.pending_message_id + 1 < 2 ^ 64
    → Running i predicate ch
    → Running i predicate (register other ch).1
register-Running i predicate other ch room v = record {
  inv = register-Inv other ch room v.inv;
  mine = ground (arith, in_flight-register i other ch, v.mine, v.used);
  used = omega (arith, counter-register other ch room, v.used);
  carried =
      unfold register in
      All-append _ ch.pending _ v.carried ((λ e. absurd (omega (arith, v.used, e))), tt);
  answers = unfold register in v.answers;
}

pub unregister-Running :
    (i j : ℕ) (predicate : HidppMessage → Bool) (ch : Channel)
    → j ≢ i
    → Running i predicate ch
    → Running i predicate (unregister j ch)
unfolding unregister
unregister-Running i j predicate ch n v = record {
  inv = unregister-Inv j ch v.inv;
  mine = omega (arith, count_pending-remove_ne i j ch.pending n, v.mine);
  used = v.used;
  carried = All-remove_id _ j ch.pending v.carried;
  answers = v.answers;
}

carried_fresh :
    (i : ℕ) (predicate : HidppMessage → Bool) (ps : List PendingMessage)
    → count_pending i ps ≡ 0
    → All (Carries i predicate) ps
carried_fresh i predicate [] h = tt
carried_fresh i predicate (p ∷ ps) h =
    ((λ e. absurd (ground arith)), carried_fresh i predicate ps (ground arith))

answers_fresh :
    (i : ℕ) (predicate : HidppMessage → Bool) (ds : List (ℕ × HidppMessage))
    → count_delivered i ds ≡ 0
    → All (Delivers i predicate) ds
answers_fresh i predicate [] h = tt
answers_fresh i predicate ((j, msg) ∷ ds) h =
    ((λ e. absurd (ground arith)), answers_fresh i predicate ds (ground arith))

-- The request as it starts.
pub register-starts :
    (predicate : HidppMessage → Bool) (ch : Channel)
    → ch.pending_message_id + 1 < 2 ^ 64
    → Inv ch
    → Running ch.pending_message_id predicate (register predicate ch).1
register-starts predicate ch room v = record {
  inv = register-Inv predicate ch room v;
  mine = ground (
    arith,
    in_flight-register ch.pending_message_id predicate ch,
    v.fresh ch.pending_message_id (omega arith),
  );
  used = omega (arith, counter-register predicate ch room);
  carried =
      unfold register in
      All-append _ ch.pending _
        (carried_fresh _ predicate ch.pending
          (omega (arith, v.fresh ch.pending_message_id (omega arith))))
        ((λ e. refl), tt);
  answers =
      unfold register in
      answers_fresh _ predicate ch.delivered
        (omega (arith, v.fresh ch.pending_message_id (omega arith)));
}
