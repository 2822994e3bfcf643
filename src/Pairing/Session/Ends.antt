-- ===== src/Pairing/Session/Ends.antt =====
-- How a session leaves the receiver, and what it tells last.
use logi_battery.Base.{ℕ, ap, ◌≡◌, ◌⊎◌, ◌∙◌, inl, inr, refl, List, [], ◌∷◌, ◌++◌, Bool-cases, All}
use logi_battery.Pairing.Session.{
  ReceiverFamily, bolt, unifying, phase_of, PairingError, register, restored, cancelled_after,
  PairingEvent, searching, paired, failed, Write, Arrival, deadline, command, notified, Session,
  Progress, going, success, failure, Receiver, send, log, notifications, open_search, cancel_write,
  on_command, on_message, on_arrival, turns, fresh, drive, run_session, run_pairing, write, then_go,
}
use logi_battery.Pairing.Session.Open.{Open, opened, IsNews, Tells, pair_writes}
use logi_battery.Pairing.Session.Turns.{IsRefused, Drives, drive-Drives}

-- The deadline is still to come.
abbrev pub IsBefore : Arrival → Type 0
IsBefore deadline = ⊥
IsBefore (command c) = Unit
IsBefore (notified m) = Unit

-- What a session that failed with `e` had written and told before, and the pairings it had asked for:
-- the receiver refused one of the first two writes, or the search was open.
abbrev pub IsBegun :
    ReceiverFamily
    → List Arrival
    → PairingError
    → List Write
    → List Write
    → List PairingEvent
    → Type 0
IsBegun family arrivals e pairs ws es =
    ((e ≡ register)
      × (pairs ≡ [])
      × (es ≡ [])
      × ((ws ≡ notifications (0 ∷ 9 ∷ 0 ∷ []) ∷ [])
          ⊎ (ws ≡ notifications (0 ∷ 9 ∷ 0 ∷ []) ∷ open_search family ∷ [])))
    ⊎ ((used : List Arrival) × (rest : List Arrival) × (news : List PairingEvent) × (arrivals
          ≡ used ++ rest)
        × (pairs ≡ pair_writes used)
        × (ws ≡ notifications (0 ∷ 9 ∷ 0 ∷ []) ∷ open_search family ∷ pairs)
        × (es ≡ searching ∷ news)
        × All IsNews news)

-- How a session stands after some arrivals.
abbrev pub Ends : ReceiverFamily → List Arrival → Progress → Type 0
Ends family arrivals (going s) = All IsBefore arrivals
Ends family arrivals (success s) =
    (used : List Arrival) × (a : Arrival) × (rest : List Arrival) × (slot : ℕ) × (news : List
      PairingEvent)
    × (arrivals ≡ used ++ (a ∷ rest))
    × Tells family a slot
    × All IsNews news
    × (s.written
        ≡ (notifications (0 ∷ 9 ∷ 0 ∷ []) ∷ open_search family ∷ pair_writes used)
          ++ notifications (0 ∷ 0 ∷ 0 ∷ []) ∷ [])
    × (s.events ≡ (searching ∷ news) ++ paired slot ∷ [])
Ends family arrivals (failure e s) =
    (pairs : List Write) × (ws : List Write) × (es : List PairingEvent) × IsBegun family arrivals e
      pairs ws es
    × (s.written
        ≡ (ws ++ cancel_write (opened family pairs) ∷ []) ++ notifications (0 ∷ 0 ∷ 0 ∷ []) ∷ [])
    × (s.events ≡ es ++ failed e ∷ [])

then_going {ℓ} :
    {P : Type ℓ} (p : Progress) (rest : Session → Progress) {t : Session}
    → ((s : Session) → rest s ≡ going t → P)
    → then_go p rest ≡ going t
    → P
then_going (going s) rest h e = h s e
then_going (success s) rest h e = cc
then_going (failure r s) rest h e = cc

turns-IsBefore :
    (family : ReceiverFamily) (accepts : Receiver) (as' : List Arrival) (s t : Session)
    → turns accepts family as' s ≡ going t
    → All IsBefore as'
unfolding turns on_arrival
turns-IsBefore family accepts [] s t e = tt
turns-IsBefore family accepts (deadline ∷ as') s t e = cc
turns-IsBefore family accepts (command c ∷ as') s t e = (
  tt,
  then_going (on_command accepts family c s) (turns accepts family as')
      (λ s'. turns-IsBefore family accepts as' s' t) e,
)
turns-IsBefore family accepts (notified m ∷ as') s t e = (
  tt,
  then_going (on_message family m s) (turns accepts family as')
      (λ s'. turns-IsBefore family accepts as' s' t) e,
)

write_going {ℓ} :
    {P : Type ℓ} (accepts : Receiver) (w : Write) (s : Session) (rest : Session → Progress)
    {t : Session}
    → ((s' : Session) → rest s' ≡ going t → P)
    → write accepts w s rest ≡ going t
    → P
write_going accepts w s rest h e = elim (Bool-cases (accepts s.written w)) [
  | inl y ↦ h (log w s) (rw y at e)
  | inr n ↦ (let f : failure register (log w s) ≡ going _ = rw n at e in cc)
]

drive-IsBefore :
    (family : ReceiverFamily) (accepts : Receiver) (arrivals : List Arrival) (s t : Session)
    → drive accepts family arrivals s ≡ going t
    → All IsBefore arrivals
unfolding drive
drive-IsBefore family accepts arrivals s t e =
    write_going accepts (notifications (0 ∷ 9 ∷ 0 ∷ [])) s
      (λ s'.
        write accepts (open_search family) s'
          (λ s''. turns accepts family arrivals (send searching s'')))
      (λ s' e'.
        write_going accepts (open_search family) s'
          (λ s''. turns accepts family arrivals (send searching s''))
          (λ s'' e''. turns-IsBefore family accepts arrivals (send searching s'') t e'') e')
      e

-- The phase of a session with no pairing asked for is that of its family.
opened-nil : (family : ReceiverFamily) → phase_of family ≡ opened family []
opened-nil bolt = refl
opened-nil unifying = refl

refused-Ends :
    (family : ReceiverFamily) (arrivals : List Arrival) (e : PairingError) (s : Session)
    → IsRefused family e s
    → Ends family arrivals (restored (cancelled_after (failure e s)))
unfolding fresh
refused-Ends family arrivals e s (r, inl w) = (
  [],
  s.written,
  s.events,
  inl (r, refl, ap (λ (t : Session). t.events) w, inl (ap (λ (t : Session). t.written) w)),
  ap (λ ph. (s.written ++ cancel_write ph ∷ []) ++ notifications (0 ∷ 0 ∷ 0 ∷ []) ∷ [])
      (ap (λ (t : Session). t.phase) w ∙ opened-nil family),
  refl,
)
refused-Ends family arrivals e s (r, inr w) = (
  [],
  s.written,
  s.events,
  inl (r, refl, ap (λ (t : Session). t.events) w, inr (ap (λ (t : Session). t.written) w)),
  ap (λ ph. (s.written ++ cancel_write ph ∷ []) ++ notifications (0 ∷ 0 ∷ 0 ∷ []) ∷ [])
      (ap (λ (t : Session). t.phase) w ∙ opened-nil family),
  refl,
)

failed-Ends :
    (family : ReceiverFamily) (arrivals used rest : List Arrival) (e : PairingError) (s : Session)
    → arrivals ≡ used ++ rest
    → Open family (pair_writes used) s
    → Ends family arrivals (restored (cancelled_after (failure e s)))
failed-Ends family arrivals used rest e s split o =
    let (news, all, told) = o.news in
    (
      pair_writes used,
      s.written,
      s.events,
      inr (used, rest, news, split, refl, o.begun, told, all),
      ap (λ ph. (s.written ++ cancel_write ph ∷ []) ++ notifications (0 ∷ 0 ∷ 0 ∷ []) ∷ [])
          o.tracks,
      refl,
    )

finish-Ends :
    (family : ReceiverFamily) (arrivals : List Arrival) (p : Progress)
    → Drives family arrivals p
    → ((t : Session) → p ≡ going t → All IsBefore arrivals)
    → Ends family arrivals (restored (cancelled_after p))
finish-Ends family arrivals (going s) d h = h s refl
finish-Ends family arrivals (success s) (used, a, rest, before, slot, split, o, e, t) h =
    let (news, all, told) = o.news in
    (
      used,
      a,
      rest,
      slot,
      news,
      split,
      t,
      all,
      ap (λ (t : Session). t.written ++ notifications (0 ∷ 0 ∷ 0 ∷ []) ∷ []) e
          ∙ ap (λ ws. ws ++ notifications (0 ∷ 0 ∷ 0 ∷ []) ∷ []) o.begun,
      ap (λ (t : Session). t.events) e ∙ ap (λ es. es ++ paired slot ∷ []) told,
    )
finish-Ends family arrivals (failure e s) (inl r) h = refused-Ends family arrivals e s r
finish-Ends family arrivals (failure e s) (inr (used, rest, split, o)) h =
    failed-Ends family arrivals used rest e s split o

-- A pairing session on an opened receiver ends at its deadline at the latest. A session that paired a
-- device has enabled the notifications, opened the search of the receiver's family, asked to pair the
-- devices chosen before, in their order, and cleared the notification flags, and has written nothing
-- else. Its first event tells that it searches, and its last tells a slot: the one that the notification
-- at which it ended names by its bytes, a pairing status of state 2 and error 0 or, in a session of a
-- Unifying receiver, a connection whose link is established. A session that failed was refused one of
-- its first two writes, or failed after some arrivals, with the devices chosen among them asked for. It
-- has then sent the cancellation of the flow that it had opened last, of the pairing if one was asked
-- for and of the search otherwise, and cleared the flags, and its last event tells the error. No session
-- tells of an end before it ends.
pub run_pairing-Ends :
    (accepts : Receiver) (family : ReceiverFamily) (arrivals : List Arrival)
    → Ends family arrivals (run_pairing accepts family arrivals)
unfolding run_pairing run_session
run_pairing-Ends accepts family arrivals =
    finish-Ends family arrivals (drive accepts family arrivals (fresh family))
      (drive-Drives family accepts arrivals)
      (λ t e. drive-IsBefore family accepts arrivals (fresh family) t e)
