-- ===== src/Pairing/Session/Turns.antt =====
-- What a session has written and told after all its arrivals: the loop of `drive`.
use mathlib.Core.List.{append-nil, append_assoc}
use logi_battery.Base.{ℕ, ◌≡◌, ◌⊎◌, inl, inr, refl, sym, ap, subst, List, [], ◌∷◌, ◌++◌, Bool-cases}
use logi_battery.Pairing.Session.{
  ReceiverFamily, bolt, unifying, register, PairingError, searching, paired, Write, Arrival,
  Session, Progress, going, success, failure, Receiver, send, log, notifications, open_search,
  turns, fresh, drive, write, then_go,
}
use logi_battery.Pairing.Session.Open.{Open, Tells, asked, pair_writes}
use logi_battery.Pairing.Session.Steps.{Steps, on_arrival-Steps}

-- An open session, `ws` pairings later, after more arrivals: a failure comes after some of them, and a
-- success at the one that tells it.
abbrev pub Runs : ReceiverFamily → List Write → List Arrival → Progress → Type 0
Runs family ws arrivals (going s) = Open family (ws ++ pair_writes arrivals) s
Runs family ws arrivals (failure e s) =
    (used : List Arrival) × (rest : List Arrival) × (arrivals ≡ used ++ rest)
    × Open family (ws ++ pair_writes used) s
Runs family ws arrivals (success s) =
    (used : List Arrival) × (a : Arrival) × (rest : List Arrival) × (before : Session) × (slot : ℕ)
    × (arrivals ≡ used ++ (a ∷ rest))
    × Open family (ws ++ pair_writes used) before
    × (s ≡ send (paired slot) before)
    × Tells family a slot

-- The runs after one more arrival.
Runs-cons :
    (family : ReceiverFamily) (ws : List Write) (a : Arrival) (arrivals : List Arrival)
    (p : Progress)
    → Runs family (ws ++ asked a) arrivals p
    → Runs family ws (a ∷ arrivals) p
Runs-cons family ws a arrivals (going s) o =
    subst (λ vs. Open family vs s) (append_assoc ws (asked a) (pair_writes arrivals)) o
Runs-cons family ws a arrivals (failure e s) (used, rest, split, o) = (
  a ∷ used,
  rest,
  ap (λ as'. a ∷ as') split,
  subst (λ vs. Open family vs s) (append_assoc ws (asked a) (pair_writes used)) o,
)
Runs-cons family ws a arrivals (success s) (used, b, rest, before, slot, split, o, e, t) = (
  a ∷ used,
  b,
  rest,
  before,
  slot,
  ap (λ as'. a ∷ as') split,
  subst (λ vs. Open family vs before) (append_assoc ws (asked a) (pair_writes used)) o,
  e,
  t,
)

failed-Runs :
    (family : ReceiverFamily) (ws : List Write) (a : Arrival) (arrivals : List Arrival)
    (e : PairingError) (s : Session)
    → Open family ws s ⊎ Open family (ws ++ asked a) s
    → Runs family ws (a ∷ arrivals) (failure e s)
failed-Runs family ws a arrivals e s (inl o) =
    ([], a ∷ arrivals, refl, subst (λ vs. Open family vs s) (sym (append-nil ws)) o)
failed-Runs family ws a arrivals e s (inr o) = (
  a ∷ [],
  arrivals,
  refl,
  subst (λ vs. Open family vs s) (ap (λ vs. ws ++ vs) (sym (append-nil (asked a)))) o,
)

then_go-Runs :
    (family : ReceiverFamily) (ws : List Write) (a : Arrival) (arrivals : List Arrival)
    (p : Progress) (rest : Session → Progress)
    → Steps family ws (ws ++ asked a) (Tells family a) p
    → ((s : Session)
        → Open family (ws ++ asked a) s
        → Runs family (ws ++ asked a) arrivals (rest s))
    → Runs family ws (a ∷ arrivals) (then_go p rest)
then_go-Runs family ws a arrivals (going s) rest k h =
    Runs-cons family ws a arrivals (rest s) (h s k)
then_go-Runs family ws a arrivals (failure e s) rest k h = failed-Runs family ws a arrivals e s k
then_go-Runs family ws a arrivals (success s) rest (before, slot, o, e, t) h = (
  [],
  a,
  arrivals,
  before,
  slot,
  refl,
  subst (λ vs. Open family vs before) (sym (append-nil ws)) o,
  e,
  t,
)

turns-Runs :
    (family : ReceiverFamily) (accepts : Receiver) (arrivals : List Arrival) (ws : List Write)
    (s : Session)
    → Open family ws s
    → Runs family ws arrivals (turns accepts family arrivals s)
unfolding turns
turns-Runs family accepts [] ws s o = subst (λ vs. Open family vs s) (sym (append-nil ws)) o
turns-Runs family accepts (a ∷ arrivals) ws s o =
    then_go-Runs family ws a arrivals _ _ (on_arrival-Steps family accepts ws a s o)
      (λ s' o'. turns-Runs family accepts arrivals (ws ++ asked a) s' o')

-- The session once its search is open.
begun-Open :
    (family : ReceiverFamily)
    → Open family [] (
        send searching
          (log (open_search family) (log (notifications (0 ∷ 9 ∷ 0 ∷ [])) (fresh family))))
unfolding fresh
begun-Open bolt = record { tracks = refl; begun = refl; news = ([], tt, refl) }
begun-Open unifying = record { tracks = refl; begun = refl; news = ([], tt, refl) }

-- The receiver refused one of the two writes that open the search.
abbrev pub IsRefused : ReceiverFamily → PairingError → Session → Type 0
IsRefused family e s =
    (e ≡ register)
    × ((s ≡ log (notifications (0 ∷ 9 ∷ 0 ∷ [])) (fresh family))
        ⊎ (s ≡ log (open_search family) (log (notifications (0 ∷ 9 ∷ 0 ∷ [])) (fresh family))))

abbrev pub Drives : ReceiverFamily → List Arrival → Progress → Type 0
Drives family arrivals (going s) = Runs family [] arrivals (going s)
Drives family arrivals (failure e s) = IsRefused family e s ⊎ Runs family [] arrivals (failure e s)
Drives family arrivals (success s) = Runs family [] arrivals (success s)

Runs-Drives :
    (family : ReceiverFamily) (arrivals : List Arrival) (p : Progress)
    → Runs family [] arrivals p
    → Drives family arrivals p
Runs-Drives family arrivals (going s) r = r
Runs-Drives family arrivals (failure e s) r = inr r
Runs-Drives family arrivals (success s) r = r

write-Drives :
    (family : ReceiverFamily) (arrivals : List Arrival) (accepts : Receiver) (w : Write)
    (s : Session) (rest : Session → Progress)
    → IsRefused family register (log w s)
    → Drives family arrivals (rest (log w s))
    → Drives family arrivals (write accepts w s rest)
write-Drives family arrivals accepts w s rest r d = elim (Bool-cases (accepts s.written w)) [
  | inl t ↦ rw t d
  | inr f ↦ rw f (inl r)
]

pub drive-Drives :
    (family : ReceiverFamily) (accepts : Receiver) (arrivals : List Arrival)
    → Drives family arrivals (drive accepts family arrivals (fresh family))
unfolding drive
drive-Drives family accepts arrivals =
    write-Drives family arrivals accepts (notifications (0 ∷ 9 ∷ 0 ∷ [])) (fresh family)
      (λ s'.
        write accepts (open_search family) s'
          (λ s''. turns accepts family arrivals (send searching s'')))
      (refl, inl refl)
      (write-Drives family arrivals accepts (open_search family) _
        (λ s''. turns accepts family arrivals (send searching s'')) (refl, inr refl)
        (Runs-Drives family arrivals _
          (turns-Runs family accepts arrivals [] _ (begun-Open family))))
