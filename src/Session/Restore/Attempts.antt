-- ===== src/Session/Restore/Attempts.antt =====
-- What an attempt to restore the controls of a capture session writes, to which channel, and when it counts.
use mathlib.Core.List.{append-nil, append_assoc}
use logi_battery.Base.{
  ℕ, suc, ◌+◌, List, [], ◌∷◌, ◌++◌, Option, none, some, Bool, true, ◌&&◌, ◌≡◌, ◌∙◌, refl, sym, ap,
  ap₂, arith, length, length-append, map,
}
use logi_battery.Session.Restore.{
  ArmedReporting, ReprogRestore, PendingCaptureRestore, Request, undivert_thumbwheel,
  reporting_request, write, restore_controls, restore_reprog, restore_thumb, restore_on,
}

-- All of some writes are answered, the first of them as the given one.
abbrev pub all_answered : (ℕ → Bool) → ℕ → List Request → Bool
all_answered answered i [] = true
all_answered answered i (w ∷ ws) = answered i && all_answered answered (suc i) ws

all_answered-append :
    (answered : ℕ → Bool) (i : ℕ) (ws vs : List Request)
    → all_answered answered i (ws ++ vs)
      ≡ (all_answered answered i ws && all_answered answered (i + length ws) vs)
all_answered-append answered i [] vs = ap (λ j. all_answered answered j vs) (omega arith)
all_answered-append answered i (w ∷ ws) vs =
    let rest = all_answered-append answered (suc i) ws vs in
    let place : suc i + length ws ≡ i + suc (length ws) = omega arith in
    ap (λ b. answered i && b)
      (rest ∙ ap (λ j. all_answered answered (suc i) ws && all_answered answered j vs) place)
    ∙ ground arith

-- A run of writes behind those before.
abbrev Extends : (ℕ → Bool) → Bool × List Request → List Request → Bool × List Request → Type 0
Extends answered st vs st' =
    (st'.0 ≡ (st.0 && all_answered answered (length st.1) vs)) × (st'.1 ≡ st.1 ++ vs)

Extends-trans :
    (answered : ℕ → Bool) (a : Bool × List Request) (us : List Request) (b : Bool × List Request)
    (vs : List Request) (c : Bool × List Request)
    → Extends answered a us b
    → Extends answered b vs c
    → Extends answered a (us ++ vs) c
Extends-trans answered a us b vs c h k =
    let place : length b.1 ≡ length a.1 + length us = ap length h.1 ∙ length-append a.1 us in
    (
      k.0
          ∙ ap₂ (λ x n. x && all_answered answered n vs) h.0 place
          ∙ ground (arith, all_answered-append answered (length a.1) us vs),
      k.1 ∙ ap (λ ws. ws ++ vs) h.1 ∙ append_assoc a.1 us vs,
    )

write-Extends :
    (answered : ℕ → Bool) (r : Request) (st : Bool × List Request)
    → Extends answered st (r ∷ []) (write answered r st)
write-Extends answered r (ok, ws) = (ground arith, refl)

restore_controls-Extends :
    (answered : ℕ → Bool) (feature : ℕ) (cs : List ArmedReporting) (st : Bool × List Request)
    → Extends answered st
        (map (reporting_request feature) cs)
        (restore_controls answered feature cs st)
unfolding restore_controls
restore_controls-Extends answered feature [] st = (ground arith, sym (append-nil st.1))
restore_controls-Extends answered feature (c ∷ cs) st =
    let once = write answered (reporting_request feature c) st in
    Extends-trans answered st (reporting_request feature c ∷ []) once
      (map (reporting_request feature) cs) _
      (write-Extends answered (reporting_request feature c) st)
      (restore_controls-Extends answered feature cs once)

-- The requests that restore what a session has diverted.
abbrev pub control_requests : Option ReprogRestore → List Request
control_requests none = []
control_requests (some reprog) = map (reporting_request reprog.feature_index) reprog.controls

abbrev pub thumb_requests : Option ℕ → List Request
thumb_requests none = []
thumb_requests (some index) = undivert_thumbwheel index ∷ []

restore_reprog-Extends :
    (answered : ℕ → Bool) (reprog : Option ReprogRestore) (st : Bool × List Request)
    → Extends answered st (control_requests reprog) (restore_reprog answered reprog st)
restore_reprog-Extends answered none st = (ground arith, sym (append-nil st.1))
restore_reprog-Extends answered (some reprog) st =
    restore_controls-Extends answered reprog.feature_index reprog.controls st

restore_thumb-Extends :
    (answered : ℕ → Bool) (index : Option ℕ) (st : Bool × List Request)
    → Extends answered st (thumb_requests index) (restore_thumb answered index st)
restore_thumb-Extends answered none st = (ground arith, sym (append-nil st.1))
restore_thumb-Extends answered (some index) st =
    write-Extends answered (undivert_thumbwheel index) st

module _ {Route Channel : Type 0} where
  abbrev pub requests_of : PendingCaptureRestore Route Channel → List Request
  requests_of token = control_requests token.reprog ++ thumb_requests token.thumb_index

  -- All requests are made, whichever of them are answered, and it counts if all are.
  pub restore_on-lem :
      (answered : ℕ → Bool) (token : PendingCaptureRestore Route Channel)
      → ((restore_on answered token).0 ≡ all_answered answered 0 (requests_of token))
        × ((restore_on answered token).1 ≡ requests_of token)
  unfolding restore_on
  restore_on-lem answered token =
      Extends-trans answered (true, []) (control_requests token.reprog)
        (restore_reprog answered token.reprog (true, [])) (thumb_requests token.thumb_index) _
        (restore_reprog-Extends answered token.reprog (true, []))
        (restore_thumb-Extends answered token.thumb_index
          (restore_reprog answered token.reprog (true, [])))
