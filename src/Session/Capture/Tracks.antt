-- ===== src/Session/Capture/Tracks.antt =====
-- What a capture session takes as held is what its reports last said.
use logi_battery.Base.{
  ℕ, List, [], ◌∷◌, ◌++◌, Option, none, some, Bool, true, false, not, ◌&&◌, ◌||◌, ◌==◌, ==_iff, ltb,
  ◌≡◌, ◌∙◌, refl, sym, ap, ap₂, arith, if◌then◌else◌, length, Bool-cases, inl, inr,
}
use logi_battery.Base.Int.{ℤ}
use logi_battery.Session.Capture.{
  ButtonId, HoldState, idle, holding, CaptureAccum, RawControlEvent, diverted_buttons, raw_xy,
  ArmedCids, contains, held_of, held_sources, held_buttons, with_source, next_hold, turn_hold,
  begin_hold, cids_of, any_in, without, after_edge, button_edges, on_buttons, moved_hold,
  handle_raw_xy, handle_reprog, default_accum, run,
}

abbrev pub is_button : List (ℕ × ButtonId) → ℕ → Bool
is_button [] c = false
is_button ((d, button) ∷ rest) c = d == c || is_button rest c

-- The hold is of a control that is held, and notes whether more than one armed source is; without one
-- no armed source is held.
abbrev pub IsHold : List ℕ → List (ℕ × ButtonId) → HoldState → Type 0
IsHold cids held idle = held ≡ []
IsHold cids held (holding cid button swipe overlap skip) =
    (contains cids cid ≡ true) × (overlap ≡ ltb 1 (length held))

-- The state stands for the controls that were last reported as held.
abbrev pub IsTracked : ArmedCids → List ℕ → CaptureAccum → Type 0
IsTracked armed cids acc =
    IsHold cids (held_of armed cids) acc.hold
    × (acc.gestures_down ≡ cids_of (held_of armed cids))
    × (acc.dpi_down ≡ any_in cids armed.dpi_cids)
    × ((c : ℕ) → contains acc.buttons_down c ≡ (is_button armed.button_cids c && contains cids c))

contains-append :
    (as' bs : List ℕ) (c : ℕ) → contains (as' ++ bs) c ≡ (contains as' c || contains bs c)
contains-append [] bs c = refl
contains-append (a ∷ as') bs c = ground (arith, contains-append as' bs c)

contains-without :
    (cid : ℕ) (cs : List ℕ) (c : ℕ)
    → contains (without cid cs) c ≡ (contains cs c && not (cid == c))
contains-without cid [] c = refl
contains-without cid (d ∷ cs) c = ground (arith, contains-without cid cs c)

same_contains : (cs : List ℕ) (a b : ℕ) → (a == b) ≡ true → contains cs a ≡ contains cs b
same_contains cs a b e = ap (contains cs) ((==_iff a b).0 e)

contains-after_edge :
    (now was : Bool) (cid : ℕ) (down : List ℕ) (c : ℕ)
    → contains down cid ≡ was
    → contains (after_edge now was cid down) c ≡ (if cid == c then now else contains down c)
contains-after_edge true false cid down c e =
    contains-append down (cid ∷ []) c ∙ ground (arith, same_contains down cid c)
contains-after_edge false true cid down c e =
    contains-without cid down c ∙ ground (arith, same_contains down cid c)
contains-after_edge true true cid down c e = ground (arith, same_contains down cid c)
contains-after_edge false false cid down c e = ground (arith, same_contains down cid c)

contains-button_edges :
    (cids : List ℕ) (button_cids : List (ℕ × ButtonId)) (down : List ℕ) (c : ℕ)
    → contains (button_edges cids button_cids down).0 c
      ≡ (if is_button button_cids c then contains cids c else contains down c)
unfolding button_edges
contains-button_edges cids [] down c = refl
contains-button_edges cids ((cid, button) ∷ button_cids) down c =
    contains-button_edges cids button_cids
      (after_edge (contains cids cid) (contains down cid) cid down) c
    ∙ ground (
      arith,
      contains-after_edge (contains cids cid) (contains down cid) cid down c refl,
      same_contains cids cid c,
    )

-- A source that is held is among the controls that are.
IsHeld : List ℕ → List (ℕ × ButtonId) → Type 0
IsHeld cids held = (c : ℕ) → contains (cids_of held) c ≡ true → contains cids c ≡ true

cons-IsHeld :
    (cids : List ℕ) (d : ℕ) (button : ButtonId) (held : List (ℕ × ButtonId))
    → contains cids d ≡ true
    → IsHeld cids held
    → IsHeld cids ((d, button) ∷ held)
unfolding IsHeld
cons-IsHeld cids d button held k h c e = ground (arith, same_contains cids d c, h c)

with_source-IsHeld :
    (cids : List ℕ) (d : ℕ) (o : Option ButtonId) (held : List (ℕ × ButtonId))
    → contains cids d ≡ true
    → IsHeld cids held
    → IsHeld cids (with_source d o held)
with_source-IsHeld cids d none held k h = h
with_source-IsHeld cids d (some button) held k h = cons-IsHeld cids d button held k h

nil-IsHeld : (cids : List ℕ) → IsHeld cids []
unfolding IsHeld
nil-IsHeld cids c e = cc

held_sources-IsHeld : (cids gesture_cids : List ℕ) → IsHeld cids (held_sources cids gesture_cids)
held_sources-IsHeld cids [] = nil-IsHeld cids
held_sources-IsHeld cids (d ∷ gesture_cids) = elim (Bool-cases (contains cids d)) [
  | inl t ↦ rw t (with_source-IsHeld cids d _ _ t (held_sources-IsHeld cids gesture_cids))
  | inr n ↦ rw n (held_sources-IsHeld cids gesture_cids)
]

held_buttons-IsHeld :
    (cids : List ℕ) (buttons : List (ℕ × ButtonId)) → IsHeld cids (held_buttons cids buttons)
held_buttons-IsHeld cids [] = nil-IsHeld cids
held_buttons-IsHeld cids ((d, button) ∷ buttons) = elim (Bool-cases (contains cids d)) [
  | inl t ↦ rw t (cons-IsHeld cids d button _ t (held_buttons-IsHeld cids buttons))
  | inr n ↦ rw n (held_buttons-IsHeld cids buttons)
]

cids_of-append : (as' bs : List (ℕ × ButtonId)) → cids_of (as' ++ bs) ≡ cids_of as' ++ cids_of bs
cids_of-append [] bs = refl
cids_of-append ((c, button) ∷ as') bs = ap (◌∷◌ c) (cids_of-append as' bs)

held_of-IsHeld : (armed : ArmedCids) (cids : List ℕ) → IsHeld cids (held_of armed cids)
unfolding held_of IsHeld
held_of-IsHeld armed cids c e =
    let parts =
      sym (
        ap (λ cs. contains cs c)
          (cids_of-append (held_sources cids armed.gesture_cids)
            (held_buttons cids armed.gesture_button_cids))
        ∙ contains-append (cids_of (held_sources cids armed.gesture_cids))
            (cids_of (held_buttons cids armed.gesture_button_cids)) c)
      ∙ e in
    ground (
      arith,
      parts,
      held_sources-IsHeld cids armed.gesture_cids c,
      held_buttons-IsHeld cids armed.gesture_button_cids c,
    )

next_hold-IsHold :
    (now : ℕ) (cids down : List ℕ) (held : List (ℕ × ButtonId))
    → IsHeld cids held
    → IsHold cids held (next_hold now down held)
unfolding begin_hold IsHeld
next_hold-IsHold now cids down [] h = refl
next_hold-IsHold now cids down ((cid, button) ∷ held) h =
    (h cid (ground (arith, ==_iff cid cid)), refl)

turn_hold-IsHold :
    (now : ℕ) (cids down : List ℕ) (held : List (ℕ × ButtonId)) (hold : HoldState)
    → IsHeld cids held
    → IsHold cids held (turn_hold now cids held down hold).0
unfolding turn_hold
turn_hold-IsHold now cids down held idle h = next_hold-IsHold now cids down held h
turn_hold-IsHold now cids down held (holding cid button swipe overlap skip) h =
    elim (Bool-cases (contains cids cid)) [
      | inl t ↦ rw t (t, refl)
      | inr n ↦ rw n (next_hold-IsHold now cids down held h)
    ]

on_buttons-IsTracked :
    (armed : ArmedCids) (now : ℕ) (old cids : List ℕ) (acc : CaptureAccum)
    → IsTracked armed old acc
    → IsTracked armed cids (on_buttons armed now cids acc).0
unfolding on_buttons
on_buttons-IsTracked armed now old cids acc w = (
  turn_hold-IsHold now cids acc.gestures_down (held_of armed cids) acc.hold
      (held_of-IsHeld armed cids),
  refl,
  refl,
  λ c. contains-button_edges cids armed.button_cids acc.buttons_down c ∙ ground (arith, w.3 c),
)

moved_hold-IsHold :
    (now : ℕ) (dx dy : ℤ) (cids : List ℕ) (held : List (ℕ × ButtonId)) (hold : HoldState)
    → IsHold cids held hold
    → IsHold cids held (moved_hold now dx dy hold).0
moved_hold-IsHold now dx dy cids held idle w = w
moved_hold-IsHold now dx dy cids held (holding cid button swipe true skip) w = w
moved_hold-IsHold now dx dy cids held (holding cid button swipe false true) w = w
moved_hold-IsHold now dx dy cids held (holding cid button swipe false false) w = w

-- The controls of the last report of buttons.
abbrev pub last_cids : List ℕ → List (ℕ × RawControlEvent) → List ℕ
last_cids cids [] = cids
last_cids cids ((now, diverted_buttons later) ∷ events) = last_cids later events
last_cids cids ((now, raw_xy dx dy) ∷ events) = last_cids cids events

run-IsTracked_from :
    (armed : ArmedCids) (cids : List ℕ) (events : List (ℕ × RawControlEvent)) (acc : CaptureAccum)
    → IsTracked armed cids acc
    → IsTracked armed (last_cids cids events) (run armed events acc).0
unfolding run handle_reprog handle_raw_xy
run-IsTracked_from armed cids [] acc w = w
run-IsTracked_from armed cids ((now, diverted_buttons later) ∷ events) acc w =
    run-IsTracked_from armed later events _ (on_buttons-IsTracked armed now cids later acc w)
run-IsTracked_from armed cids ((now, raw_xy dx dy) ∷ events) acc w =
    run-IsTracked_from armed cids events _
      (moved_hold-IsHold now dx dy cids (held_of armed cids) acc.hold w.0, w.1, w.2, w.3)

none_held : (armed : ArmedCids) → held_of armed [] ≡ []
unfolding held_of
none_held armed = ap₂ (◌++◌) (sources armed.gesture_cids) (buttons armed.gesture_button_cids)
  where
    sources : (cs : List ℕ) → held_sources [] cs ≡ []
    sources [] = refl
    sources (c ∷ cs) = sources cs

    buttons : (bs : List (ℕ × ButtonId)) → held_buttons [] bs ≡ []
    buttons [] = refl
    buttons ((c, button) ∷ bs) = buttons bs

any_in-nil : (cs : List ℕ) → any_in [] cs ≡ false
any_in-nil [] = refl
any_in-nil (c ∷ cs) = any_in-nil cs

-- After any reports, a capture session stands for the controls that the last report of buttons said are
-- held: a hold is of one of them, and there is none only if no armed gesture source is among them; the
-- gesture sources and standard buttons that it takes as down are the armed ones among them; and so for
-- the DPI controls. Whether motion is dropped for a second source is whether two armed sources are held.
pub run-IsTracked :
    (armed : ArmedCids) (events : List (ℕ × RawControlEvent))
    → IsTracked armed (last_cids [] events) (run armed events default_accum).0
run-IsTracked armed events = run-IsTracked_from armed [] events default_accum (
  none_held armed,
  sym (ap cids_of (none_held armed)),
  sym (any_in-nil armed.dpi_cids),
  (λ c. ground arith),
)
