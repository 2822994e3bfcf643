-- ===== src/Gesture/Swipe/Holds.antt =====
-- One hold of the button: what its moves and its release report together.
use logi_battery.Base.{
  ℕ, ◌-◌, ◌≡◌, refl, ap, Bool, true, false, Option, none, some, List, [], ◌∷◌, ◌++◌, or_else, leb,
  if◌then◌else◌,
}
use logi_battery.Base.Int.{ℤ, pos, saturating_add}
use logi_battery.Gesture.Swipe.{
  GestureDirection, SwipeAccumulator, begin, is_holding, held_long_enough, commit, accumulate, end,
  detect_swipe,
}

-- A move at a time, with its travel.
pub record Move : Type 0 where
  pub at : ℕ
  pub mx : ℤ
  pub my : ℤ

abbrev pub to_list {ℓ} : {A : Type ℓ} → Option A → List A
to_list none = []
to_list (some a) = a ∷ []

abbrev pub is_none {ℓ} : {A : Type ℓ} → Option A → Bool
is_none none = true
is_none (some a) = false

-- The moves of a hold, in order, and what they fired.
pub moves : SwipeAccumulator → List Move → SwipeAccumulator × List GestureDirection
moves acc [] = (acc, [])
moves acc (m ∷ ms) =
    let step = accumulate m.at m.mx m.my acc in
    let rest = moves step.0 ms in (rest.0, to_list step.1 ++ rest.1)

-- The first swipe among the moves of a hold since t0, from a travel: that of the first move which
-- comes at 160 ms or later with a total travel that is a swipe.
pub first_swipe : ℕ → ℤ → ℤ → List Move → Option GestureDirection
first_swipe t0 x y [] = none
first_swipe t0 x y (m ∷ ms) =
    let x' = saturating_add x m.mx in
    let y' = saturating_add y m.my in
    let rest = first_swipe t0 x' y' ms in
    if leb 160 (m.at - t0) then or_else (detect_swipe x' y') rest else rest

held : ℕ → ℤ → ℤ → Bool → SwipeAccumulator
held t0 x y f = record { held_since = some t0; dx = x; dy = y; fired = f }

moves_fired :
    (t0 : ℕ) (x y : ℤ) (ms : List Move) → moves (held t0 x y true) ms ≡ (held t0 x y true, [])
unfolding moves accumulate held
moves_fired t0 x y [] = refl
moves_fired t0 x y (m ∷ ms) = moves_fired t0 x y ms

Reports : ℕ → ℤ → ℤ → List Move → Type 0
Reports t0 x y ms =
    ((moves (held t0 x y false) ms).1 ≡ to_list (first_swipe t0 x y ms))
    × ((end (moves (held t0 x y false) ms).0).1 ≡ is_none (first_swipe t0 x y ms))

-- What a move leaves to show, when its direction commits or when none does.
after-Reports :
    (t0 : ℕ) (x y : ℤ) (ms : List Move) (b : Bool) (o : Option GestureDirection)
    → Reports t0 x y ms
    → let acc = held t0 x y false in
      let step = if b then commit acc o else (acc, none) in
      let rest = moves step.0 ms in
      let first = first_swipe t0 x y ms in
      let found = if b then or_else o first else first in
      (to_list step.1 ++ rest.1 ≡ to_list found) × ((end rest.0).1 ≡ is_none found)
unfolding commit Reports held end is_holding
after-Reports t0 x y ms false o r = r
after-Reports t0 x y ms true none r = r
after-Reports t0 x y ms true (some d) r =
    let e = moves_fired t0 x y ms in (ap (λ h. d ∷ h.1) e, ap (λ h. (end h.0).1) e)

held-Reports : (t0 : ℕ) (x y : ℤ) (ms : List Move) → Reports t0 x y ms
unfolding moves first_swipe accumulate held end is_holding commit held_long_enough Reports
held-Reports t0 x y [] = (refl, refl)
held-Reports t0 x y (m ∷ ms) =
    after-Reports t0 (saturating_add x m.mx) (saturating_add y m.my) ms (leb 160 (m.at - t0))
      (detect_swipe (saturating_add x m.mx) (saturating_add y m.my))
      (held-Reports t0 (saturating_add x m.mx) (saturating_add y m.my) ms)

-- A hold reports one thing. The moves after `begin` fire the first swipe among them, which takes a move
-- 160 ms or more after the hold began, and nothing else; and the release that ends the hold reports
-- a click exactly if no move fired. What the accumulator held before plays no part.
pub hold-Reports :
    (t0 : ℕ) (acc : SwipeAccumulator) (ms : List Move)
    → let hold = moves (begin t0 acc) ms in
      let first = first_swipe t0 (pos 0) (pos 0) ms in
      (hold.1 ≡ to_list first) × ((end hold.0).1 ≡ is_none first)
unfolding begin held Reports
hold-Reports t0 acc ms = held-Reports t0 (pos 0) (pos 0) ms
