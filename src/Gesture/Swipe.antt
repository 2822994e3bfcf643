-- ===== src/Gesture/Swipe.antt =====
-- crates/openlogi-core/src/binding/swipe.rs: when the travel of a held button is a swipe. An `i32` is
-- an integer, an instant is a number of milliseconds.
pub mod Classify
pub mod Holds
mod Runs
use logi_battery.Base.{
  ℕ, ◌+◌, ◌-◌, ◌/◌, Bool, true, false, not, ◌&&◌, ◌||◌, Option, none, some, ltb, leb, max,
  if◌then◌else◌,
}
use logi_battery.Base.Int.{ℤ, pos, negsuc, saturating_add, saturating_abs, saturating_mul}

pub data GestureDirection : Type 0 where
  up down left right click : GestureDirection

abbrev pub gesture_swipe_threshold : ℕ
gesture_swipe_threshold = 50

abbrev pub gesture_swipe_deadzone : ℕ
gesture_swipe_deadzone = 40

abbrev pub gesture_hold_for_swipe : ℕ
gesture_hold_for_swipe = 160

abbrev pub is_positive : ℤ → Bool
is_positive (pos n) = ltb 0 n
is_positive (negsuc n) = false

pub detect_swipe : ℤ → ℤ → Option GestureDirection
unfolding saturating_abs saturating_mul
detect_swipe dx dy =
    let abs_x = saturating_abs dx in
    let abs_y = saturating_abs dy in
    let dominant = max abs_x abs_y in
    let cross_limit = max gesture_swipe_deadzone (saturating_mul dominant 35 / 100) in
    if ltb dominant gesture_swipe_threshold
    then none
    else if ltb abs_y abs_x
    then (if ltb cross_limit abs_y then none else some (if is_positive dx then right else left))
    else if ltb cross_limit abs_x
    then none
    else some (if is_positive dy then down else up)

pub record SwipeAccumulator : Type 0 where
  pub held_since : Option ℕ
  pub dx : ℤ
  pub dy : ℤ
  pub fired : Bool

pub default : SwipeAccumulator
default = record { held_since = none; dx = pos 0; dy = pos 0; fired = false }

pub begin : ℕ → SwipeAccumulator → SwipeAccumulator
begin now acc = record acc { held_since = some now; dx = pos 0; dy = pos 0; fired = false }

pub is_holding : SwipeAccumulator → Bool
is_holding acc = elim acc.held_since [ none ↦ false | some t ↦ true ]

-- `t.elapsed() >= GESTURE_HOLD_FOR_SWIPE`; a clock that runs backwards gives no time.
pub held_long_enough : ℕ → Option ℕ → Bool
held_long_enough now none = false
held_long_enough now (some t) = leb gesture_hold_for_swipe (now - t)

-- The end of `accumulate`: the direction commits and is returned, or nothing happens.
pub commit : SwipeAccumulator → Option GestureDirection → SwipeAccumulator × Option GestureDirection
commit acc none = (acc, none)
commit acc (some dir) = (record acc { fired = true }, some dir)

pub accumulate : ℕ → ℤ → ℤ → SwipeAccumulator → SwipeAccumulator × Option GestureDirection
unfolding commit held_long_enough is_holding
accumulate now dx dy acc =
    let moved = record acc { dx = saturating_add acc.dx dx; dy = saturating_add acc.dy dy } in
    if acc.fired || not (is_holding acc)
    then (acc, none)
    else if held_long_enough now acc.held_since
    then commit moved (detect_swipe moved.dx moved.dy)
    else (moved, none)

pub end : SwipeAccumulator → SwipeAccumulator × Bool
unfolding is_holding
end acc = (record acc { held_since = none }, is_holding acc && not acc.fired)
