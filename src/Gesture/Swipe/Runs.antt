-- ===== src/Gesture/Swipe/Runs.antt =====
-- A hold that swipes to the right, and travels that do and do not.
use logi_battery.Base.{◌≡◌, List, [], ◌∷◌, none, true}
use logi_battery.Base.Int.{pos, negsuc}
use logi_battery.Gesture.Swipe.{SwipeAccumulator, begin, end}
use logi_battery.Gesture.Swipe.Holds.{Move, moves, first_swipe, to_list, is_none, hold-Reports}

-- What an accumulator may hold after a swipe.
abbrev used : SwipeAccumulator
used = record { held_since = none; dx = pos 70; dy = negsuc 3; fired = true }

-- A drift while the button is fresh, then the travel, then more of it.
abbrev drag : List Move
drag =
    record { at = 1020; mx = pos 30; my = pos 5 }
    ∷ record { at = 1300; mx = pos 40; my = negsuc 9 }
    ∷ record { at = 1310; mx = pos 90; my = pos 0 }
    ∷ []

hold-Reports_example :
    ((moves (begin 1000 used) drag).1 ≡ to_list (first_swipe 1000 (pos 0) (pos 0) drag))
    × ((end (moves (begin 1000 used) drag).0).1 ≡ is_none (first_swipe 1000 (pos 0) (pos 0) drag))
hold-Reports_example = hold-Reports 1000 used drag
