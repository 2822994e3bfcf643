-- ===== src/Gesture/Swipe/Classify.antt =====
-- Exactly which travel is a swipe, and in which direction.
use logi_battery.Base.{ℕ, ◌*◌, ◌/◌, ◌≤◌, ◌≡◌, ◌↔◌, some, max, min, arith}
use logi_battery.Base.Int.{ℤ, pos, negsuc, pos_part, neg_part, IsI32, i32_max, saturating_abs}
use logi_battery.Gesture.Swipe.{GestureDirection, up, down, left, right, click, detect_swipe}

-- The travel towards a direction and the travel off it, to either side.
abbrev pub along : GestureDirection → ℤ → ℤ → ℕ
along right dx dy = pos_part dx
along left dx dy = neg_part dx
along down dx dy = pos_part dy
along up dx dy = neg_part dy
along click dx dy = 0

abbrev pub across : GestureDirection → ℤ → ℤ → ℕ
across right dx dy = saturating_abs dy
across left dx dy = saturating_abs dy
across down dx dy = saturating_abs dx
across up dx dy = saturating_abs dx
across click dx dy = 0

-- Long enough, and straight enough: the travel off the direction is within 40 units or 35 percent.
abbrev pub IsSwipe : GestureDirection → ℤ → ℤ → Type 0
IsSwipe d dx dy =
    (50 ≤ along d dx dy)
    × (across d dx dy ≤ max 40 (min (min (along d dx dy) i32_max * 35) i32_max / 100))

-- A travel is a swipe in a direction exactly if it goes at least 50 units that way and its travel off
-- that way is within the larger of 40 units and 35 percent of it, which saturates with the `i32`. No
-- travel is a click.
pub detect_swipe-IsSwipe :
    (dx dy : ℤ) (d : GestureDirection)
    → IsI32 dx
    → IsI32 dy
    → (detect_swipe dx dy ≡ some d) ↔ IsSwipe d dx dy
unfolding detect_swipe saturating_abs
detect_swipe-IsSwipe (pos x) (pos y) right hx hy = ground arith
detect_swipe-IsSwipe (pos x) (pos y) left hx hy = ground arith
detect_swipe-IsSwipe (pos x) (pos y) up hx hy = ground arith
detect_swipe-IsSwipe (pos x) (pos y) down hx hy = ground arith
detect_swipe-IsSwipe (pos x) (pos y) click hx hy = ground arith
detect_swipe-IsSwipe (pos x) (negsuc y) right hx hy = ground arith
detect_swipe-IsSwipe (pos x) (negsuc y) left hx hy = ground arith
detect_swipe-IsSwipe (pos x) (negsuc y) up hx hy = ground arith
detect_swipe-IsSwipe (pos x) (negsuc y) down hx hy = ground arith
detect_swipe-IsSwipe (pos x) (negsuc y) click hx hy = ground arith
detect_swipe-IsSwipe (negsuc x) (pos y) right hx hy = ground arith
detect_swipe-IsSwipe (negsuc x) (pos y) left hx hy = ground arith
detect_swipe-IsSwipe (negsuc x) (pos y) up hx hy = ground arith
detect_swipe-IsSwipe (negsuc x) (pos y) down hx hy = ground arith
detect_swipe-IsSwipe (negsuc x) (pos y) click hx hy = ground arith
detect_swipe-IsSwipe (negsuc x) (negsuc y) right hx hy = ground arith
detect_swipe-IsSwipe (negsuc x) (negsuc y) left hx hy = ground arith
detect_swipe-IsSwipe (negsuc x) (negsuc y) up hx hy = ground arith
detect_swipe-IsSwipe (negsuc x) (negsuc y) down hx hy = ground arith
detect_swipe-IsSwipe (negsuc x) (negsuc y) click hx hy = ground arith
