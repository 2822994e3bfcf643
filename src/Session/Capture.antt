-- ===== src/Session/Capture.antt =====
-- The handler of reports of crates/openlogi-device/src/session/gesture.rs: presses and releases of the
-- diverted controls, and the hold that owns the motion. Each event comes with its time.
pub mod Tracks
mod Runs
use logi_battery.Base.{
  ℕ, List, [], ◌∷◌, ◌++◌, Option, none, some, Bool, true, false, not, ◌&&◌, ◌||◌, ◌==◌, ltb,
  if◌then◌else◌, or_else, length,
}
use logi_battery.Base.Int.{ℤ}
use logi_battery.Gesture.Swipe.{
  GestureDirection, click, SwipeAccumulator, default, begin, end, accumulate,
}

pub data ButtonId : Type 0 where
  left_click right_click middle_click back forward dpi_toggle thumbwheel : ButtonId
  thumbwheel_scroll_up thumbwheel_scroll_down gesture_button key_search : ButtonId
  key_dictation key_emoji key_screen_capture key_mic_mute key_play_pause : ButtonId
  key_mute key_volume_down key_volume_up haptic_panel wheel_tilt_left : ButtonId
  wheel_tilt_right : ButtonId

-- Of a scroll, the increments and the two resolutions.
pub data CapturedInput : Type 0 where
  gesture : ButtonId → GestureDirection → CapturedInput
  button_down button_up button_pulse : ButtonId → CapturedInput
  scroll : ℤ → ℕ → ℕ → CapturedInput
  thumbwheel_direction : Bool → CapturedInput

-- The holder, its button, its swipe, whether another source is held too, and whether the next sample is
-- dropped.
pub data HoldState : Type 0 where
  idle : HoldState
  holding : ℕ → ButtonId → SwipeAccumulator → Bool → Bool → HoldState

pub record CaptureAccum : Type 0 where
  pub hold : HoldState
  pub gestures_down : List ℕ
  pub dpi_down : Bool
  pub buttons_down : List ℕ

pub data RawControlEvent : Type 0 where
  diverted_buttons : List ℕ → RawControlEvent
  raw_xy : ℤ → ℤ → RawControlEvent

-- The controls that a session has armed.
pub record ArmedCids : Type 0 where
  pub gesture_cids : List ℕ
  pub dpi_cids : List ℕ
  pub gesture_button_cids : List (ℕ × ButtonId)
  pub button_cids : List (ℕ × ButtonId)

abbrev pub contains : List ℕ → ℕ → Bool
contains [] c = false
contains (d ∷ ds) c = d == c || contains ds c

abbrev pub find_button : List (ℕ × ButtonId) → ℕ → Option ButtonId
find_button [] c = none
find_button ((d, button) ∷ rest) c = if d == c then some button else find_button rest c

abbrev pub gesture_button_cid : ℕ
gesture_button_cid = 0xc3

abbrev pub haptic_panel_cid : ℕ
haptic_panel_cid = 0x1a0

abbrev gesture_source_buttons : List (ℕ × ButtonId)
gesture_source_buttons =
    (gesture_button_cid, gesture_button) ∷ (haptic_panel_cid, haptic_panel) ∷ []

pub gesture_source_button : ℕ → Option ButtonId
gesture_source_button cid = find_button gesture_source_buttons cid

pub captured_gesture_button : ℕ → List (ℕ × ButtonId) → Option ButtonId
unfolding gesture_source_button
captured_gesture_button cid gesture_button_cids =
    or_else (gesture_source_button cid) (find_button gesture_button_cids cid)

abbrev pub with_source : ℕ → Option ButtonId → List (ℕ × ButtonId) → List (ℕ × ButtonId)
with_source cid none rest = rest
with_source cid (some button) rest = (cid, button) ∷ rest

abbrev pub held_sources : List ℕ → List ℕ → List (ℕ × ButtonId)
held_sources cids [] = []
held_sources cids (cid ∷ gesture_cids) =
    let rest = held_sources cids gesture_cids in
    if contains cids cid then with_source cid (gesture_source_button cid) rest else rest

abbrev pub held_buttons : List ℕ → List (ℕ × ButtonId) → List (ℕ × ButtonId)
held_buttons cids [] = []
held_buttons cids ((cid, button) ∷ buttons) =
    let rest = held_buttons cids buttons in if contains cids cid then (cid, button) ∷ rest else rest

-- The armed sources that are held.
pub held_of : ArmedCids → List ℕ → List (ℕ × ButtonId)
held_of armed cids =
    held_sources cids armed.gesture_cids ++ held_buttons cids armed.gesture_button_cids

pub begin_hold : ℕ → ℕ → ButtonId → Bool → Bool → HoldState
begin_hold now cid button overlap skip_first_raw_xy =
    holding cid button (begin now default) overlap skip_first_raw_xy

-- The first source that is still held begins a hold.
abbrev pub next_hold : ℕ → List ℕ → List (ℕ × ButtonId) → HoldState
next_hold now gestures_down [] = idle
next_hold now gestures_down ((cid, button) ∷ held) =
    begin_hold now cid button (ltb 1 (length ((cid, button) ∷ held)))
      (cid == haptic_panel_cid && not (contains gestures_down cid))

abbrev pub clicked : ButtonId → Bool → List CapturedInput
clicked button true = gesture button click ∷ []
clicked button false = []

-- The hold after an event of buttons, and the click of one that was released.
pub turn_hold :
    ℕ → List ℕ → List (ℕ × ButtonId) → List ℕ → HoldState → HoldState × List CapturedInput
unfolding begin_hold
turn_hold now cids held gestures_down idle = (next_hold now gestures_down held, [])
turn_hold now cids held gestures_down (holding cid button swipe overlap skip) =
    if contains cids cid
    then (holding cid button swipe (ltb 1 (length held)) skip, [])
    else (next_hold now gestures_down held, clicked button (end swipe).1)

abbrev pub cids_of : List (ℕ × ButtonId) → List ℕ
cids_of [] = []
cids_of ((cid, button) ∷ held) = cid ∷ cids_of held

abbrev released : Option ButtonId → List CapturedInput
released none = []
released (some button) = button_up button ∷ []

abbrev gesture_ups : List (ℕ × ButtonId) → List (ℕ × ButtonId) → List ℕ → List CapturedInput
gesture_ups gesture_button_cids held [] = []
gesture_ups gesture_button_cids held (cid ∷ down) =
    (if contains (cids_of held) cid
      then []
      else released (captured_gesture_button cid gesture_button_cids))
    ++ gesture_ups gesture_button_cids held down

abbrev gesture_downs : List ℕ → List (ℕ × ButtonId) → List CapturedInput
gesture_downs down [] = []
gesture_downs down ((cid, button) ∷ held) =
    (if contains down cid then [] else button_down button ∷ []) ++ gesture_downs down held

abbrev pub any_in : List ℕ → List ℕ → Bool
any_in cids [] = false
any_in cids (cid ∷ dpi_cids) = contains cids cid || any_in cids dpi_cids

abbrev edge : Bool → Bool → ButtonId → List CapturedInput
edge true false button = button_down button ∷ []
edge false true button = button_up button ∷ []
edge true true button = []
edge false false button = []

-- `retain(|&c| c != cid)`
abbrev pub without : ℕ → List ℕ → List ℕ
without cid [] = []
without cid (c ∷ cs) = let rest = without cid cs in if c == cid then rest else c ∷ rest

abbrev pub after_edge : Bool → Bool → ℕ → List ℕ → List ℕ
after_edge true false cid down = down ++ (cid ∷ [])
after_edge false true cid down = without cid down
after_edge true true cid down = down
after_edge false false cid down = down

-- The loop over the standard buttons.
pub button_edges : List ℕ → List (ℕ × ButtonId) → List ℕ → List ℕ × List CapturedInput
button_edges cids [] down = (down, [])
button_edges cids ((cid, button) ∷ button_cids) down =
    let rest =
      button_edges cids button_cids (after_edge (contains cids cid) (contains down cid) cid down) in
    (rest.0, edge (contains cids cid) (contains down cid) button ++ rest.1)

pub on_buttons : ArmedCids → ℕ → List ℕ → CaptureAccum → CaptureAccum × List CapturedInput
unfolding turn_hold button_edges held_of captured_gesture_button
on_buttons armed now cids acc =
    let held = held_of armed cids in
    let turned = turn_hold now cids held acc.gestures_down acc.hold in
    let dpi = any_in cids armed.dpi_cids in
    let buttons = button_edges cids armed.button_cids acc.buttons_down in
    (
      record {
        hold = turned.0;
        gestures_down = cids_of held;
        dpi_down = dpi;
        buttons_down = buttons.0;
      },
      turned.1
          ++ (gesture_ups armed.gesture_button_cids held acc.gestures_down
              ++ (gesture_downs acc.gestures_down held
                  ++ (edge dpi acc.dpi_down dpi_toggle ++ buttons.1))),
    )

abbrev pub committed : ButtonId → Option GestureDirection → List CapturedInput
committed button none = []
committed button (some direction) = gesture button direction ∷ []

abbrev pub moved_hold : ℕ → ℤ → ℤ → HoldState → HoldState × List CapturedInput
moved_hold now dx dy idle = (idle, [])
moved_hold now dx dy (holding cid button swipe overlap skip) =
    let r = accumulate now dx dy swipe in
    if overlap
    then (holding cid button swipe overlap skip, [])
    else if skip
    then (holding cid button swipe overlap false, [])
    else (holding cid button r.0 overlap skip, committed button r.1)

pub handle_raw_xy : ℕ → ℤ → ℤ → CaptureAccum → CaptureAccum × List CapturedInput
handle_raw_xy now dx dy acc =
    let r = moved_hold now dx dy acc.hold in (record acc { hold = r.0 }, r.1)

-- `handle_reprog_with_gesture_buttons`
pub handle_reprog :
    ArmedCids → ℕ → RawControlEvent → CaptureAccum → CaptureAccum × List CapturedInput
unfolding on_buttons handle_raw_xy
handle_reprog armed now (diverted_buttons cids) acc = on_buttons armed now cids acc
handle_reprog armed now (raw_xy dx dy) acc = handle_raw_xy now dx dy acc

abbrev pub default_accum : CaptureAccum
default_accum = record { hold = idle; gestures_down = []; dpi_down = false; buttons_down = [] }

-- The reports of a session, in their order, with their times.
pub run : ArmedCids → List (ℕ × RawControlEvent) → CaptureAccum → CaptureAccum × List CapturedInput
unfolding handle_reprog
run armed [] acc = (acc, [])
run armed ((now, event) ∷ events) acc =
    let turn = handle_reprog armed now event acc in
    let rest = run armed events turn.0 in (rest.0, turn.1 ++ rest.1)
