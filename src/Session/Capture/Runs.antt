-- ===== src/Session/Capture/Runs.antt =====
-- The gesture button is pressed and moved, and a side button is pressed too.
use logi_battery.Base.{ℕ, List, [], ◌∷◌}
use logi_battery.Base.Int.{pos}
use logi_battery.Session.Capture.{
  ArmedCids, RawControlEvent, diverted_buttons, raw_xy, back, gesture_button_cid, default_accum,
  run,
}
use logi_battery.Session.Capture.Tracks.{IsTracked, last_cids, run-IsTracked}

abbrev armed : ArmedCids
armed = record {
  gesture_cids = gesture_button_cid ∷ [];
  dpi_cids = 0xfd ∷ [];
  gesture_button_cids = [];
  button_cids = (0x53, back) ∷ [];
}

abbrev reports : List (ℕ × RawControlEvent)
reports =
    (0, diverted_buttons (gesture_button_cid ∷ 0 ∷ 0 ∷ 0 ∷ []))
    ∷ (200, raw_xy (pos 90) (pos 3))
    ∷ (300, diverted_buttons (gesture_button_cid ∷ 0x53 ∷ 0 ∷ 0 ∷ []))
    ∷ []

run-IsTracked_example : IsTracked armed (last_cids [] reports) (run armed reports default_accum).0
run-IsTracked_example = run-IsTracked armed reports
