-- ===== src/Session/Liveness/Runs.antt =====
-- A channel that was probed twice without an answer.
use logi_battery.Base.{◌≡◌, ◌↔◌, refl, List, [], ◌∷◌}
use logi_battery.Session.Liveness.{
  all_silent, new, record_activity, conclude, take_activity, restart, ping_due, finish_ping,
}
use logi_battery.Session.Liveness.History.{
  Call, seen, checked, pinged, after, Replaces, finish_ping-Replaces,
}

abbrev calls : List Call
calls = checked 40500 7 ∷ pinged 20500 7 all_silent ∷ checked 20100 7 ∷ seen 100 7 ∷ []

finish_ping-Replaces_example :
    ((finish_ping 40600 7 all_silent (after 0 6 calls)).1 ≡ restart) ↔ Replaces 6 7 calls all_silent
unfolding finish_ping after new record_activity ping_due conclude take_activity
finish_ping-Replaces_example = finish_ping-Replaces 0 6 40600 7 calls all_silent (refl, tt)
