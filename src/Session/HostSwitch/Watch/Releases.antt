-- ===== src/Session/HostSwitch/Watch/Releases.antt =====
-- A host switch session writes back the flags that it changed on the keyboard.
use logi_battery.Base.{ℕ, List, [], ◌∷◌, Option, none, some, Bool, true, false, ◌≡◌, refl, All}
use logi_battery.Session.HostSwitch.{Result, ok, err}
use logi_battery.Session.HostSwitch.Reporting.{ArmedControl, event_host}
use logi_battery.Session.HostSwitch.Controls.{Keyboard, Write, arm_host_controls}
use logi_battery.Session.HostSwitch.Controls.Armed.{IsRead, arming_writes}
use logi_battery.Session.HostSwitch.Controls.WrittenBack.{
  IsWrittenBack, IsArmed, arm_host_controls-IsArmed, restore-IsWrittenBack,
}
use logi_battery.Session.HostSwitch.Watch.{
  Arrival, event, stop, is_graceful, on_host, outcome, released, watched, with_feature, with_device,
  with_channel, run_host_switch_session,
}

-- A session that has ended has written back; one that goes on has no result.
abbrev pub IsReleased : Keyboard → Option (Result (Option ℕ) × List Write) → Type 0
IsReleased kb none = Unit
IsReleased kb (some (result, ws)) = IsWrittenBack kb ws

-- What arrives is not the stop of a session whose keyboard is lost.
abbrev pub IsReachable : Arrival → Type 0
IsReachable (event e) = Unit
IsReachable (stop reason) = is_graceful reason ≡ true

abbrev IsThere : Option (Option ℕ × Bool) → Type 0
IsThere none = Unit
IsThere (some (host, there)) = there ≡ true

on_host-IsThere :
    (host : Option ℕ) (rest : Option (Option ℕ × Bool)) → IsThere rest → IsThere (on_host host rest)
on_host-IsThere none rest w = w
on_host-IsThere (some host) rest w = refl

outcome-IsThere :
    (armed : List ArmedControl) (arrivals : List Arrival)
    → All IsReachable arrivals
    → IsThere (outcome armed arrivals)
unfolding outcome
outcome-IsThere armed [] w = tt
outcome-IsThere armed (event e ∷ arrivals) w =
    on_host-IsThere (event_host armed e) (outcome armed arrivals)
      (outcome-IsThere armed arrivals w.1)
outcome-IsThere armed (stop reason ∷ arrivals) w = w.0

released-IsReleased :
    (kb : Keyboard) (armed : List ArmedControl) (ws : List Write) (o : Option (Option ℕ × Bool))
    → (ws ≡ arming_writes armed) × All (IsRead kb) armed
    → IsThere o
    → IsReleased kb (released kb armed ws true o)
released-IsReleased kb armed ws none e w = tt
released-IsReleased kb armed ws (some (host, true)) e w = restore-IsWrittenBack kb armed ws e
released-IsReleased kb armed ws (some (host, false)) e w = cc

watched-IsReleased :
    (kb : Keyboard) (arrivals : List Arrival) (r : Result (List ArmedControl) × List Write)
    → All IsReachable arrivals
    → IsArmed kb r.0 r.1
    → IsReleased kb (watched kb true arrivals r)
watched-IsReleased kb arrivals (err e, ws) w a = a
watched-IsReleased kb arrivals (ok [], ws) w a = ([], [], tt, a.0, refl)
watched-IsReleased kb arrivals (ok (c ∷ cs), ws) w a =
    released-IsReleased kb (c ∷ cs) ws _ a (outcome-IsThere (c ∷ cs) arrivals w)

nothing-IsWrittenBack : (kb : Keyboard) → IsWrittenBack kb []
nothing-IsWrittenBack kb = ([], [], tt, refl, refl)

with_feature-IsReleased :
    (kb : Keyboard) (arrivals : List Arrival) (r : Result (Option ℕ))
    → All IsReachable arrivals
    → IsReleased kb (with_feature kb true arrivals r)
with_feature-IsReleased kb arrivals (err e) w = nothing-IsWrittenBack kb
with_feature-IsReleased kb arrivals (ok none) w = nothing-IsWrittenBack kb
with_feature-IsReleased kb arrivals (ok (some index)) w =
    watched-IsReleased kb arrivals (arm_host_controls kb) w (arm_host_controls-IsArmed kb)

with_device-IsReleased :
    (kb : Keyboard) (arrivals : List Arrival) (r : Result Unit)
    → All IsReachable arrivals
    → IsReleased kb (with_device kb true arrivals r)
with_device-IsReleased kb arrivals (err e) w = nothing-IsWrittenBack kb
with_device-IsReleased kb arrivals (ok tt) w = with_feature-IsReleased kb arrivals _ w

with_channel-IsReleased :
    (kb : Keyboard) (arrivals : List Arrival) (r : Result (Option Unit))
    → All IsReachable arrivals
    → IsReleased kb (with_channel kb true arrivals r)
with_channel-IsReleased kb arrivals (err e) w = nothing-IsWrittenBack kb
with_channel-IsReleased kb arrivals (ok none) w = nothing-IsWrittenBack kb
with_channel-IsReleased kb arrivals (ok (some tt)) w = with_device-IsReleased kb arrivals _ w

-- What a host switch session that ends has written to the keyboard, whether it failed, saw a press or
-- was stopped, and whatever the keyboard answered. It armed controls of the keyboard that have a host
-- and a mode by what the keyboard told of them, each by one write that diverts it without raw XY or
-- turns its analytics on. After all arming, in the same order and once or twice each, it wrote back the flags that the keyboard had told of the control's reporting: the diversion
-- and the raw XY of a diverted control, the analytics of any other; nothing else, so no remap. The
-- keyboard is not lost, and input and output are allowed at the end.
pub run_host_switch_session-IsReleased :
    (kb : Keyboard) (starts : Bool) (arrivals : List Arrival)
    → All IsReachable arrivals
    → IsReleased kb (run_host_switch_session kb starts true arrivals)
unfolding run_host_switch_session
run_host_switch_session-IsReleased kb true arrivals w = with_channel-IsReleased kb arrivals _ w
run_host_switch_session-IsReleased kb false arrivals w = nothing-IsWrittenBack kb
