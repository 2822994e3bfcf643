-- ===== src/Session/HostSwitch/Watch.antt =====
-- `run_host_switch_session` of crates/openlogi-device/src/session/host_switch.rs: a keyboard is watched until
-- one of its host keys is pressed or the session is stopped.
pub mod Releases
use logi_battery.Base.{
  ℕ, List, [], ◌∷◌, ◌++◌, Option, none, some, Bool, true, false, ◌&&◌, if◌then◌else◌,
}
use logi_battery.Keys.Text.{codes}
use logi_battery.Session.HostSwitch.{
  Answer, HostSwitchError, hid, keyboard_not_found, unsupported_keyboard, Result, ok, err,
  timed_hidpp, open_channel,
}
use logi_battery.Session.HostSwitch.Reporting.{
  ArmedControl, ReprogControlsEvent, HostSwitchStopReason, graceful, device_lost, event_host,
}
use logi_battery.Session.HostSwitch.Controls.{
  Keyboard, Write, arm_host_controls, restore_host_controls,
}

-- What reaches a session: an event of the keyboard, or the stop, which a dropped sender leaves without a
-- reason.
pub data Arrival : Type 0 where
  event : ReprogControlsEvent → Arrival
  stop : Option HostSwitchStopReason → Arrival

-- `reason == HostSwitchStopReason::Graceful`
abbrev pub is_graceful : Option HostSwitchStopReason → Bool
is_graceful none = false
is_graceful (some graceful) = true
is_graceful (some device_lost) = false

abbrev pub on_host : Option ℕ → Option (Option ℕ × Bool) → Option (Option ℕ × Bool)
on_host none rest = rest
on_host (some host) rest = some (some host, true)

-- The host that was pressed, and whether the keyboard is still there; nothing while the session waits.
pub outcome : List ArmedControl → List Arrival → Option (Option ℕ × Bool)
outcome armed [] = none
outcome armed (stop reason ∷ arrivals) = some (none, is_graceful reason)
outcome armed (event e ∷ arrivals) = on_host (event_host armed e) (outcome armed arrivals)

-- The controls are restored if the keyboard is there and input and output are allowed.
abbrev pub released :
    Keyboard
    → List ArmedControl
    → List Write
    → Bool
    → Option (Option ℕ × Bool)
    → Option (Result (Option ℕ) × List Write)
released keyboard armed writes allowed none = none
released keyboard armed writes allowed (some (host, there)) =
    some (ok host, if there && allowed then restore_host_controls keyboard armed writes else writes)

abbrev pub watched :
    Keyboard
    → Bool
    → List Arrival
    → Result (List ArmedControl) × List Write
    → Option (Result (Option ℕ) × List Write)
watched keyboard allowed arrivals (err e, writes) = some (err e, writes)
watched keyboard allowed arrivals (ok [], writes) = some (err unsupported_keyboard, writes)
watched keyboard allowed arrivals (ok (control ∷ controls), writes) =
    released keyboard (control ∷ controls) writes allowed (outcome (control ∷ controls) arrivals)

abbrev pub with_feature :
    Keyboard → Bool → List Arrival → Result (Option ℕ) → Option (Result (Option ℕ) × List Write)
with_feature keyboard allowed arrivals (err e) = some (err e, [])
with_feature keyboard allowed arrivals (ok none) = some (err unsupported_keyboard, [])
with_feature keyboard allowed arrivals (ok (some index)) =
    watched keyboard allowed arrivals (arm_host_controls keyboard)

abbrev pub with_device :
    Keyboard → Bool → List Arrival → Result Unit → Option (Result (Option ℕ) × List Write)
with_device keyboard allowed arrivals (err e) = some (err e, [])
with_device keyboard allowed arrivals (ok tt) =
    with_feature keyboard allowed arrivals
      (timed_hidpp (codes "locating host controls") keyboard.feature)

abbrev pub with_channel :
    Keyboard → Bool → List Arrival → Result (Option Unit) → Option (Result (Option ℕ) × List Write)
with_channel keyboard allowed arrivals (err e) = some (err e, [])
with_channel keyboard allowed arrivals (ok none) = some (err keyboard_not_found, [])
with_channel keyboard allowed arrivals (ok (some tt)) =
    with_device keyboard allowed arrivals
      (timed_hidpp (codes "opening keyboard device") keyboard.device)

-- Whether input and output are allowed at the start, and at the end (`wait_until_allowed`). While the
-- session waits it has no result.
pub run_host_switch_session :
    Keyboard → Bool → Bool → List Arrival → Option (Result (Option ℕ) × List Write)
unfolding outcome
run_host_switch_session keyboard starts allowed arrivals =
    if starts
    then with_channel keyboard allowed arrivals
        (open_channel (codes "opening keyboard channel") keyboard.opened)
    else some (err hid, [])
