-- ===== src/Session/HostSwitch/Controls.antt =====
-- crates/openlogi-device/src/session/host_switch.rs: the host keys of a keyboard, which are armed, watched
-- and restored. The keyboard is what it answers: a control by its place, a write by the number of
-- writes before it. The writes are collected in their order.
pub mod Armed
pub mod WrittenBack
use logi_battery.Base.{
  ℕ, zero, suc, List, [], ◌∷◌, ◌++◌, Option, none, some, Bool, true, false, not, ◌&&◌, ◌||◌, ◌==◌,
  if◌then◌else◌, has_bits, length, or_else,
}
use logi_battery.Keys.Text.{codes}
use logi_battery.Session.HostSwitch.Reporting.{
  CtrlIdInfo, CidReporting, CidReportingChange, ReportingMode, ArmedControl, host_channel, mode_of,
  arming_change, arming_operation, restoration_change,
}
use logi_battery.Session.HostSwitch.{
  Answer, replied, failed, HostSwitchError, hid, keyboard_not_found, unsupported_keyboard, Result,
  ok, err, timed_hidpp, open_channel,
}

pub record Keyboard : Type 0 where
  pub opened : Answer (Option Unit)
  pub device : Answer Unit
  pub feature : Answer (Option ℕ)
  pub count : Answer ℕ
  pub info : ℕ → Answer CtrlIdInfo
  pub reporting : ℕ → Answer CidReporting
  pub written : ℕ → Answer Unit

abbrev pub Write : Type 0
Write = ℕ × CidReportingChange

-- The controls that were armed, or may have been, and all writes so far.
pub record Arming : Type 0 where
  pub armed : List ArmedControl
  pub writes : List Write

abbrev failure : {A : Type 0} → Result A → Option HostSwitchError
failure (ok a) = none
failure (err e) = some e

-- The control is recorded, and then written.
pub arm : Keyboard → Arming → ArmedControl → Option HostSwitchError × Arming
arm keyboard st control = (
  failure (timed_hidpp (arming_operation control.mode) (keyboard.written (length st.writes))),
  record {
    armed = st.armed ++ (control ∷ []);
    writes = st.writes ++ ((control.cid, arming_change control.mode) ∷ []);
  },
)

abbrev pub arm_read :
    Keyboard
    → Arming
    → CtrlIdInfo
    → ℕ
    → ReportingMode
    → Result CidReporting
    → Option HostSwitchError × Arming
arm_read keyboard st info host mode (ok original) =
    arm keyboard st (record { cid = info.cid; host = host; mode = mode; original = original })
arm_read keyboard st info host mode (err e) = (some e, st)

abbrev pub arm_mode :
    Keyboard → Arming → ℕ → CtrlIdInfo → ℕ → Option ReportingMode → Option HostSwitchError × Arming
arm_mode keyboard st index info host none = (none, st)
arm_mode keyboard st index info host (some mode) =
    arm_read keyboard st info host mode
      (timed_hidpp (codes "reading host control reporting") (keyboard.reporting index))

abbrev pub arm_host :
    Keyboard → Arming → ℕ → CtrlIdInfo → Option ℕ → Option HostSwitchError × Arming
arm_host keyboard st index info none = (none, st)
arm_host keyboard st index info (some host) = arm_mode keyboard st index info host (mode_of info)

abbrev pub arm_info : Keyboard → Arming → ℕ → Result CtrlIdInfo → Option HostSwitchError × Arming
arm_info keyboard st index (ok info) = arm_host keyboard st index info (host_channel info)
arm_info keyboard st index (err e) = (some e, st)

-- The turn of the loop for the control at a place.
pub arm_control : Keyboard → Arming → ℕ → Option HostSwitchError × Arming
arm_control keyboard st index =
    arm_info keyboard st index
      (timed_hidpp (codes "reading host control information") (keyboard.info index))

abbrev pub unless_failed :
    Option HostSwitchError × Arming
    → Option HostSwitchError × Arming
    → Option HostSwitchError × Arming
unless_failed (none, st) rest = rest
unless_failed (some e, st) rest = (some e, st)

-- The loop over the controls that are left, from a place on.
pub arm_from : Keyboard → ℕ → ℕ → Arming → Option HostSwitchError × Arming
unfolding arm_control
arm_from keyboard zero index st = (none, st)
arm_from keyboard (suc n) index st =
    let turn = arm_control keyboard st index in
    let rest = arm_from keyboard n (suc index) turn.1 in unless_failed turn rest

abbrev pub unarmed : Arming
unarmed = record { armed = []; writes = [] }

abbrev pub arm_count : Keyboard → Result ℕ → Option HostSwitchError × Arming
arm_count keyboard (ok count) = arm_from keyboard count 0 unarmed
arm_count keyboard (err e) = (some e, unarmed)

pub arm_host_controls_inner : Keyboard → Option HostSwitchError × Arming
arm_host_controls_inner keyboard =
    arm_count keyboard (timed_hidpp (codes "reading host control count") keyboard.count)

-- Whether it was answered, and the writes with it.
pub restore_host_control :
    Keyboard → ArmedControl → List Write → Option HostSwitchError × List Write
restore_host_control keyboard control writes = (
  failure
      (timed_hidpp (codes "restoring host control reporting") (keyboard.written (length writes))),
  writes ++ ((control.cid, restoration_change control) ∷ []),
)

abbrev pub again : Option HostSwitchError → List Write → List Write → List Write
again none once twice = once
again (some e) once twice = twice

pub restore_host_controls : Keyboard → List ArmedControl → List Write → List Write
unfolding restore_host_control
restore_host_controls keyboard [] writes = writes
restore_host_controls keyboard (control ∷ controls) writes =
    let once = restore_host_control keyboard control writes in
    let twice = restore_host_control keyboard control once.1 in
    restore_host_controls keyboard controls (again once.0 once.1 twice.1)

abbrev pub rolled_back :
    Keyboard → Option HostSwitchError × Arming → Result (List ArmedControl) × List Write
rolled_back keyboard (none, st) = (ok st.armed, st.writes)
rolled_back keyboard (some e, st) = (err e, restore_host_controls keyboard st.armed st.writes)

pub arm_host_controls : Keyboard → Result (List ArmedControl) × List Write
unfolding arm_host_controls_inner
arm_host_controls keyboard = rolled_back keyboard (arm_host_controls_inner keyboard)
