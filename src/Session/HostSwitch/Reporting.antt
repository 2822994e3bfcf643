-- ===== src/Session/HostSwitch/Reporting.antt =====
-- The host keys of a keyboard and how they report, of crates/openlogi-hidpp/src/feature/reprog_controls.rs,
-- and what crates/openlogi-device/src/session/host_switch.rs makes of them.
use logi_battery.Base.{
  ℕ, List, [], ◌∷◌, Option, none, some, Bool, true, false, ◌==◌, if◌then◌else◌, has_bits, or_else,
  ◌||◌,
}
use logi_battery.Keys.Text.{codes}

pub record CtrlIdInfo : Type 0 where
  pub cid : ℕ
  pub task_id : ℕ
  pub flags : ℕ

pub record CidReporting : Type 0 where
  pub cid : ℕ
  pub diverted : Bool
  pub persistently_diverted : Bool
  pub force_raw_xy : Bool
  pub raw_xy : Bool
  pub remap : Option ℕ
  pub analytics_key_events : Bool
  pub raw_wheel : Bool

pub record CidReportingChange : Type 0 where
  pub diverted : Option Bool
  pub persistently_diverted : Option Bool
  pub force_raw_xy : Option Bool
  pub raw_xy : Option Bool
  pub remap : Option ℕ
  pub analytics_key_events : Option Bool
  pub raw_wheel : Option Bool

-- `CidReportingChange::default`
abbrev pub no_change : CidReportingChange
no_change = record {
  diverted = none;
  persistently_diverted = none;
  force_raw_xy = none;
  raw_xy = none;
  remap = none;
  analytics_key_events = none;
  raw_wheel = none;
}

pub data ReportingMode : Type 0 where
  diverted analytics : ReportingMode

pub record ArmedControl : Type 0 where
  pub cid : ℕ
  pub host : ℕ
  pub mode : ReportingMode
  pub original : CidReporting

-- The events of the keyboard; the others carry no press.
pub data ReprogControlsEvent : Type 0 where
  diverted_buttons : List ℕ → ReprogControlsEvent
  analytics_key_events : List (ℕ × ℕ) → ReprogControlsEvent
  diverted_raw_mouse_xy diverted_raw_wheel : ReprogControlsEvent

pub data HostSwitchStopReason : Type 0 where
  graceful device_lost : HostSwitchStopReason

-- `HOST_CONTROL_IDS` and `HOST_TASK_IDS`
abbrev host_control_ids : List (ℕ × ℕ)
host_control_ids = (0xd1, 0) ∷ (0xd2, 1) ∷ (0xd3, 2) ∷ []

abbrev host_task_ids : List (ℕ × ℕ)
host_task_ids = (0xae, 0) ∷ (0xaf, 1) ∷ (0xb0, 2) ∷ []

abbrev find_host : List (ℕ × ℕ) → ℕ → Option ℕ
find_host [] id = none
find_host ((i, host) ∷ rest) id = if id == i then some host else find_host rest id

pub host_channel : CtrlIdInfo → Option ℕ
host_channel info =
    or_else (find_host host_control_ids info.cid) (find_host host_task_ids info.task_id)

pub is_divertable : CtrlIdInfo → Bool
is_divertable info = has_bits info.flags 32

pub supports_analytics_events : CtrlIdInfo → Bool
supports_analytics_events info = has_bits info.flags 1024

pub mode_of : CtrlIdInfo → Option ReportingMode
unfolding is_divertable supports_analytics_events
mode_of info =
    if is_divertable info
    then some diverted
    else if supports_analytics_events info
    then some analytics
    else none

-- `divert_cid`, and the change that enables analytics.
abbrev pub arming_change : ReportingMode → CidReportingChange
arming_change diverted = record no_change { diverted = some true; raw_xy = some false }
arming_change analytics = record no_change { analytics_key_events = some true }

abbrev pub arming_operation : ReportingMode → List ℕ
arming_operation diverted = codes "diverting host control"
arming_operation analytics = codes "enabling host control analytics"

abbrev changed_back : ReportingMode → CidReporting → CidReportingChange
changed_back diverted original = record no_change {
  diverted = some original.diverted;
  raw_xy = some original.raw_xy;
}
changed_back analytics original = record no_change {
  analytics_key_events = some original.analytics_key_events;
}

unfoldable pub restoration_change : ArmedControl → CidReportingChange
restoration_change control = changed_back control.mode control.original

abbrev has_cid : List ℕ → ℕ → Bool
has_cid [] cid = false
has_cid (c ∷ cs) cid = c == cid || has_cid cs cid

abbrev has_event : List (ℕ × ℕ) → ℕ → Bool
has_event [] cid = false
has_event ((c, event) ∷ es) cid = c == cid || has_event es cid

-- The host of the first armed control that an event reports.
abbrev find_armed : (ℕ → Bool) → List ArmedControl → Option ℕ
find_armed reports [] = none
find_armed reports (control ∷ controls) =
    if reports control.cid then some control.host else find_armed reports controls

pub event_host : List ArmedControl → ReprogControlsEvent → Option ℕ
event_host controls (diverted_buttons cids) = find_armed (has_cid cids) controls
event_host controls (analytics_key_events events) = find_armed (has_event events) controls
event_host controls diverted_raw_mouse_xy = none
event_host controls diverted_raw_wheel = none
