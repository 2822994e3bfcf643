-- ===== src/Session/HostSwitch/Controls/Armed.antt =====
-- The controls that a host switch session arms: each is read, recorded and then written.
use logi_battery.Base.{
  ℕ, zero, suc, List, [], ◌∷◌, ◌++◌, Option, none, some, true, false, ◌≡◌, ◌∙◌, refl, ap, All,
  All-append,
}
use logi_battery.Session.HostSwitch.{
  Answer, replied, failed, timed_out, HostSwitchError, Result, ok, err, timed_hidpp,
}
use logi_battery.Session.HostSwitch.Reporting.{
  ArmedControl, CtrlIdInfo, CidReporting, CidReportingChange, ReportingMode, diverted, analytics,
  arming_change, host_channel, mode_of,
}
use logi_battery.Keys.Text.{codes}
use logi_battery.Session.HostSwitch.Controls.{
  Keyboard, Write, Arming, unarmed, arm, arm_read, arm_mode, arm_host, arm_info, arm_control,
  arm_from, arm_count, unless_failed,
}

-- The flags that arm a control: a diversion without raw XY, or the analytics.
abbrev armed_change : ReportingMode → CidReportingChange
armed_change diverted = record {
  diverted = some true;
  persistently_diverted = none;
  force_raw_xy = none;
  raw_xy = some false;
  remap = none;
  analytics_key_events = none;
  raw_wheel = none;
}
armed_change analytics = record {
  diverted = none;
  persistently_diverted = none;
  force_raw_xy = none;
  raw_xy = none;
  remap = none;
  analytics_key_events = some true;
  raw_wheel = none;
}

arming_change-lem : (mode : ReportingMode) → arming_change mode ≡ armed_change mode
arming_change-lem diverted = refl
arming_change-lem analytics = refl

-- The writes that arm controls.
abbrev pub arming_writes : List ArmedControl → List Write
arming_writes [] = []
arming_writes (c ∷ cs) = (c.cid, armed_change c.mode) ∷ arming_writes cs

-- The control is one of the keyboard, with what the keyboard told of it and of its reporting.
abbrev pub IsRead : Keyboard → ArmedControl → Type 0
IsRead kb c =
    (index : ℕ) × (info : CtrlIdInfo) × (kb.info index ≡ replied info)
    × (c.cid ≡ info.cid)
    × (host_channel info ≡ some c.host)
    × (mode_of info ≡ some c.mode)
    × (kb.reporting index ≡ replied c.original)

abbrev pub IsArming : Keyboard → Arming → Type 0
IsArming kb st = (st.writes ≡ arming_writes st.armed) × All (IsRead kb) st.armed

arming_writes-append :
    (cs : List ArmedControl) (c : ArmedControl)
    → arming_writes cs ++ ((c.cid, arming_change c.mode) ∷ []) ≡ arming_writes (cs ++ (c ∷ []))
arming_writes-append [] c = ap (λ change. (c.cid, change) ∷ []) (arming_change-lem c.mode)
arming_writes-append (d ∷ cs) c =
    ap (λ ws. (d.cid, armed_change d.mode) ∷ ws) (arming_writes-append cs c)

arm-IsArming :
    (kb : Keyboard) (st : Arming) (c : ArmedControl)
    → IsRead kb c
    → IsArming kb st
    → IsArming kb (arm kb st c).1
unfolding arm
arm-IsArming kb st c r w = (
  ap (λ ws. ws ++ ((c.cid, arming_change c.mode) ∷ [])) w.0 ∙ arming_writes-append st.armed c,
  All-append (IsRead kb) st.armed (c ∷ []) w.1 (r, tt),
)

-- An answer in time is what the device replied.
timed_hidpp-ok :
    {A : Type 0} (operation : List ℕ) (answer : Answer A) {a : A}
    → timed_hidpp operation answer ≡ ok a
    → answer ≡ replied a
timed_hidpp-ok operation (replied b) e = cc
timed_hidpp-ok operation failed e = cc
timed_hidpp-ok operation timed_out e = cc

arm_read-IsArming :
    (kb : Keyboard) (st : Arming) (index : ℕ) (info : CtrlIdInfo) (host : ℕ) (mode : ReportingMode)
    (r : Result CidReporting)
    → kb.info index ≡ replied info
    → host_channel info ≡ some host
    → mode_of info ≡ some mode
    → ((original : CidReporting) → r ≡ ok original → kb.reporting index ≡ replied original)
    → IsArming kb st
    → IsArming kb (arm_read kb st info host mode r).1
arm_read-IsArming kb st index info host mode (ok original) i h m o w =
    arm-IsArming kb st _ (index, info, i, refl, h, m, o original refl) w
arm_read-IsArming kb st index info host mode (err e) i h m o w = w

arm_mode-IsArming :
    (kb : Keyboard) (st : Arming) (index : ℕ) (info : CtrlIdInfo) (host : ℕ)
    (mode : Option ReportingMode)
    → kb.info index ≡ replied info
    → host_channel info ≡ some host
    → mode_of info ≡ mode
    → IsArming kb st
    → IsArming kb (arm_mode kb st index info host mode).1
arm_mode-IsArming kb st index info host none i h m w = w
arm_mode-IsArming kb st index info host (some mode) i h m w =
    arm_read-IsArming kb st index info host mode _ i h m
      (λ original e. timed_hidpp-ok (codes "reading host control reporting") (kb.reporting index) e)
      w

arm_host-IsArming :
    (kb : Keyboard) (st : Arming) (index : ℕ) (info : CtrlIdInfo) (host : Option ℕ)
    → kb.info index ≡ replied info
    → host_channel info ≡ host
    → IsArming kb st
    → IsArming kb (arm_host kb st index info host).1
arm_host-IsArming kb st index info none i h w = w
arm_host-IsArming kb st index info (some host) i h w =
    arm_mode-IsArming kb st index info host _ i h refl w

arm_info-IsArming :
    (kb : Keyboard) (st : Arming) (index : ℕ) (r : Result CtrlIdInfo)
    → ((info : CtrlIdInfo) → r ≡ ok info → kb.info index ≡ replied info)
    → IsArming kb st
    → IsArming kb (arm_info kb st index r).1
arm_info-IsArming kb st index (ok info) i w =
    arm_host-IsArming kb st index info _ (i info refl) refl w
arm_info-IsArming kb st index (err e) i w = w

unless_failed-IsArming :
    (kb : Keyboard) (turn rest : Option HostSwitchError × Arming)
    → IsArming kb turn.1
    → IsArming kb rest.1
    → IsArming kb (unless_failed turn rest).1
unless_failed-IsArming kb (none, st) rest w v = v
unless_failed-IsArming kb (some e, st) rest w v = w

arm_from-IsArming :
    (kb : Keyboard) (n index : ℕ) (st : Arming)
    → IsArming kb st
    → IsArming kb (arm_from kb n index st).1
unfolding arm_from arm_control
arm_from-IsArming kb zero index st w = w
arm_from-IsArming kb (suc n) index st w =
    let turn =
      arm_info-IsArming kb st index _
        (λ info e. timed_hidpp-ok (codes "reading host control information") (kb.info index) e) w in
    unless_failed-IsArming kb (arm_control kb st index)
      (arm_from kb n (suc index) (arm_control kb st index).1) turn
      (arm_from-IsArming kb n (suc index) (arm_control kb st index).1 turn)

pub arm_count-IsArming : (kb : Keyboard) (r : Result ℕ) → IsArming kb (arm_count kb r).1
arm_count-IsArming kb (ok n) = arm_from-IsArming kb n 0 unarmed (refl, tt)
arm_count-IsArming kb (err e) = (refl, tt)
