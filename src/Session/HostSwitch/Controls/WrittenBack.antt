-- ===== src/Session/HostSwitch/Controls/WrittenBack.antt =====
-- What a host switch session writes to the keyboard, and that it writes back the flags it changed.
use mathlib.Core.List.{append-nil, append_assoc}
use logi_battery.Base.{
  ℕ, List, [], ◌∷◌, ◌++◌, Option, none, some, ◌≡◌, ◌∙◌, refl, sym, ap, ◌⊎◌, inl, inr, All,
}
use logi_battery.Session.HostSwitch.{HostSwitchError, Result, ok, err}
use logi_battery.Session.HostSwitch.Reporting.{
  ArmedControl, CidReporting, CidReportingChange, ReportingMode, diverted, analytics,
  restoration_change,
}
use logi_battery.Session.HostSwitch.Controls.{
  Keyboard, Write, Arming, arm_host_controls_inner, arm_host_controls, rolled_back, again,
  restore_host_control, restore_host_controls,
}
use logi_battery.Session.HostSwitch.Controls.Armed.{
  arming_writes, IsRead, IsArming, arm_count-IsArming,
}

-- The flags of the reporting that the mode changed; the remap is not among them.
abbrev written_back : ReportingMode → CidReporting → CidReportingChange
written_back diverted original = record {
  diverted = some original.diverted;
  persistently_diverted = none;
  force_raw_xy = none;
  raw_xy = some original.raw_xy;
  remap = none;
  analytics_key_events = none;
  raw_wheel = none;
}
written_back analytics original = record {
  diverted = none;
  persistently_diverted = none;
  force_raw_xy = none;
  raw_xy = none;
  remap = none;
  analytics_key_events = some original.analytics_key_events;
  raw_wheel = none;
}

abbrev pub restoring_write : ArmedControl → Write
restoring_write c = (c.cid, written_back c.mode c.original)

restoration_change-lem :
    (cid host : ℕ) (mode : ReportingMode) (original : CidReporting)
    → restoration_change (record { cid = cid; host = host; mode = mode; original = original })
      ≡ written_back mode original
unfolding restoration_change
restoration_change-lem cid host diverted original = refl
restoration_change-lem cid host analytics original = refl

-- The write that the code sends is the one stated.
abbrev sent : ArmedControl → Write
sent c = (c.cid, restoration_change c)

sent_write : (c : ArmedControl) → sent c ≡ restoring_write c
sent_write c =
    ap (λ change. (c.cid, change)) (restoration_change-lem c.cid c.host c.mode c.original)

-- Each control is restored in its turn, by one write or by a second one after it.
abbrev pub IsRestoring : List ArmedControl → List Write → Type 0
IsRestoring [] ws = ws ≡ []
IsRestoring (c ∷ cs) ws =
    (rest : List Write) × ((ws ≡ restoring_write c ∷ rest)
      ⊎ (ws ≡ restoring_write c ∷ restoring_write c ∷ rest))
    × IsRestoring cs rest

-- Controls that were read were armed, and then each is restored.
abbrev pub IsWrittenBack : Keyboard → List Write → Type 0
IsWrittenBack kb ws =
    (armed : List ArmedControl) × (rs : List Write) × All (IsRead kb) armed
    × (ws ≡ arming_writes armed ++ rs)
    × IsRestoring armed rs

-- The writes that a restoration adds to those before it.
abbrev Restores :
    Keyboard → List ArmedControl → List ArmedControl → List Write → List Write → Type 0
Restores kb later cs before ws =
    (rs : List Write) × (restore_host_controls kb later ws ≡ before ++ rs) × IsRestoring cs rs

restored_turn :
    (kb : Keyboard) (c : ArmedControl) (cs : List ArmedControl) (ws : List Write)
    (failure : Option HostSwitchError)
    → ((vs : List Write) → Restores kb cs cs vs vs)
    → Restores kb cs
        (c ∷ cs)
        ws
        (again failure (ws ++ (sent c ∷ [])) ((ws ++ (sent c ∷ [])) ++ (sent c ∷ [])))
restored_turn kb c cs ws none rest =
    let w = sent c ∷ [] in
    let (rs, e, v) = rest (ws ++ w) in
    (sent c ∷ rs, e ∙ append_assoc ws w rs, (rs, inl (ap (λ x. x ∷ rs) (sent_write c)), v))
restored_turn kb c cs ws (some failure) rest =
    let w = sent c ∷ [] in
    let (rs, e, v) = rest ((ws ++ w) ++ w) in
    (
      sent c ∷ sent c ∷ rs,
      e ∙ append_assoc (ws ++ w) w rs ∙ append_assoc ws w (sent c ∷ rs),
      (rs, inr (ap (λ x. x ∷ x ∷ rs) (sent_write c)), v),
    )

restore-IsRestoring :
    (kb : Keyboard) (cs : List ArmedControl) (ws : List Write) → Restores kb cs cs ws ws
unfolding restore_host_controls restore_host_control
restore-IsRestoring kb [] ws = ([], sym (append-nil ws), refl)
restore-IsRestoring kb (c ∷ cs) ws =
    restored_turn kb c cs ws (restore_host_control kb c ws).0 (λ vs. restore-IsRestoring kb cs vs)

abbrev pub IsArmed : Keyboard → Result (List ArmedControl) → List Write → Type 0
IsArmed kb (ok armed) ws = (ws ≡ arming_writes armed) × All (IsRead kb) armed
IsArmed kb (err e) ws = IsWrittenBack kb ws

rolled_back-IsArmed :
    (kb : Keyboard) (r : Option HostSwitchError × Arming)
    → IsArming kb r.1
    → IsArmed kb (rolled_back kb r).0 (rolled_back kb r).1
rolled_back-IsArmed kb (none, st) w = w
rolled_back-IsArmed kb (some e, st) w =
    let (rs, h, v) = restore-IsRestoring kb st.armed st.writes in
    (st.armed, rs, w.1, h ∙ ap (λ ws. ws ++ rs) w.0, v)

-- Arming either succeeds, and what was written are the controls that it armed, or fails with all that
-- was written followed by the restorations.
pub arm_host_controls-IsArmed :
    (kb : Keyboard) → IsArmed kb (arm_host_controls kb).0 (arm_host_controls kb).1
unfolding arm_host_controls arm_host_controls_inner
arm_host_controls-IsArmed kb = rolled_back-IsArmed kb _ (arm_count-IsArming kb _)

-- Armed controls are written back by a restoration.
pub restore-IsWrittenBack :
    (kb : Keyboard) (armed : List ArmedControl) (ws : List Write)
    → (ws ≡ arming_writes armed) × All (IsRead kb) armed
    → IsWrittenBack kb (restore_host_controls kb armed ws)
restore-IsWrittenBack kb armed ws w =
    let (rs, h, v) = restore-IsRestoring kb armed ws in
    (armed, rs, w.1, h ∙ ap (λ ws. ws ++ rs) w.0, v)
