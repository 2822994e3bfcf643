-- ===== src/Session/Restore.antt =====
-- crates/openlogi-device/src/session/capture_restore.rs: the controls that a capture session has diverted,
-- and their restoration, which may take several attempts and channels. A channel is compared by
-- `Arc::ptr_eq`. Of each write, an argument says whether it was answered, by the number of writes before.
pub mod Attempts
pub mod Stops
mod Runs
use logi_battery.Base.{
  ℕ, suc, zero, List, [], ◌∷◌, ◌++◌, Option, none, some, Bool, true, false, not, ◌&&◌,
  if◌then◌else◌, is_some, length, map, KeyEq,
}
use logi_battery.Session.HostSwitch.Reporting.{CidReporting, CidReportingChange, no_change}
use logi_battery.Routing.Registry.{Registry, lookup_shared, any_current}

pub data CaptureStop : Type 0 where
  shutdown channel_changed : CaptureStop

pub data RetiredChannelPolicy : Type 0 where
  replacement_only current_allowed : RetiredChannelPolicy

pub record ArmedReporting : Type 0 where
  pub cid : ℕ
  pub original : CidReporting

pub record ReprogRestore : Type 0 where
  pub feature_index : ℕ
  pub controls : List ArmedReporting

abbrev reprog_of : ℕ → List ArmedReporting → Option ReprogRestore
reprog_of feature_index [] = none
reprog_of feature_index (c ∷ cs) =
    some (record { feature_index = feature_index; controls = c ∷ cs })

-- `ReprogRestore::new`
pub new_reprog : ℕ → List ArmedReporting → Option ReprogRestore
new_reprog feature_index controls = reprog_of feature_index controls

pub record SharedChannel (Route Channel : Type 0) : Type 0 where
  pub channel : Channel
  pub route : Route

pub record PendingCaptureRestore (Route Channel : Type 0) : Type 0 where
  pub route : Route
  pub retired_channel : Channel
  pub retired_policy : RetiredChannelPolicy
  pub reprog : Option ReprogRestore
  pub thumb_index : Option ℕ

pub data CaptureSessionOutcome (Route Channel : Type 0) : Type 0 where
  restored : CaptureSessionOutcome Route Channel
  restore_pending : PendingCaptureRestore Route Channel → CaptureSessionOutcome Route Channel

-- `setCidReporting` on the feature of the controls, and the end of the thumb wheel's diversion.
pub data Request : Type 0 where
  set_cid_reporting : ℕ → ℕ → CidReportingChange → Request
  undivert_thumbwheel : ℕ → Request

pub undivert_change : CidReporting → CidReportingChange
undivert_change reporting = record no_change {
  diverted = some false;
  raw_xy = some false;
  remap = reporting.remap;
}

-- A write, with whether it was answered.
abbrev pub write : (ℕ → Bool) → Request → Bool × List Request → Bool × List Request
write answered request (ok, ws) = (ok && answered (length ws), ws ++ (request ∷ []))

abbrev pub reporting_request : ℕ → ArmedReporting → Request
reporting_request feature c = set_cid_reporting feature c.cid (undivert_change c.original)

-- Each control is restored, also after one that failed.
pub restore_controls :
    (ℕ → Bool) → ℕ → List ArmedReporting → Bool × List Request → Bool × List Request
restore_controls answered feature [] st = st
restore_controls answered feature (c ∷ cs) st =
    restore_controls answered feature cs (write answered (reporting_request feature c) st)

abbrev pub restore_reprog :
    (ℕ → Bool) → Option ReprogRestore → Bool × List Request → Bool × List Request
restore_reprog answered none st = st
restore_reprog answered (some reprog) st =
    restore_controls answered reprog.feature_index reprog.controls st

abbrev pub restore_thumb : (ℕ → Bool) → Option ℕ → Bool × List Request → Bool × List Request
restore_thumb answered none st = st
restore_thumb answered (some index) st = write answered (undivert_thumbwheel index) st

-- The requests of an attempt go to one channel.
abbrev pub on_channel : {Channel : Type 0} → Channel → List Request → List (Channel × Request)
on_channel channel requests = map (λ r. (channel, r)) requests

-- The error of the start, with what its rollback could not release.
pub record CaptureSessionFailure (E Route Channel : Type 0) : Type 0 where
  pub error : E
  pub pending_restore : Option (PendingCaptureRestore Route Channel)

abbrev pub pending_of :
    {Route Channel : Type 0}
    → CaptureSessionOutcome Route Channel
    → Option (PendingCaptureRestore Route Channel)
pending_of restored = none
pending_of (restore_pending pending) = some pending

module _ {Route Channel : Type 0} where
  -- `PendingCaptureRestore::new`
  pub new_pending :
      SharedChannel Route Channel
      → Option ReprogRestore
      → Option ℕ
      → Option (PendingCaptureRestore Route Channel)
  new_pending retired reprog thumb_index =
      if not (is_some reprog) && not (is_some thumb_index)
      then none
      else some (record {
        route = retired.route;
        retired_channel = retired.channel;
        retired_policy = replacement_only;
        reprog = reprog;
        thumb_index = thumb_index;
      })

  abbrev pub allow_current_channel :
      PendingCaptureRestore Route Channel → PendingCaptureRestore Route Channel
  allow_current_channel self = record self { retired_policy = current_allowed }

  pub restore_on : (ℕ → Bool) → PendingCaptureRestore Route Channel → Bool × List Request
  unfolding restore_controls
  restore_on answered self =
      restore_thumb answered self.thumb_index (restore_reprog answered self.reprog (true, []))

  pub restore_standalone :
      (ℕ → Bool)
      → PendingCaptureRestore Route Channel
      → SharedChannel Route Channel
      → CaptureSessionOutcome Route Channel × List (Channel × Request)
  unfolding restore_on
  restore_standalone answered self retired =
      let r = restore_on answered self in
      (if r.0 then restored else restore_pending self, on_channel retired.channel r.1)

-- The token may not use its retired channel, which is alive and current.
abbrev pub waits :
    {Channel : Type 0} ⦃ec : KeyEq Channel⦄ → RetiredChannelPolicy → Bool → Channel → Channel → Bool
waits ⦃ec⦄ replacement_only alive current retired = alive && ec.same current retired
waits ⦃ec⦄ current_allowed alive current retired = false

module _ {Node Route Channel : Type 0} ⦃er : KeyEq Route⦄ ⦃ec : KeyEq Channel⦄ where
  -- A poisoned lock has no current publication.
  pub is_current : Registry Node Route Channel → SharedChannel Route Channel → Bool
  is_current s shared =
      if s.poisoned
      then false
      else any_current
          (λ route channel. er.same shared.route route && ec.same channel shared.channel) s.state

  abbrev pub attempt :
      Registry Node Route Channel
      → Bool
      → (ℕ → Bool)
      → PendingCaptureRestore Route Channel
      → Option Channel
      → CaptureSessionOutcome Route Channel × List (Channel × Request)
  attempt after alive answered self none = (restore_pending self, [])
  attempt after alive answered self (some current) =
      let r = restore_on answered self in
      if waits self.retired_policy alive current self.retired_channel
      then (restore_pending self, [])
      else (
        if r.0 && is_current after (record { channel = current; route = self.route })
            then restored
            else restore_pending self,
        on_channel current r.1,
      )

  -- With the registry at the start and at the end, and whether the retired channel is alive.
  pub retry :
      Registry Node Route Channel
      → Registry Node Route Channel
      → Bool
      → (ℕ → Bool)
      → PendingCaptureRestore Route Channel
      → CaptureSessionOutcome Route Channel × List (Channel × Request)
  unfolding restore_on is_current
  retry before after alive answered self =
      attempt after alive answered self (lookup_shared before self.route)

  -- Without a registry a session is not superseded.
  pub stop_for_current_publication :
      Option (Registry Node Route Channel) → SharedChannel Route Channel → CaptureStop
  unfolding is_current
  stop_for_current_publication none retired = shutdown
  stop_for_current_publication (some s) retired =
      if is_current s retired then shutdown else channel_changed

  pub restore_after_stop :
      CaptureStop
      → Option (PendingCaptureRestore Route Channel)
      → SharedChannel Route Channel
      → Option (Registry Node Route Channel × Registry Node Route Channel)
      → Bool
      → (ℕ → Bool)
      → CaptureSessionOutcome Route Channel × List (Channel × Request)
  unfolding retry restore_standalone
  restore_after_stop stop none retired registry alive answered = (restored, [])
  restore_after_stop shutdown (some pending) retired (some (before, after)) alive answered =
      retry before after alive answered (allow_current_channel pending)
  restore_after_stop shutdown (some pending) retired none alive answered =
      restore_standalone answered (allow_current_channel pending) retired
  restore_after_stop channel_changed (some pending) retired (some (before, after)) alive answered =
      retry before after alive answered pending
  restore_after_stop channel_changed (some pending) retired none alive answered =
      (restore_pending pending, [])

  -- The attempt after a failed start, in which the channel of the session may be used.
  abbrev pub attempt_rollback :
      PendingCaptureRestore Route Channel
      → SharedChannel Route Channel
      → Option (Registry Node Route Channel × Registry Node Route Channel)
      → Bool
      → (ℕ → Bool)
      → CaptureSessionOutcome Route Channel × List (Channel × Request)
  attempt_rollback pending retired (some (before, after)) alive answered =
      retry before after alive answered pending
  attempt_rollback pending retired none alive answered = restore_standalone answered pending retired

  pub rollback_capture_start :
      {E : Type 0}
      → E
      → Option (PendingCaptureRestore Route Channel)
      → SharedChannel Route Channel
      → Option (Registry Node Route Channel × Registry Node Route Channel)
      → Bool
      → (ℕ → Bool)
      → CaptureSessionFailure E Route Channel × List (Channel × Request)
  unfolding retry restore_standalone
  rollback_capture_start error none retired registry alive answered =
      (record { error = error; pending_restore = none }, [])
  rollback_capture_start error (some pending) retired registry alive answered =
      let r = attempt_rollback (allow_current_channel pending) retired registry alive answered in
      (record { error = error; pending_restore = pending_of r.0 }, r.1)
