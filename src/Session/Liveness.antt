-- ===== src/Session/Liveness.antt =====
-- crates/openlogi-device/src/session/gesture/liveness.rs: when an idle capture channel is probed, and
-- when it is replaced. Instants are numbers of milliseconds.
pub mod History
mod Runs
use logi_battery.Base.{
  ℕ, ◌+◌, ◌^◌, ◌%◌, Bool, true, false, not, ◌&&◌, ◌||◌, min, leb, ◌==◌, if◌then◌else◌,
}

abbrev pub idle_interval : ℕ
idle_interval = 20000

abbrev pub silent_strikes_before_restart : ℕ
silent_strikes_before_restart = 2

-- `generation.fetch_add(1)`, which wraps around.
pub record_generation : ℕ → ℕ
record_generation generation = (generation + 1) % 2 ^ 64

pub data PingOutcome : Type 0 where
  delivered all_silent channel_failed : PingOutcome

pub data LivenessDecision : Type 0 where
  continue restart : LivenessDecision

pub record CaptureLiveness : Type 0 where
  pub activity_generation : ℕ
  pub idle_deadline : ℕ
  pub silent_strikes : ℕ

pub new : ℕ → ℕ → CaptureLiveness
new now activity_generation = record {
  activity_generation = activity_generation;
  idle_deadline = now + idle_interval;
  silent_strikes = 0;
}

pub take_activity : ℕ → ℕ → CaptureLiveness → CaptureLiveness × Bool
take_activity now generation self =
    if generation == self.activity_generation then (self, false) else (
      record {
        activity_generation = generation;
        idle_deadline = now + idle_interval;
        silent_strikes = 0;
      },
      true,
    )

pub record_activity : ℕ → ℕ → CaptureLiveness → CaptureLiveness
record_activity now generation self = (take_activity now generation self).0

pub ping_due : ℕ → ℕ → CaptureLiveness → CaptureLiveness × Bool
ping_due now generation self =
    let (after, activity) = take_activity now generation self in
    (after, not activity && leb after.idle_deadline now)

-- `self.silent_strikes.saturating_add(1)`, and the decision by it.
pub strike : CaptureLiveness → CaptureLiveness × LivenessDecision
strike self =
    let strikes = min (self.silent_strikes + 1) 255 in
    (
      record self { silent_strikes = strikes },
      if leb silent_strikes_before_restart strikes then restart else continue,
    )

-- What follows once the activity is taken and the deadline is moved.
pub conclude : PingOutcome → Bool → CaptureLiveness → CaptureLiveness × LivenessDecision
unfolding strike
conclude channel_failed activity self = (self, restart)
conclude delivered activity self = (record self { silent_strikes = 0 }, continue)
conclude all_silent activity self =
    if activity then (record self { silent_strikes = 0 }, continue) else strike self

pub finish_ping : ℕ → ℕ → PingOutcome → CaptureLiveness → CaptureLiveness × LivenessDecision
finish_ping now generation outcome self =
    let (after, activity) = take_activity now generation self in
    conclude outcome activity (record after { idle_deadline = now + idle_interval })
