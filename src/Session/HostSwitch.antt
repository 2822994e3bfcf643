-- ===== src/Session/HostSwitch.antt =====
-- crates/openlogi-device/src/session/host_switch.rs: the errors of a host switch and the timeout of its
-- requests. What a request is answered is an argument.
pub mod Reporting
pub mod Controls
pub mod Watch
pub mod Moves
mod Runs
use logi_battery.Base.{ℕ, List, Option, none, some, Bool, true, false}

-- What became of a future: its value, its error, or the end of its time.
pub data Answer (A : Type 0) : Type 0 where
  replied : A → Answer A
  failed timed_out : Answer A

-- The text of an error of the protocol is that of the operation, without the debug form of the error;
-- that of a transport error is the transport's.
pub data HostSwitchError : Type 0 where
  hid keyboard_not_found target_not_found unsupported_keyboard : HostSwitchError
  hidpp timed_out : List ℕ → HostSwitchError
  host_slot_empty : ℕ → HostSwitchError

pub data Result (A : Type 0) : Type 0 where
  ok : A → Result A
  err : HostSwitchError → Result A

abbrev pub timed_hidpp : {A : Type 0} → List ℕ → Answer A → Result A
timed_hidpp operation (replied a) = ok a
timed_hidpp operation failed = err (hidpp operation)
timed_hidpp operation timed_out = err (HostSwitchError.timed_out operation)

abbrev pub open_channel : List ℕ → Answer (Option Unit) → Result (Option Unit)
open_channel operation (replied channel) = ok channel
open_channel operation failed = err hid
open_channel operation timed_out = err (HostSwitchError.timed_out operation)
