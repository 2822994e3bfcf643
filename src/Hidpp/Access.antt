-- ===== src/Hidpp/Access.antt =====
-- The register accesses of HID++1.0 over the channel: `read_register`, `write_register`,
-- `read_long_register` and `write_long_register` of crates/openlogi-hidpp/src/protocol/v10.rs.
pub mod Replies
mod Runs
use logi_battery.Base.{ℕ, List, Bool}
use logi_battery.Hidpp.Message.{HidppMessage}
use logi_battery.Hidpp.V10.{
  V10Result, read_register_request, read_register_accepts, read_register_response,
  write_register_request, write_register_accepts, write_register_response,
  read_long_register_request, read_long_register_accepts, read_long_register_response,
  write_long_register_request, write_long_register_accepts, write_long_register_response,
}
use logi_battery.Hidpp.Channel.{
  Channel, ChannelError, Event, Outcome, done, waiting, ok, err, send_with_timeout,
}

-- A reply of the device, an error of the channel, or an access that still waits.
pub data V10Outcome (A : Type 0) : Type 0 where
  replied : V10Result A → V10Outcome A
  failed : ChannelError → V10Outcome A
  in_progress : V10Outcome A

v10_outcome :
    {A : Type 0} → (HidppMessage → V10Result A) → Channel × Outcome → Channel × V10Outcome A
v10_outcome read (ch, done (ok response)) = (ch, replied (read response))
v10_outcome read (ch, done (err e)) = (ch, failed e)
v10_outcome read (ch, waiting) = (ch, in_progress)

-- The device, the address of the register, and the three parameters of the read.
pub read_register : ℕ → ℕ → List ℕ → List Event → Channel → Channel × V10Outcome (List ℕ)
unfolding v10_outcome
read_register device address parameters events ch = v10_outcome read_register_response (
    send_with_timeout (read_register_request device address parameters)
      (read_register_accepts device address) events ch)

pub write_register : ℕ → ℕ → List ℕ → List Event → Channel → Channel × V10Outcome (Unit {0})
unfolding v10_outcome
write_register device address payload events ch = v10_outcome write_register_response (
    send_with_timeout (write_register_request device address payload)
      (write_register_accepts device address) events ch)

pub read_long_register : ℕ → ℕ → List ℕ → List Event → Channel → Channel × V10Outcome (List ℕ)
unfolding v10_outcome
read_long_register device address parameters events ch = v10_outcome read_long_register_response (
    send_with_timeout (read_long_register_request device address parameters)
      (read_long_register_accepts device address) events ch)

pub write_long_register : ℕ → ℕ → List ℕ → List Event → Channel → Channel × V10Outcome (Unit {0})
unfolding v10_outcome
write_long_register device address payload events ch = v10_outcome write_long_register_response (
    send_with_timeout (write_long_register_request device address payload)
      (write_long_register_accepts device address) events ch)
