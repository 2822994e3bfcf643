-- ===== src/Hidpp/Exchange.antt =====
-- `HidppChannel::send_v20` of crates/openlogi-hidpp/src/protocol/v20.rs: a HID++2.0 request over the
-- channel.
pub mod Replies
mod Runs
use logi_battery.Base.{List}
use logi_battery.Hidpp.V20.{V20Message, V20Result, header, into_hidpp, accepts, interpret}
use logi_battery.Hidpp.Channel.{
  Channel, ChannelError, Event, Outcome, done, waiting, ok, err, send_with_timeout,
}

-- A reply of the device, an error of the channel, or a request that still waits.
pub data V20Outcome : Type 0 where
  replied : V20Result → V20Outcome
  failed : ChannelError → V20Outcome
  in_progress : V20Outcome

v20_outcome : Channel × Outcome → Channel × V20Outcome
v20_outcome (ch, done (ok response)) = (ch, replied (interpret response))
v20_outcome (ch, done (err e)) = (ch, failed e)
v20_outcome (ch, waiting) = (ch, in_progress)

pub send_v20 : V20Message → List Event → Channel → Channel × V20Outcome
unfolding v20_outcome
send_v20 msg events ch =
    v20_outcome (send_with_timeout (into_hidpp msg) (accepts (header msg)) events ch)
