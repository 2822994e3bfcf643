-- ===== src/Hidpp/Access/Runs.antt =====
-- The accesses of register 0xb5 of a receiver, which refuses the read.
use logi_battery.Base.{List, [], ◌∷◌, true}
use logi_battery.Hidpp.Channel.{Channel, Event, received, report, wrote, polled}

abbrev receiver : Channel
receiver = record {
  supports_short = true;
  supports_long = true;
  pending = [];
  pending_message_id = 1;
  listeners = [];
  next_listener_hdl = 1;
  delivered = [];
  heard = [];
}

abbrev refusal : List Event
refusal =
    wrote ∷ received (report (0x10 ∷ 0xff ∷ 0x8f ∷ 0x83 ∷ 0xb5 ∷ 0x02 ∷ 0x00 ∷ [])) ∷ polled ∷ []
