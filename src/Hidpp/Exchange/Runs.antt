-- ===== src/Hidpp/Exchange/Runs.antt =====
-- A HID++2.0 request on a fresh channel, answered by an error report.
use logi_battery.Base.{List, [], ◌∷◌, true, replicate}
use logi_battery.Hidpp.V20.{V20Message, short}
use logi_battery.Hidpp.Channel.{Channel, Event, received, report, wrote, polled}
use logi_battery.Hidpp.Exchange.Replies.{Replies}

abbrev battery_request : V20Message
battery_request =
    short
      (record {
        device_index = 0x01;
        feature_index = 0x06;
        function_id = record { raw = 1 };
        software_id = record { raw = 10 };
      })
      (0x00 ∷ 0x00 ∷ 0x00 ∷ [])

abbrev connected : Channel
connected = record {
  supports_short = true;
  supports_long = true;
  pending = [];
  pending_message_id = 1;
  listeners = [];
  next_listener_hdl = 1;
  delivered = [];
  heard = [];
}

abbrev busy_reply : List Event
busy_reply =
    wrote
    ∷ received (report (0x11 ∷ 0x01 ∷ 0xff ∷ 0x06 ∷ 0x1a ∷ 0x08 ∷ replicate 14 0))
    ∷ polled
    ∷ []
