-- ===== src/Inventory/Events/Decode/Runs.antt =====
-- A battery event of a registered device, on the channel of a Bolt receiver.
use logi_battery.Base.{[], ◌∷◌, some, false}
use logi_battery.Hidpp.Message.{HidppMessage}
use logi_battery.Inventory.Events.Decode.{SubscriptionState, bolt, decode}
use logi_battery.Inventory.Events.Decode.Reports.{Asks, decode-Asks}

abbrev listening : SubscriptionState
listening = record {
  protocol = some bolt;
  devices =
      record {
        device_index = 2;
        features = record { wireless_status = some 4; unified_battery = some 6 };
      }
      ∷ [];
  receiver_snapshot_depth = 0;
}

abbrev battery_event : HidppMessage
battery_event = HidppMessage.short (2 ∷ 6 ∷ 0 ∷ 50 ∷ 4 ∷ 0 ∷ [])

decode-Asks_example : Asks listening battery_event false (decode listening battery_event false)
decode-Asks_example = decode-Asks listening battery_event false
