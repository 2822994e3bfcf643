-- ===== src/Inventory/Events/Runs.antt =====
-- A feature table, and two registered devices.
use logi_battery.Base.{ℕ, List, [], ◌∷◌, none, some}
use logi_battery.Inventory.Events.{DeviceEvents}

abbrev table : List ℕ
table = 0x0001 ∷ 0x1d4b ∷ 0x1004 ∷ []

abbrev devices : List DeviceEvents
devices =
    record {
      device_index = 1;
      features = record { wireless_status = some 4; unified_battery = none };
    }
    ∷ record {
      device_index = 2;
      features = record { wireless_status = none; unified_battery = some 6 };
    }
    ∷ []
