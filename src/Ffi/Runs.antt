-- ===== src/Ffi/Runs.antt =====
-- One receiver with a mouse that shows its battery and a keyboard that does not.
use logi_battery.Base.{List, [], ◌∷◌, none, some, true, false, get_elem?, arith}
use logi_battery.Base.Int.{pos}
use logi_battery.Battery.Model.{BatteryLevel, BatteryStatus}
use logi_battery.Inventory.Model.{DeviceKind, DeviceInventory, ReceiverInfo, PairedDevice}
use logi_battery.Ffi.{
  Process, LbDeviceList, LbBatteryInfo, ok, err, device_info, device_infos, display_name, slot_name,
  decimal, lb_enumerate_devices, lb_read_battery,
}
use logi_battery.Ffi.Names.{
  read_texts, IsNamed, IsExplained, device_info-IsNamed, lb_read_battery-IsExplained,
}
use logi_battery.Ffi.Reads.{IsReadOf, lb_read_battery-IsReadOf}
use logi_battery.Ffi.Memory.{IsListing, lb_enumerate_devices-IsListing}

abbrev bolt : ReceiverInfo
bolt = record {
  name = 66 ∷ 111 ∷ 108 ∷ 116 ∷ [];
  vendor_id = 0x046d;
  product_id = 0xc548;
  unique_id = none;
}

abbrev mouse : PairedDevice
mouse = record {
  slot = 1;
  codename = some (77 ∷ 88 ∷ []);
  wpid = none;
  kind = DeviceKind.mouse;
  online = true;
  battery =
      some (record { percentage = 50; level = BatteryLevel.good; status = BatteryStatus.charging });
  model_info = none;
  capabilities = none;
}

abbrev keyboard : PairedDevice
keyboard = record {
  slot = 12;
  codename = none;
  wpid = none;
  kind = DeviceKind.keyboard;
  online = false;
  battery = none;
  model_info = none;
  capabilities = none;
}

abbrev inventories : List DeviceInventory
inventories = record { receiver = bolt; paired = mouse ∷ keyboard ∷ [] } ∷ []

abbrev start : Process
start = record { last_error = []; next = 16; blocks = [] }

abbrev out : LbBatteryInfo
out = record { percentage = 0; level = 0; status = 0 }

abbrev no_list : LbDeviceList
no_list = record { devices = 0; count = pos 0 }

lb_read_battery-IsReadOf_example :
    IsReadOf
      (get_elem? (device_infos inventories) 1)
      start
      out
      (lb_read_battery (ok inventories) (pos 1) (some out) start)
lb_read_battery-IsReadOf_example = lb_read_battery-IsReadOf inventories 1 out start

lb_enumerate_devices-IsListing_example :
    IsListing
      (device_infos inventories)
      start
      (lb_enumerate_devices (ok inventories) (some no_list) start)
unfolding device_infos
lb_enumerate_devices-IsListing_example =
    lb_enumerate_devices-IsListing inventories no_list start (omega arith) (omega arith)

device_info-IsNamed_example : IsNamed (display_name bolt keyboard) (device_info bolt keyboard)
unfolding display_name slot_name decimal
device_info-IsNamed_example = device_info-IsNamed bolt keyboard (omega arith)

lb_read_battery-IsExplained_example :
    IsExplained
      (read_texts (err (120 ∷ [])))
      (lb_read_battery (err (120 ∷ [])) (pos 0) (some out) start).0
      start
      (lb_read_battery (err (120 ∷ [])) (pos 0) (some out) start).1
lb_read_battery-IsExplained_example =
    lb_read_battery-IsExplained (err (120 ∷ [])) (pos 0) (some out) start
