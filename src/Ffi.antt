-- ===== src/Ffi.antt =====
-- src/ffi.rs: the C interface. A call takes what `enumerate` returned, what `out` points to (nothing
-- for a null pointer) and the state that outlives calls: the last error and the heap.
pub mod Names
pub mod Reads
pub mod Memory
mod Runs
use logi_battery.Base.{
  ℕ, suc, ◌+◌, ◌-◌, ◌*◌, ◌/◌, ◌%◌, ◌^◌, min, List, [], ◌∷◌, ◌++◌, map, Option, none, some, Bool,
  true, false, ◌&&◌, ◌||◌, not, ltb, leb, ◌==◌, if◌then◌else◌, length, get_elem?, take, drop,
  replicate, get_or,
}
use logi_battery.Base.Int.{ℤ, pos, negsuc}
use logi_battery.Battery.Model.{BatteryLevel, BatteryStatus, BatteryInfo}
use logi_battery.Inventory.Model.{Text, DeviceInventory, PairedDevice, ReceiverInfo}

pub record LbDeviceInfo : Type 0 where
  pub vendor_id : ℕ
  pub product_id : ℕ
  pub name : List ℕ
  pub slot : ℕ
  pub online : ℕ
  pub has_battery : ℕ
  pub percentage : ℕ
  pub level : ℕ
  pub status : ℕ

-- `devices` is an address; 0 is the null pointer.
pub record LbDeviceList : Type 0 where
  pub devices : ℕ
  pub count : ℤ

pub record LbBatteryInfo : Type 0 where
  pub percentage : ℕ
  pub level : ℕ
  pub status : ℕ

-- What outlives a call: `LAST_ERROR`, and the heap's arrays with their addresses.
pub record Process : Type 0 where
  pub last_error : List ℕ
  pub next : ℕ
  pub blocks : List (ℕ × List LbDeviceInfo)

-- What `with_runtime` gives for `enumerate`: the inventories, or an error's text.
pub data Enumerated : Type 0 where
  ok : List DeviceInventory → Enumerated
  err : Text → Enumerated

pub set_last_error : Text → Process → Process
set_last_error msg p = record p { last_error = msg ++ 0 ∷ [] }

pub level_to_u8 : BatteryLevel → ℕ
level_to_u8 BatteryLevel.critical = 0
level_to_u8 BatteryLevel.low = 1
level_to_u8 BatteryLevel.good = 2
level_to_u8 BatteryLevel.full = 3
level_to_u8 BatteryLevel.unknown = 4

pub status_to_u8 : BatteryStatus → ℕ
status_to_u8 BatteryStatus.discharging = 0
status_to_u8 BatteryStatus.charging = 1
status_to_u8 BatteryStatus.charging_slow = 2
status_to_u8 BatteryStatus.full = 3
status_to_u8 BatteryStatus.error = 4
status_to_u8 BatteryStatus.unknown = 5

-- The buffer after the name is copied to its front, with a NUL after it.
pub name_bytes : Text → List ℕ → List ℕ
name_bytes name buf =
    let len = min (length name) (length buf - 1) in take len name ++ 0 ∷ drop (len + 1) buf

-- A `u8` in decimal digits.
pub decimal : ℕ → Text
decimal n =
    if ltb n 10
    then (48 + n) ∷ []
    else if ltb n 100
    then (48 + n / 10) ∷ (48 + n % 10) ∷ []
    else (48 + n / 100) ∷ (48 + n / 10 % 10) ∷ (48 + n % 10) ∷ []

-- `format!("{} (slot {})", name, slot)`
pub slot_name : Text → ℕ → Text
slot_name name slot = name ++ (32 ∷ 40 ∷ 115 ∷ 108 ∷ 111 ∷ 116 ∷ 32 ∷ []) ++ decimal slot ++ 41 ∷ []

pub display_name : ReceiverInfo → PairedDevice → Text
display_name receiver p = elim p.codename [
  | none ↦ slot_name receiver.name p.slot
  | some name ↦ name
]

abbrev pub zero_name : List ℕ
zero_name = replicate 256 0

-- has_battery, percentage, level, status
pub battery_fields : Option BatteryInfo → ℕ × ℕ × ℕ × ℕ
battery_fields (some b) = (1, b.percentage, level_to_u8 b.level, status_to_u8 b.status)
battery_fields none = (0, 0, level_to_u8 BatteryLevel.unknown, status_to_u8 BatteryStatus.unknown)

pub device_info : ReceiverInfo → PairedDevice → LbDeviceInfo
device_info receiver p =
    let (has_battery, percentage, level, status) = battery_fields p.battery in
    record {
      vendor_id = receiver.vendor_id;
      product_id = receiver.product_id;
      name = name_bytes (display_name receiver p) zero_name;
      slot = p.slot;
      online = if p.online then 1 else 0;
      has_battery = has_battery;
      percentage = percentage;
      level = level;
      status = status;
    }

-- The loops over the inventories and their devices.
pub device_infos : List DeviceInventory → List LbDeviceInfo
device_infos [] = []
device_infos (inv ∷ invs) = map (device_info inv.receiver) inv.paired ++ device_infos invs

pub flat : List DeviceInventory → List PairedDevice
flat [] = []
flat (inv ∷ invs) = inv.paired ++ flat invs

-- `len as i32`
pub as_i32 : ℕ → ℤ
as_i32 n = let low = n % 2 ^ 32 in if ltb low (2 ^ 31) then pos low else negsuc (2 ^ 32 - 1 - low)

-- `Box::into_raw` of a boxed slice: an empty one has no block on the heap, only an address that is
-- not null.
pub into_raw : List LbDeviceInfo → Process → Process × ℕ
into_raw [] p = (p, 2)
into_raw (d ∷ ds) p = (record p { next = suc p.next; blocks = (p.next, d ∷ ds) ∷ p.blocks }, p.next)

-- The block at an address is gone.
pub remove_block : ℕ → List (ℕ × List LbDeviceInfo) → List (ℕ × List LbDeviceInfo)
remove_block address [] = []
remove_block address (b ∷ bs) = if b.0 == address then bs else b ∷ remove_block address bs

-- "null pointer: out"
abbrev pub null_out : Text
null_out =
    110 ∷ 117 ∷ 108 ∷ 108 ∷ 32 ∷ 112 ∷ 111 ∷ 105 ∷ 110 ∷ 116 ∷ 101 ∷ 114 ∷ 58 ∷ 32 ∷ 111 ∷ 117 ∷ 116
    ∷ []

-- "invalid index or null pointer: out"
abbrev pub invalid_argument : Text
invalid_argument =
    105 ∷ 110 ∷ 118 ∷ 97 ∷ 108 ∷ 105 ∷ 100 ∷ 32 ∷ 105 ∷ 110 ∷ 100 ∷ 101 ∷ 120 ∷ 32 ∷ 111 ∷ 114 ∷ 32
    ∷ 110 ∷ 117 ∷ 108 ∷ 108 ∷ 32 ∷ 112 ∷ 111 ∷ 105 ∷ 110 ∷ 116 ∷ 101 ∷ 114 ∷ 58 ∷ 32 ∷ 111 ∷ 117
    ∷ 116 ∷ []

-- "device has no battery data"
abbrev pub no_battery_data : Text
no_battery_data =
    100 ∷ 101 ∷ 118 ∷ 105 ∷ 99 ∷ 101 ∷ 32 ∷ 104 ∷ 97 ∷ 115 ∷ 32 ∷ 110 ∷ 111 ∷ 32 ∷ 98 ∷ 97 ∷ 116
    ∷ 116 ∷ 101 ∷ 114 ∷ 121 ∷ 32 ∷ 100 ∷ 97 ∷ 116 ∷ 97 ∷ []

-- "index out of range"
abbrev pub index_out_of_range : Text
index_out_of_range =
    105 ∷ 110 ∷ 100 ∷ 101 ∷ 120 ∷ 32 ∷ 111 ∷ 117 ∷ 116 ∷ 32 ∷ 111 ∷ 102 ∷ 32 ∷ 114 ∷ 97 ∷ 110 ∷ 103
    ∷ 101 ∷ []

-- The returned code, the process and what `out` points to after the call.
abbrev pub Reply : Type 0 → Type 0
Reply A = ℤ × Process × Option A

pub lb_enumerate_devices : Enumerated → Option LbDeviceList → Process → Reply LbDeviceList
lb_enumerate_devices result none p = (negsuc 0, set_last_error null_out p, none)
lb_enumerate_devices (err e) (some out) p = (negsuc 1, set_last_error e p, some out)
lb_enumerate_devices (ok inventories) (some out) p =
    let items = device_infos inventories in
    let raw = into_raw items p in
    (pos 0, raw.0, some (record { devices = raw.1; count = as_i32 (length items) }))

-- What the call does with the device at the index.
pub read_device : Option PairedDevice → LbBatteryInfo → Process → Reply LbBatteryInfo
read_device none out p = (negsuc 3, set_last_error index_out_of_range p, some out)
read_device (some d) out p = elim d.battery [
  | none ↦ (negsuc 2, set_last_error no_battery_data p, some out)
  | some b ↦ (
    pos 0,
    p,
    some (record {
      percentage = b.percentage;
      level = level_to_u8 b.level;
      status = status_to_u8 b.status;
    }),
  )
]

pub lb_read_battery : Enumerated → ℤ → Option LbBatteryInfo → Process → Reply LbBatteryInfo
lb_read_battery result index none p = (negsuc 0, set_last_error invalid_argument p, none)
lb_read_battery result (negsuc i) (some out) p =
    (negsuc 0, set_last_error invalid_argument p, some out)
lb_read_battery (err e) (pos i) (some out) p = (negsuc 1, set_last_error e p, some out)
lb_read_battery (ok inventories) (pos i) (some out) p =
    read_device (get_elem? (flat inventories) i) out p

-- `!list.devices.is_null() && list.count > 0`
is_freed : ℕ → ℤ → Bool
is_freed devices (pos n) = not (devices == 0) && ltb 0 n
is_freed devices (negsuc n) = false

pub lb_free_devices : LbDeviceList → Process → Process
unfolding is_freed
lb_free_devices list p =
    if is_freed list.devices list.count
    then record p { blocks = remove_block list.devices p.blocks }
    else p

-- The bytes at the pointer that `lb_last_error` returns.
pub lb_last_error : Process → List ℕ
lb_last_error p = p.last_error
