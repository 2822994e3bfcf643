-- ===== src/Ffi/Reads.antt =====
-- `lb_read_battery` beside the list that `lb_enumerate_devices` fills.
use logi_battery.Base.{
  ℕ, zero, suc, ◌≡◌, ◌⊎◌, refl, Option, none, some, List, [], ◌∷◌, ◌++◌, map, get_elem?, inl, inr,
}
use logi_battery.Base.Int.{pos, negsuc}
use logi_battery.Inventory.Model.{DeviceInventory, PairedDevice, ReceiverInfo}
use logi_battery.Ffi.{
  LbDeviceInfo, LbBatteryInfo, Process, Reply, ok, set_last_error, device_info, device_infos, flat,
  read_device, lb_read_battery, no_battery_data, index_out_of_range, battery_fields,
}

-- What a call for an index says of the entry that the list has there.
abbrev pub IsReadOf : Option LbDeviceInfo → Process → LbBatteryInfo → Reply LbBatteryInfo → Type 0
IsReadOf none p out r = r ≡ (negsuc 3, set_last_error index_out_of_range p, some out)
IsReadOf (some d) p out r =
    ((d.has_battery ≡ 1)
      × (r ≡ (
        pos 0,
        p,
        some (record { percentage = d.percentage; level = d.level; status = d.status }),
      )))
    ⊎ ((d.has_battery ≡ 0) × (r ≡ (negsuc 2, set_last_error no_battery_data p, some out)))

read_device-IsReadOf :
    (receiver : ReceiverInfo) (d : PairedDevice) (out : LbBatteryInfo) (p : Process)
    → IsReadOf (some (device_info receiver d)) p out (read_device (some d) out p)
unfolding read_device device_info battery_fields
read_device-IsReadOf receiver d out p =
    elim d.battery
      as (λ b.
        IsReadOf (some (device_info receiver (record d { battery = b }))) p out
          (read_device (some (record d { battery = b })) out p)) [
            | none ↦ inr (refl, refl)
            | some b ↦ inl (refl, refl)
          ]

paired-IsReadOf :
    (receiver : ReceiverInfo) (ds : List PairedDevice) (infos : List LbDeviceInfo)
    (rest : List PairedDevice) (out : LbBatteryInfo) (p : Process)
    → ((i : ℕ) → IsReadOf (get_elem? infos i) p out (read_device (get_elem? rest i) out p))
    → (i : ℕ)
    → IsReadOf
        (get_elem? (map (device_info receiver) ds ++ infos) i)
        p
        out
        (read_device (get_elem? (ds ++ rest) i) out p)
paired-IsReadOf receiver [] infos rest out p h i = h i
paired-IsReadOf receiver (d ∷ ds) infos rest out p h zero = read_device-IsReadOf receiver d out p
paired-IsReadOf receiver (d ∷ ds) infos rest out p h (suc i) =
    paired-IsReadOf receiver ds infos rest out p h i

flat-IsReadOf :
    (invs : List DeviceInventory) (out : LbBatteryInfo) (p : Process) (i : ℕ)
    → IsReadOf (get_elem? (device_infos invs) i) p out (read_device (get_elem? (flat invs) i) out p)
unfolding device_infos flat read_device
flat-IsReadOf [] out p i = refl
flat-IsReadOf (inv ∷ invs) out p i =
    paired-IsReadOf inv.receiver inv.paired (device_infos invs) (flat invs) out p
      (flat-IsReadOf invs out p) i

-- For the same inventories, `lb_read_battery` at an index answers for the entry that
-- `lb_enumerate_devices` lists there: code 0 with the entry's percentage, level and status if the entry
-- has a battery; code -3 with an error text if it has none; code -4 with an error text past the end. A
-- call that does not return 0 leaves `out` as it was.
pub lb_read_battery-IsReadOf :
    (invs : List DeviceInventory) (i : ℕ) (out : LbBatteryInfo) (p : Process)
    → IsReadOf
        (get_elem? (device_infos invs) i)
        p
        out
        (lb_read_battery (ok invs) (pos i) (some out) p)
unfolding lb_read_battery
lb_read_battery-IsReadOf invs i out p = flat-IsReadOf invs out p i
