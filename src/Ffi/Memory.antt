-- ===== src/Ffi/Memory.antt =====
-- The array that `lb_enumerate_devices` hands out, and its release by `lb_free_devices`.
use logi_battery.Base.{
  ℕ, ◌^◌, ◌≤◌, ◌<◌, ◌≡◌, refl, sym, subst, Option, none, some, List, [], ◌∷◌, length, ◌==◌,
  if◌then◌else◌, arith,
}
use logi_battery.Base.Int.{pos, negsuc}
use logi_battery.Inventory.Model.{DeviceInventory}
use logi_battery.Ffi.{
  LbDeviceInfo, LbDeviceList, Process, Reply, ok, device_infos, as_i32, is_freed, into_raw,
  remove_block, lb_enumerate_devices, lb_free_devices,
}

-- What C reads at an address for a count: nothing for 0, else the block there, which must have that
-- many entries.
abbrev pub find_block : ℕ → List (ℕ × List LbDeviceInfo) → List LbDeviceInfo
find_block address [] = []
find_block address (b ∷ bs) = if b.0 == address then b.1 else find_block address bs

abbrev pub slice_at : LbDeviceList → Process → Option (List LbDeviceInfo)
slice_at list p =
    let found = find_block list.devices p.blocks in
    elim list.count [
      | pos n ↦ (if n == 0 then some [] else if length found == n then some found else none)
      | negsuc n ↦ none
    ]

as_i32-pos : (n : ℕ) → n < 2 ^ 31 → as_i32 n ≡ pos n
unfolding as_i32
as_i32-pos n h = ground arith

abbrev pub IsHandedOut : List LbDeviceInfo → Process → Process → LbDeviceList → Type 0
IsHandedOut items before after list =
    (list.count ≡ pos (length items))
    × (slice_at list after ≡ some items)
    × ((lb_free_devices list after).blocks ≡ before.blocks)
    × (after.last_error ≡ before.last_error)

abbrev pub IsListing : List LbDeviceInfo → Process → Reply LbDeviceList → Type 0
IsListing items before (code, after, none) = ⊥
IsListing items before (code, after, some list) =
    (code ≡ pos 0) × IsHandedOut items before after list

into_raw-IsHandedOut :
    (items : List LbDeviceInfo) (p : Process)
    → 1 ≤ p.next
    → let raw = into_raw items p in
      IsHandedOut items p raw.0 (record { devices = raw.1; count = pos (length items) })
unfolding into_raw lb_free_devices remove_block is_freed
into_raw-IsHandedOut [] p h = (refl, refl, refl, refl)
into_raw-IsHandedOut (d ∷ ds) p h = (refl, ground arith, ground arith, refl)

-- A call of `lb_enumerate_devices` that gets fewer than 2^31 devices returns 0 and sets `out` to their
-- number and to memory that holds exactly the entries of the devices; `lb_free_devices` of that list
-- leaves the heap with the blocks that it had before the call. The last error stays as it was. The
-- hypothesis on `next` is that the heap never hands out the null pointer.
pub lb_enumerate_devices-IsListing :
    (invs : List DeviceInventory) (out : LbDeviceList) (p : Process)
    → 1 ≤ p.next
    → length (device_infos invs) < 2 ^ 31
    → IsListing (device_infos invs) p (lb_enumerate_devices (ok invs) (some out) p)
unfolding lb_enumerate_devices
lb_enumerate_devices-IsListing invs out p h len =
    let items = device_infos invs in
    let raw = into_raw items p in
    (
      refl,
      subst (λ c. IsHandedOut items p raw.0 (record { devices = raw.1; count = c }))
          (sym (as_i32-pos (length items) len)) (into_raw-IsHandedOut items p h),
    )
