-- ===== src/Config/Routes/Runs.antt =====
-- A mouse that had its settings under the slot of its receiver is seen on it, and then sleeps.
use logi_battery.Base.{ℕ, KeyEq, ◌==◌, ==_iff, ◌≡◌, refl, [], ◌∷◌, none, some, arith, inl}
use logi_battery.Keys.Device.{
  DeviceIdentity, DeviceStableId, unit, key, is_physical, route_key, bolt,
}
use logi_battery.Keys.Device.Parse.{parse-key}
use logi_battery.Config.Map.{Text}
use logi_battery.Config.Map.Laws.{get-nil}
use logi_battery.Config.Device.{default_device}
use logi_battery.Config.Routes.{
  Config, resolve_device_key, adopt_route, repair_duplicate_routes, identity_key, find_owner,
}
use logi_battery.Config.Routes.Resolve.{
  IsOneOwner, adopt_route-IsOneOwner, resolve_device_key-adopt_route,
}
use logi_battery.Config.Routes.Repair.{repair_duplicate_routes-IsOneOwner}

instance value-KeyEq : KeyEq ℕ
value-KeyEq = record { same = ◌==◌; same_iff = ==_iff }

abbrev mouse : DeviceIdentity
mouse = unit (0x6b ∷ 0xe9 ∷ 0xd3 ∷ 0x00 ∷ [])

abbrev slot : DeviceStableId
slot = bolt (b'a' ∷ b'b' ∷ []) 1

abbrev legacy_only : Config ℕ
legacy_only = record {
  devices = (route_key slot, record (default_device 0) { dpi = some 1600 }) ∷ [];
  selected_device = some (route_key slot);
}

resolve_device_key-adopt_route_example :
    resolve_device_key value-KeyEq 0
      (adopt_route value-KeyEq 0 legacy_only (key mouse) (route_key slot) (some 7)).1
      slot
      none
    ≡ some (key mouse)
unfolding identity_key is_physical
resolve_device_key-adopt_route_example =
    resolve_device_key-adopt_route value-KeyEq 0 legacy_only (key mouse) slot none (some 7)
      (get-nil (route_key slot), tt) (parse-key mouse (omega arith)) (inl refl)

adopt_route-IsOneOwner_example :
    IsOneOwner
      (adopt_route value-KeyEq 0
        (repair_duplicate_routes legacy_only)
        (key mouse)
        (route_key slot)
        (some 7)).1.devices
adopt_route-IsOneOwner_example =
    adopt_route-IsOneOwner value-KeyEq 0 (repair_duplicate_routes legacy_only) (key mouse)
      (route_key slot) (some 7) (repair_duplicate_routes-IsOneOwner legacy_only).0

repair_duplicate_routes-IsOneOwner_example :
    IsOneOwner (repair_duplicate_routes legacy_only).devices
    × ((r : Text)
        → find_owner r (repair_duplicate_routes legacy_only).devices
          ≡ find_owner r legacy_only.devices)
repair_duplicate_routes-IsOneOwner_example = repair_duplicate_routes-IsOneOwner legacy_only
