-- ===== src/Config/Routes/Resolve.antt =====
-- The entry that a route is found by: one at most, and the one that last adopted it.
use logi_battery.Base.{
  [], ◌∷◌, Option, none, some, true, false, ◌≡◌, ◌∙◌, refl, ap, KeyEq, arith, Bool-cases,
  Option-cases, inl, inr, ◌⊎◌,
}
use logi_battery.Keys.Text.{same_text}
use logi_battery.Keys.Device.{DeviceIdentity, DeviceStableId, parse, route_key, physical_key}
use logi_battery.Config.Map.{Text, Map, get}
use logi_battery.Config.Map.Laws.{same_text_iff, same_text_refl, same_get, get-nil}
use logi_battery.Config.Map.Distinct.{IsMap}
use logi_battery.Config.Device.{DeviceConfig}
use logi_battery.Config.Routes.{
  Config, owns, find_owner, adopt_route, identity_key, resolve_device_key,
}
use logi_battery.Config.Routes.Owners.{has, has-cons, owned-adopt_route}
use logi_battery.Config.Routes.Entries.{adopt_route-IsMap, missing-adopt_route}

module _ {V : Type 0} where
  -- No route is a link of two entries.
  abbrev pub IsOneOwner : Map (DeviceConfig V) → Type 0
  IsOneOwner m = (r j k : Text) → has r (get j m) ≡ true → has r (get k m) ≡ true → j ≡ k

  find_owner-some :
      (r j : Text) (m : Map (DeviceConfig V))
      → IsMap m
      → find_owner r m ≡ some j
      → has r (get j m) ≡ true
  unfolding find_owner
  find_owner-some r j [] w e = ground arith
  find_owner-some r j ((k, d) ∷ m) w e = elim (Bool-cases (owns r d)) [
    | inl t ↦ ground (arith, has-cons r j k d m, same_text_iff j k)
    | inr n ↦
        (let later = find_owner-some r j m w.1 in
          let apart = same_get k j m in ground (arith, has-cons r j k d m, w.0))
  ]

  find_owner-none :
      (r j : Text) (m : Map (DeviceConfig V)) → find_owner r m ≡ none → has r (get j m) ≡ false
  unfolding find_owner
  find_owner-none r j [] e = rw (get-nil {A = DeviceConfig V} j) refl
  find_owner-none r j ((k, d) ∷ m) e = ground (arith, has-cons r j k d m, find_owner-none r j m)

module _ {V : Type 0} (eq : KeyEq V) (ring : V) where
  -- If no route was a link of two entries, none is after a device was sighted on one.
  pub adopt_route-IsOneOwner :
      (self : Config V) (canonical route : Text) (capabilities : Option V)
      → IsOneOwner self.devices
      → IsOneOwner (adopt_route eq ring self canonical route capabilities).1.devices
  adopt_route-IsOneOwner self canonical route capabilities one r j k hj hk = ground (
    arith,
    owned-adopt_route eq ring self canonical route capabilities r j,
    owned-adopt_route eq ring self canonical route capabilities r k,
    one r j k,
    one r canonical k,
    one r j canonical,
    one r route k,
    one r j route,
    same_text_iff j canonical,
    same_text_iff k canonical,
    same_text_iff j route,
    same_text_iff k route,
  )

  find_owner-adopt_route :
      (self : Config V) (canonical route : Text) (capabilities : Option V)
      → IsMap self.devices
      → find_owner route (adopt_route eq ring self canonical route capabilities).1.devices
        ≡ some canonical
  find_owner-adopt_route self canonical route capabilities w =
      let m = (adopt_route eq ring self canonical route capabilities).1.devices in
      let wm = adopt_route-IsMap eq ring self canonical route capabilities w in
      elim (Option-cases (find_owner route m)) [
        | inl e ↦ ground (
          arith,
          owned-adopt_route eq ring self canonical route capabilities route canonical,
          find_owner-none route canonical m e,
          same_text_refl route,
          same_text_refl canonical,
        )
        | inr (j, e) ↦
            e
            ∙ ap some (
                ground (
                  arith,
                  owned-adopt_route eq ring self canonical route capabilities route j,
                  find_owner-some route j m wm e,
                  same_text_refl route,
                  same_text_iff j canonical,
                ))
      ]

  -- What is read of the device: nothing that it could be known by, or its key, over a receiver.
  abbrev pub IsReadAs : DeviceStableId → Option DeviceIdentity → Text → Type 0
  IsReadAs stable identity canonical =
      (identity_key identity ≡ none)
      ⊎ ((identity_key identity ≡ some canonical) × (physical_key stable ≡ some (route_key stable)))

  -- Once a device was sighted on a route, its settings are found on that route under its key: while it
  -- sleeps, when nothing that it could be known by is read of it, and also when its key is read and the
  -- route is itself a key, as that of a receiver's slot. The keys of the entries are distinct, and the
  -- key is one that is read as the key of a physical device.
  pub resolve_device_key-adopt_route :
      (self : Config V) (canonical : Text) (stable : DeviceStableId)
      (identity : Option DeviceIdentity) (capabilities : Option V)
      → IsMap self.devices
      → parse canonical ≡ some canonical
      → IsReadAs stable identity canonical
      → resolve_device_key eq ring
          (adopt_route eq ring self canonical (route_key stable) capabilities).1
          stable
          identity
        ≡ some canonical
  unfolding resolve_device_key
  resolve_device_key-adopt_route self canonical stable identity capabilities w p (inl e) =
      rw (e, find_owner-adopt_route self canonical (route_key stable) capabilities w, p) refl
  resolve_device_key-adopt_route self canonical stable identity capabilities w p (inr (e, q)) =
      elim (Bool-cases (same_text (route_key stable) canonical)) [
        | inl t ↦ rw (e, q, t) refl
        | inr n ↦
            rw
              (
                e,
                q,
                n,
                missing-adopt_route eq ring self canonical (route_key stable) capabilities n,
              )
              (ground arith)
      ]
