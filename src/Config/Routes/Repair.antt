-- ===== src/Config/Routes/Repair.antt =====
-- The repair of the route index: each route keeps the first entry that it is a link of.
use logi_battery.Base.{
  List, [], ◌∷◌, none, some, true, false, not, ◌&&◌, ◌||◌, ◌≡◌, ◌∙◌, refl, ap, if◌then◌else◌, arith,
  Bool-cases, inl, inr,
}
use logi_battery.Keys.Text.{same_text}
use logi_battery.Config.Map.{Text, Map, get, contains_key}
use logi_battery.Config.Map.Laws.{same_text_iff, get-nil, contains_key-cons, contains_key-nil}
use logi_battery.Config.Device.{LinkConfig, DeviceConfig}
use logi_battery.Config.Routes.{
  Config, is_owned, find_owner, retain_unowned, repair_all, repair_duplicate_routes,
}
use logi_battery.Config.Routes.Owners.{has, has-cons}
use logi_battery.Config.Routes.Resolve.{IsOneOwner}

module _ {V : Type 0} where
  -- What is retained of the links of an entry, and which routes then have an owner.
  retain_unowned-owned :
      (r : Text) (owners : List Text) (links : Map (LinkConfig V))
      → (is_owned r (retain_unowned owners links).0 ≡ (is_owned r owners || contains_key r links))
        × (contains_key r (retain_unowned owners links).1
            ≡ (contains_key r links && not (is_owned r owners)))
  unfolding retain_unowned
  retain_unowned-owned r owners [] =
      rw (contains_key-nil (LinkConfig V) r) (ground arith, ground arith)
  retain_unowned-owned r owners ((route, link) ∷ links) =
      let cons = contains_key-cons r route link links in
      let same_owned = λ (e : same_text r route ≡ true).
        ap (λ i. is_owned i owners) ((same_text_iff r route).0 e) in
      elim (Bool-cases (is_owned route owners)) [
        | inl t ↦
            (let rest = retain_unowned-owned r owners links in
              rw t (
                ground (arith, rest.0, cons, same_owned),
                ground (arith, rest.1, cons, same_owned),
              ))
        | inr n ↦
            (let rest = retain_unowned-owned r (route ∷ owners) links in
              rw n (
                ground (arith, rest.0, cons, same_owned),
                contains_key-cons r route link (retain_unowned (route ∷ owners) links).1
                    ∙ ground (arith, rest.1, cons, same_owned),
              ))
      ]

  find_owner-repair_all :
      (r : Text) (owners : List Text) (m : Map (DeviceConfig V))
      → find_owner r (repair_all owners m) ≡ (if is_owned r owners then none else find_owner r m)
  unfolding repair_all find_owner
  find_owner-repair_all r owners [] = ground arith
  find_owner-repair_all r owners ((k, d) ∷ m) = ground (
    arith,
    retain_unowned-owned r owners d.links,
    find_owner-repair_all r (retain_unowned owners d.links).0 m,
  )

  unowned-repair_all :
      (r k : Text) (owners : List Text) (m : Map (DeviceConfig V))
      → is_owned r owners ≡ true
      → has r (get k (repair_all owners m)) ≡ false
  unfolding repair_all
  unowned-repair_all r k owners [] e = rw (get-nil {A = DeviceConfig V} k) refl
  unowned-repair_all r k owners ((j, d) ∷ m) e =
      has-cons r k j _ (repair_all (retain_unowned owners d.links).0 m)
      ∙ ground (
        arith,
        retain_unowned-owned r owners d.links,
        unowned-repair_all r k (retain_unowned owners d.links).0 m,
      )

  first-repair_all :
      (r k : Text) (owners : List Text) (m : Map (DeviceConfig V))
      → has r (get k (repair_all owners m)) ≡ true
      → find_owner r (repair_all owners m) ≡ some k
  unfolding repair_all find_owner
  first-repair_all r k owners [] e = ground (arith, get-nil {A = DeviceConfig V} k)
  first-repair_all r k owners ((j, d) ∷ m) e = ground (
    arith,
    has-cons r k j (record d { links = (retain_unowned owners d.links).1 })
        (repair_all (retain_unowned owners d.links).0 m),
    retain_unowned-owned r owners d.links,
    first-repair_all r k (retain_unowned owners d.links).0 m,
    unowned-repair_all r k (retain_unowned owners d.links).0 m,
    same_text_iff k j,
  )

  -- The repair leaves no route as a link of two entries, and each route as a link of the first entry
  -- that it was a link of before, and so without an owner if it had none.
  pub repair_duplicate_routes-IsOneOwner :
      (self : Config V)
      → IsOneOwner (repair_duplicate_routes self).devices
        × ((r : Text)
            → find_owner r (repair_duplicate_routes self).devices ≡ find_owner r self.devices)
  unfolding repair_duplicate_routes
  repair_duplicate_routes-IsOneOwner self = (
    λ r j k hj hk.
        ground
          (arith, first-repair_all r j [] self.devices hj, first-repair_all r k [] self.devices hk),
    λ r. find_owner-repair_all r [] self.devices,
  )
