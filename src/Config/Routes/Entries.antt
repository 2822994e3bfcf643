-- ===== src/Config/Routes/Entries.antt =====
-- The keys of the entries stay distinct, and the entry that was kept under a route is gone.
use logi_battery.Base.{
  [], ◌∷◌, Option, none, some, Bool, false, not, ◌&&◌, ◌≡◌, ◌∙◌, refl, KeyEq, arith, Bool-cases,
  inl, inr,
}
use logi_battery.Keys.Text.{same_text}
use logi_battery.Config.Map.{Text, Map, get, remove}
use logi_battery.Config.Map.Laws.{same_text_refl, get-modify-or_insert, get-remove, get-cons}
use logi_battery.Config.Map.Distinct.{IsMap, modify-IsMap, or_insert-IsMap, remove-IsMap}
use logi_battery.Config.Device.{DeviceConfig, default_device, fold}
use logi_battery.Config.Routes.{
  Config, owns, remove_route, map_values, repoint_references, sighted, adopt_with, adopt_route,
  taken,
}
use logi_battery.Config.Routes.Owners.{get-map_values}

module _ {V : Type 0} where
  missing-remove_route :
      (canonical route k : Text) (m : Map (DeviceConfig V))
      → get k m ≡ none
      → get k (remove_route canonical route m).1 ≡ none
  unfolding remove_route
  missing-remove_route canonical route k [] e = e
  missing-remove_route canonical route k ((j, d) ∷ m) e =
      elim (Bool-cases (not (same_text j canonical) && owns route d)) [
        | inl t ↦ rw t (
            get-cons k j (record d { links = remove route d.links })
              (remove_route canonical route m).1
            ∙ ground (arith, get-cons k j d m, missing-remove_route canonical route k m))
        | inr n ↦ rw n (
            get-cons k j d (remove_route canonical route m).1
            ∙ ground (arith, get-cons k j d m, missing-remove_route canonical route k m))
      ]

  remove_route-IsMap :
      (canonical route : Text) (m : Map (DeviceConfig V))
      → IsMap m
      → IsMap (remove_route canonical route m).1
  unfolding remove_route
  remove_route-IsMap canonical route [] w = tt
  remove_route-IsMap canonical route ((k, d) ∷ m) w =
      elim (Bool-cases (not (same_text k canonical) && owns route d)) [
        | inl t ↦
            rw t (
              missing-remove_route canonical route k m w.0,
              remove_route-IsMap canonical route m w.1,
            )
        | inr n ↦
            rw n (
              missing-remove_route canonical route k m w.0,
              remove_route-IsMap canonical route m w.1,
            )
      ]

  map_values-IsMap :
      (f : DeviceConfig V → DeviceConfig V) (m : Map (DeviceConfig V))
      → IsMap m
      → IsMap (map_values f m)
  unfolding map_values
  map_values-IsMap f [] w = tt
  map_values-IsMap f ((k, d) ∷ m) w = (get-map_values f k m ∙ rw w.0 refl, map_values-IsMap f m w.1)

module _ {V : Type 0} (eq : KeyEq V) (ring : V) where
  adopt_with-IsMap :
      (canonical route : Text) (capabilities : Option V) (changed : Bool)
      (legacy : Option (DeviceConfig V)) (self : Config V)
      → IsMap self.devices
      → IsMap (adopt_with eq ring canonical route capabilities changed legacy self).1.devices
  unfolding adopt_with repoint_references
  adopt_with-IsMap canonical route capabilities changed none self w =
      modify-IsMap canonical _ _ (or_insert-IsMap canonical _ self.devices w)
  adopt_with-IsMap canonical route capabilities changed (some legacy) self w =
      map_values-IsMap _ _ (modify-IsMap canonical _ _ (or_insert-IsMap canonical _ self.devices w))

  taken-IsMap :
      (canonical route : Text) (m : Map (DeviceConfig V))
      → IsMap m
      → IsMap (taken eq ring canonical route m).1
  taken-IsMap canonical route m w = elim (Bool-cases (same_text route canonical)) [
    | inl t ↦ rw t w
    | inr n ↦ rw n (remove-IsMap route m w)
  ]

  pub adopt_route-IsMap :
      (self : Config V) (canonical route : Text) (capabilities : Option V)
      → IsMap self.devices
      → IsMap (adopt_route eq ring self canonical route capabilities).1.devices
  unfolding adopt_route
  adopt_route-IsMap self canonical route capabilities w =
      let m = remove_route canonical route self.devices in
      let t = taken eq ring canonical route m.1 in
      adopt_with-IsMap canonical route capabilities m.0 t.0 (record self { devices = t.1 })
        (taken-IsMap canonical route m.1 (remove_route-IsMap canonical route self.devices w))

  -- The entry that was kept under the route is gone.
  missing-adopt_with :
      (canonical route : Text) (capabilities : Option V) (changed : Bool)
      (legacy : Option (DeviceConfig V)) (self : Config V)
      → same_text route canonical ≡ false
      → get route self.devices ≡ none
      → get route (adopt_with eq ring canonical route capabilities changed legacy self).1.devices
        ≡ none
  unfolding adopt_with repoint_references
  missing-adopt_with canonical route capabilities changed none self n e =
      get-modify-or_insert canonical route _ _ self.devices ∙ rw (n, e) refl
  missing-adopt_with canonical route capabilities changed (some legacy) self n e =
      get-map_values _ route _
      ∙ rw
          (
            get-modify-or_insert canonical route
                (λ d. fold eq ring (sighted eq ring route capabilities d) legacy route)
                (default_device ring) self.devices,
            n,
            e,
          )
          refl

  pub missing-adopt_route :
      (self : Config V) (canonical route : Text) (capabilities : Option V)
      → same_text route canonical ≡ false
      → get route (adopt_route eq ring self canonical route capabilities).1.devices ≡ none
  unfolding adopt_route
  missing-adopt_route self canonical route capabilities n =
      let m = remove_route canonical route self.devices in
      let t = taken eq ring canonical route m.1 in
      missing-adopt_with canonical route capabilities m.0 t.0 (record self { devices = t.1 }) n
        (rw n (get-remove route route m.1 ∙ rw (same_text_refl route) refl))
