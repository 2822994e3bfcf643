-- ===== src/Config/Routes/Owners.antt =====
-- Which entries a route is a link of, once it was adopted.
use logi_battery.Base.{
  [], ◌∷◌, Option, none, some, Bool, true, false, not, ◌&&◌, ◌||◌, ◌≡◌, ◌∙◌, refl, ap,
  if◌then◌else◌, KeyEq, arith, Bool-cases, inl, inr,
}
use logi_battery.Keys.Text.{same_text}
use logi_battery.Config.Map.{Text, Map, get, value_or, remove, or_insert, modify}
use logi_battery.Config.Map.Laws.{
  same_text_iff, contains_key-nil, get-remove, get-cons, get-nil, same_contains_key,
  get-modify-or_insert, map_value, contains_key-remove, contains_key-or_insert, contains_key-modify,
}
use logi_battery.Config.Device.{LinkConfig, DeviceConfig, no_link, default_device, fold}
use logi_battery.Config.Device.Kept.{owns-fold}
use logi_battery.Config.Routes.{
  Config, owns, remove_route, map_values, repoint_device, repoint_references, sighted, adopt_with,
  adopt_route, measured, taken,
}

module _ {V : Type 0} where
  -- Whether an entry, where there is one, has a route among its links.
  abbrev pub has : Text → Option (DeviceConfig V) → Bool
  has r none = false
  has r (some d) = owns r d

  pub has-cons :
      (r k j : Text) (d : DeviceConfig V) (m : Map (DeviceConfig V))
      → has r (get k ((j, d) ∷ m)) ≡ (if same_text k j then owns r d else has r (get k m))
  has-cons r k j d m = rw (get-cons k j d m) (chosen (same_text k j))
    where
      chosen :
          (b : Bool)
          → has r (if b then some d else get k m) ≡ (if b then owns r d else has r (get k m))
      chosen true = refl
      chosen false = refl

  owned-remove_route :
      (canonical route r k : Text) (m : Map (DeviceConfig V))
      → has r (get k (remove_route canonical route m).1)
        ≡ (has r (get k m) && (same_text k canonical || not (same_text r route)))
  unfolding remove_route
  owned-remove_route canonical route r k [] = rw (get-nil {A = DeviceConfig V} k) refl
  owned-remove_route canonical route r k ((j, d) ∷ m) =
      elim (Bool-cases (not (same_text j canonical) && owns route d)) [
        | inl t ↦ rw t (
            has-cons r k j (record d { links = remove route d.links })
              (remove_route canonical route m).1
            ∙ ground (
              arith,
              has-cons r k j d m,
              contains_key-remove route r d.links,
              same_text_iff k j,
              same_text_iff k canonical,
              same_text_iff j canonical,
              owned-remove_route canonical route r k m,
            ))
        | inr n ↦ rw n (
            has-cons r k j d (remove_route canonical route m).1
            ∙ ground (
              arith,
              has-cons r k j d m,
              same_contains_key route r d.links,
              same_text_iff k j,
              same_text_iff k canonical,
              same_text_iff j canonical,
              owned-remove_route canonical route r k m,
            ))
      ]

  pub get-map_values :
      (f : DeviceConfig V → DeviceConfig V) (k : Text) (m : Map (DeviceConfig V))
      → get k (map_values f m) ≡ map_value f (get k m)
  unfolding map_values
  get-map_values f k [] = rw (get-nil {A = DeviceConfig V} k) refl
  get-map_values f k ((j, d) ∷ m) =
      get-cons k j (f d) (map_values f m) ∙ ground (arith, get-cons k j d m, get-map_values f k m)

  has-repoint_device :
      (old new r : Text) (o : Option (DeviceConfig V))
      → has r (map_value (repoint_device old new) o) ≡ has r o
  has-repoint_device old new r none = refl
  has-repoint_device old new r (some d) = refl

module _ {V : Type 0} (eq : KeyEq V) (ring : V) where
  owns-sighted :
      (route r : Text) (capabilities : Option V) (d : DeviceConfig V)
      → owns r (sighted eq ring route capabilities d) ≡ (same_text r route || owns r d)
  unfolding sighted
  owns-sighted route r capabilities d =
      contains_key-modify route r (measured eq ring capabilities) (or_insert route no_link d.links)
      ∙ contains_key-or_insert route r no_link d.links

  -- A change of one entry, made if it is missing, that adds a route or not.
  owned-modify :
      (c r k : Text) (f : DeviceConfig V → DeviceConfig V) (added : Bool) (m : Map (DeviceConfig V))
      → ((d : DeviceConfig V) → owns r (f d) ≡ (added || owns r d))
      → has r (get k (modify c f (or_insert c (default_device ring) m)))
        ≡ ((same_text k c && added) || has r (get k m))
  owned-modify c r k f added m h =
      ap (has r) (get-modify-or_insert c k f (default_device ring) m)
      ∙ on_entry (same_text k c) (get k m)
    where
      on_entry :
          (b : Bool) (o : Option (DeviceConfig V))
          → has r (if b then some (f (value_or (default_device ring) o)) else o)
            ≡ ((b && added) || has r o)
      on_entry true none =
          h (default_device ring) ∙ ap (λ b. added || b) (contains_key-nil (LinkConfig V) r)
      on_entry true (some d) = h d
      on_entry false o = refl

  owned-adopt_with :
      (canonical route : Text) (capabilities : Option V) (changed : Bool)
      (legacy : Option (DeviceConfig V)) (self : Config V) (r k : Text)
      → has r
          (get k (adopt_with eq ring canonical route capabilities changed legacy self).1.devices)
        ≡ ((same_text k canonical && (same_text r route || has r legacy))
            || has r (get k self.devices))
  unfolding adopt_with repoint_references
  owned-adopt_with canonical route capabilities changed none self r k =
      owned-modify canonical r k (sighted eq ring route capabilities) (same_text r route)
        self.devices (owns-sighted route r capabilities)
      ∙ ground arith
  owned-adopt_with canonical route capabilities changed (some legacy) self r k =
      rw
        (get-map_values (repoint_device route canonical) k (
          modify canonical (λ d. fold eq ring (sighted eq ring route capabilities d) legacy route)
            (or_insert canonical (default_device ring) self.devices)))
        (has-repoint_device route canonical r _
          ∙ owned-modify canonical r k
              (λ d. fold eq ring (sighted eq ring route capabilities d) legacy route)
              (same_text r route || owns r legacy) self.devices
              (λ d.
                owns-fold eq ring (sighted eq ring route capabilities d) legacy route r
                ∙ ground (arith, owns-sighted route r capabilities d)))

  owned-taken :
      (canonical route r k : Text) (m : Map (DeviceConfig V))
      → (has r (taken eq ring canonical route m).0
          ≡ (not (same_text route canonical) && has r (get route m)))
        × (has r (get k (taken eq ring canonical route m).1)
            ≡ (has r (get k m) && (same_text route canonical || not (same_text k route))))
  owned-taken canonical route r k m = elim (Bool-cases (same_text route canonical)) [
    | inl t ↦ rw t (refl, ground arith)
    | inr n ↦ rw n (refl, ap (has r) (get-remove route k m) ∙ ground arith)
  ]

  -- Where a route is found once a device was sighted on one: the route of the sighting is a link of the
  -- entry of the device and of no other. Any other route is a link of that entry exactly if it was
  -- before, or was a link of the entry that was kept under the route of the sighting; that one, if
  -- it is another entry, is gone, and of all others the other routes are links as before.
  pub owned-adopt_route :
      (self : Config V) (canonical route : Text) (capabilities : Option V) (r k : Text)
      → has r (get k (adopt_route eq ring self canonical route capabilities).1.devices) ≡ (
          if same_text k canonical
          then same_text r route || has r (get route self.devices) || has r (get k self.devices)
          else has r (get k self.devices) && not (same_text r route) && not (same_text k route))
  unfolding adopt_route
  owned-adopt_route self canonical route capabilities r k =
      let m = remove_route canonical route self.devices in
      let t = taken eq ring canonical route m.1 in
      owned-adopt_with canonical route capabilities m.0 t.0 (record self { devices = t.1 }) r k
      ∙ ground (
        arith,
        owned-taken canonical route r k m.1,
        owned-remove_route canonical route r k self.devices,
        owned-remove_route canonical route r route self.devices,
        same_text_iff k canonical,
        same_text_iff route canonical,
        same_text_iff k route,
      )
