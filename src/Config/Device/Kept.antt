-- ===== src/Config/Device/Kept.antt =====
-- What holds on the routes of a device once an entry that was kept under one of them was folded into its own.
use logi_battery.Base.{
  Option, none, some, Bool, true, false, ◌≡◌, refl, ap, ◌∙◌, if◌then◌else◌, or_else, KeyEq, arith,
  not, ◌&&◌, ◌||◌,
}
use logi_battery.Keys.Text.{same_text}
use logi_battery.Config.Map.{Text, get, contains_key, value_or, or_insert, or_insert_all}
use logi_battery.Config.Map.Laws.{
  get-modify-or_insert, contains_key-modify, contains_key-or_insert, contains_key-or_insert_all,
  get-or_insert_all,
}
use logi_battery.Config.Device.{
  LinkOverrides, LinkConfig, DeviceConfig, no_link, no_overrides, overrides_of, bool_or,
  link_overrides, effective_dpi, effective_lighting, effective_smartshift,
  effective_scroll_resolution, effective_invert_scroll, overridden, folded_link, fold,
}

module _ {V : Type 0} (eq : KeyEq V) (ring : V) where
  -- The link of a route in the folded entry.
  get-fold :
      (device legacy : DeviceConfig V) (route r : Text)
      → get r (fold eq ring device legacy route).links ≡ (
          if same_text r route
          then some (
              folded_link eq ring device legacy
                (value_or no_link (or_else (get r device.links) (get r legacy.links))))
          else or_else (get r device.links) (get r legacy.links))
  unfolding fold
  get-fold device legacy route r =
      get-modify-or_insert route r (folded_link eq ring device legacy) no_link
        (or_insert_all legacy.links device.links)
      ∙ rw (get-or_insert_all legacy.links device.links r) refl

  overridden_route :
      (ours theirs : Option V)
      → or_else (overridden eq ring ours theirs none) (or_else ours theirs) ≡ or_else theirs ours
  overridden_route none none = refl
  overridden_route none (some b) = refl
  overridden_route (some a) none = refl
  overridden_route (some a) (some b) = ground (arith, eq.same_iff a b)

  -- The overrides of a route in the folded entry.
  folded_overrides : DeviceConfig V → DeviceConfig V → LinkOverrides V → LinkOverrides V
  unfolding folded_link
  folded_overrides device legacy was =
      (folded_link eq ring device legacy
        (record { capabilities = none; overrides = was })).overrides

  folded_or_kept :
      (device legacy : DeviceConfig V) (b : Bool) (link : Option (LinkConfig V))
      → overrides_of (
          if b
          then some (folded_link eq ring device legacy (value_or no_link (or_else link none)))
          else or_else link none)
        ≡ (if b then folded_overrides device legacy (overrides_of link) else overrides_of link)
  unfolding folded_overrides folded_link
  folded_or_kept device legacy true none = refl
  folded_or_kept device legacy true (some link) = refl
  folded_or_kept device legacy false none = refl
  folded_or_kept device legacy false (some link) = refl

  link_overrides-fold :
      (device legacy : DeviceConfig V) (route r : Text)
      → get r legacy.links ≡ none
      → link_overrides (fold eq ring device legacy route) r ≡ (
          if same_text r route
          then folded_overrides device legacy (link_overrides device r)
          else link_overrides device r)
  unfolding link_overrides folded_overrides
  link_overrides-fold device legacy route r e =
      rw (get-fold device legacy route r)
        (rw e (folded_or_kept device legacy (same_text r route) (get r device.links)))

  -- Of a setting: on the route of the legacy entry its value comes first, elsewhere last.
  abbrev merged : Bool → Option V → Option V → Option V
  merged b ours theirs = if b then or_else theirs ours else or_else ours theirs

  kept :
      (b : Bool) (ours theirs was : Option V)
      → (b ≡ true → was ≡ none)
      → or_else (if b then overridden eq ring ours theirs was else was) (or_else ours theirs)
        ≡ merged b (or_else was ours) theirs
  kept true ours theirs was e = rw (e refl) (overridden_route ours theirs)
  kept false ours theirs none e = refl
  kept false ours theirs (some a) e = refl

  kept_inverted :
      (b ours theirs : Bool) (was : Option Bool)
      → (b ≡ true → was ≡ none)
      → bool_or (if b then (if theirs && not ours then some true else was) else was) ours
        ≡ (if b then theirs || bool_or was ours else bool_or was ours)
  kept_inverted true ours theirs was e = rw (e refl) (ground arith)
  kept_inverted false ours theirs was e = refl

  abbrev pub IsFolded : DeviceConfig V → DeviceConfig V → DeviceConfig V → Text → Text → Type 0
  IsFolded folded device legacy route r =
      (effective_dpi folded r ≡ merged (same_text r route) (effective_dpi device r) legacy.dpi)
      × (effective_scroll_resolution folded r
          ≡ merged (same_text r route) (effective_scroll_resolution device r)
              legacy.scroll_resolution)
      × (effective_lighting folded r
          ≡ merged (same_text r route) (effective_lighting device r) legacy.lighting)
      × (effective_smartshift folded r
          ≡ merged (same_text r route) (effective_smartshift device r) legacy.smartshift)
      × (effective_invert_scroll folded r ≡ (
          if same_text r route
          then legacy.invert_scroll || effective_invert_scroll device r
          else effective_invert_scroll device r))

  field_of_if :
      {A : Type 0} (b : Bool) (f : LinkOverrides V → A) (o p : LinkOverrides V)
      → f (if b then o else p) ≡ (if b then f o else f p)
  field_of_if true f o p = refl
  field_of_if false f o p = refl

  -- A legacy entry that has no link of its own for a route is folded into the entry of its device,
  -- which has no overrides on the route of the legacy entry. On that route the device then has the
  -- legacy values of its resolution, wheel resolution, lighting and smart shift, where there were any,
  -- and its own else; on every other route it keeps what it had, and where it had nothing has the
  -- legacy values. Its wheel is inverted on the route of the legacy entry exactly if it was in either
  -- entry, and on other routes as before.
  pub fold-IsFolded :
      (device legacy : DeviceConfig V) (route r : Text)
      → get r legacy.links ≡ none
      → (same_text r route ≡ true → link_overrides device r ≡ no_overrides)
      → IsFolded (fold eq ring device legacy route) device legacy route r
  unfolding effective_dpi effective_scroll_resolution effective_lighting effective_smartshift
      effective_invert_scroll fold folded_overrides
  fold-IsFolded device legacy route r e h =
      let was = link_overrides device r in
      let b = same_text r route in
      let now = folded_overrides device legacy was in
      rw (link_overrides-fold device legacy route r e) (
        ap (λ o. or_else o (or_else device.dpi legacy.dpi)) (field_of_if b (λ o. o.dpi) now was)
            ∙ kept b device.dpi legacy.dpi was.dpi (λ t. ap (λ o. o.dpi) (h t)),
        ap (λ o. or_else o (or_else device.scroll_resolution legacy.scroll_resolution))
              (field_of_if b (λ o. o.scroll_resolution) now was)
            ∙ kept b device.scroll_resolution legacy.scroll_resolution was.scroll_resolution
                (λ t. ap (λ o. o.scroll_resolution) (h t)),
        ap (λ o. or_else o (or_else device.lighting legacy.lighting))
              (field_of_if b (λ o. o.lighting) now was)
            ∙ kept b device.lighting legacy.lighting was.lighting (λ t. ap (λ o. o.lighting) (h t)),
        ap (λ o. or_else o (or_else device.smartshift legacy.smartshift))
              (field_of_if b (λ o. o.smartshift) now was)
            ∙ kept b device.smartshift legacy.smartshift was.smartshift
                (λ t. ap (λ o. o.smartshift) (h t)),
        ap (λ o. bool_or o device.invert_scroll) (field_of_if b (λ o. o.invert_scroll) now was)
            ∙ kept_inverted b device.invert_scroll legacy.invert_scroll was.invert_scroll
                (λ t. ap (λ o. o.invert_scroll) (h t)),
      )

  -- The routes of the folded entry are those of both entries, and the route of the legacy entry.
  pub owns-fold :
      (device legacy : DeviceConfig V) (route r : Text)
      → contains_key r (fold eq ring device legacy route).links
        ≡ (same_text r route || (contains_key r device.links || contains_key r legacy.links))
  unfolding fold
  owns-fold device legacy route r =
      contains_key-modify route r (folded_link eq ring device legacy)
        (or_insert route no_link (or_insert_all legacy.links device.links))
      ∙ contains_key-or_insert route r no_link (or_insert_all legacy.links device.links)
      ∙ ap (λ b. same_text r route || b) (contains_key-or_insert_all legacy.links device.links r)
