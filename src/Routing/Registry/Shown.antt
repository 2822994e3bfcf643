-- ===== src/Routing/Registry/Shown.antt =====
-- What the steps of a replacement and of a removal show.
use logi_battery.Base.{
  ◌≡◌, refl, sym, ap, subst, ◌∙◌, Bool, true, ◌&&◌, Bool-cases, inl, inr, List, [], ◌∷◌, ◌++◌,
  KeyEq, arith,
}
use logi_battery.Routing.Registry.{Publication, contains, all_in, retain, is_same, update}
use logi_battery.Routing.Registry.Owners.{Owner, keep_owners, ShowsOne, Shows}

module _ {Route : Type 0} ⦃er : KeyEq Route⦄ where
  -- Routes that hold each other's have the same members.
  all_in-contains :
      (xs ys : List Route) (route : Route)
      → all_in xs ys ≡ true
      → contains xs route ≡ true
      → contains ys route ≡ true
  all_in-contains [] ys route h c = ground arith
  all_in-contains (x ∷ xs) ys route h c = elim (Bool-cases (er.same x route)) [
    | inl t ↦ subst (λ r. contains ys r ≡ true) ((er.same_iff x route).0 t) (ground arith)
    | inr f ↦ all_in-contains xs ys route (ground arith) (ground arith)
  ]

  contains-eq :
      (xs ys : List Route) (route : Route)
      → all_in xs ys && all_in ys xs ≡ true
      → contains xs route ≡ contains ys route
  contains-eq xs ys route h =
      ground (arith, all_in-contains xs ys route, all_in-contains ys xs route)

module _ {Node Route Channel : Type 0} ⦃er : KeyEq Route⦄ where
  pub retain-Shows :
      (keep : Node → Bool) (ps : List (Publication Node Route Channel))
      (os : List (Owner Node Route Channel))
      → Shows ps os
      → Shows (retain keep ps) (keep_owners keep os)
  unfolding retain
  retain-Shows keep [] [] s = tt
  retain-Shows keep [] (o ∷ os) s = absurd s
  retain-Shows keep (p ∷ ps) [] s = absurd s
  retain-Shows keep (p ∷ ps) (o ∷ os) s =
      let same = ap keep s.0.0 in
      elim (Bool-cases (keep p.node)) [
        | inl t ↦ rw (t, sym same ∙ t) (s.0, retain-Shows keep ps os s.1)
        | inr f ↦ rw (f, sym same ∙ f) (retain-Shows keep ps os s.1)
      ]

module _ {Node Route Channel : Type 0} ⦃er : KeyEq Route⦄ where
  pub append-Shows :
      (ps : List (Publication Node Route Channel)) (os : List (Owner Node Route Channel))
      (p : Publication Node Route Channel) (o : Owner Node Route Channel)
      → Shows ps os
      → ShowsOne p o
      → Shows (ps ++ (p ∷ [])) (os ++ (o ∷ []))
  append-Shows [] [] p o s h = (h, tt)
  append-Shows [] (x ∷ os) p o s h = absurd s
  append-Shows (q ∷ ps) [] p o s h = absurd s
  append-Shows (q ∷ ps) (x ∷ os) p o s h = (s.0, append-Shows ps os p o s.1 h)

module _ {Node Route Channel : Type 0} ⦃er : KeyEq Route⦄ ⦃ec : KeyEq Channel⦄ where
  pub update-sequence :
      (p : Publication Node Route Channel) (routes : List Route) (channel : Channel)
      → ((update p routes channel).0.sequence ≡ p.sequence)
        × ((update p routes channel).0.node ≡ p.node)
  unfolding update
  update-sequence p routes channel = elim (Bool-cases (is_same p routes channel)) [
    | inl t ↦ rw t (refl, refl)
    | inr f ↦ rw f (refl, refl)
  ]

  pub update-ShowsOne :
      (p : Publication Node Route Channel) (node : Node) (routes : List Route) (channel : Channel)
      → p.node ≡ node
      → ShowsOne
          (update p routes channel).0
          (record { node = node; routes = routes; channel = channel })
  unfolding update is_same
  update-ShowsOne p node routes channel e =
      elim (Bool-cases
        ((all_in p.routes routes && all_in routes p.routes) && ec.same p.channel channel)) [
          | inl t ↦ rw t (
            e,
            (ec.same_iff p.channel channel).0 (ground arith),
            λ route. contains-eq p.routes routes route (ground arith),
          )
          | inr f ↦ rw f (e, refl, λ route. refl)
        ]
