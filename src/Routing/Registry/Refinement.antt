-- ===== src/Routing/Registry/Refinement.antt =====
-- The registry refines the list of owners, operation by operation.
use logi_battery.Base.{
  ℕ, suc, ◌+◌, ◌%◌, ◌^◌, ◌≤◌, ◌<◌, ◌≡◌, refl, sym, ap, subst, ◌∙◌, Bool, false, Bool-cases, inl,
  inr, Option, none, some, List, [], ◌∷◌, ◌++◌, KeyEq, length, arith,
}
use logi_battery.Routing.Registry.{
  Publication, NodeRegistry, empty, behind, retain_nodes, remove_node, lookup, replace_in, or_push,
  replace_node,
}
use logi_battery.Routing.Registry.Owners.{
  Owner, Op, publishes, removes, retains, put, keep_owners, owners, first_owner, ShowsOne, Shows,
  Ascends, winner-first, retain-Ascends, append-Ascends,
}
use logi_battery.Routing.Registry.Shown.{
  retain-Shows, append-Shows, update-ShowsOne, update-sequence,
}

module _ {Node Route Channel : Type 0} ⦃er : KeyEq Route⦄ where
  -- The registry shows the owners after `n` operations.
  record Serves (n : ℕ) (r : NodeRegistry Node Route Channel) (os : List (Owner Node Route Channel))
      : Type 0 where
    shown : Shows r.publications os
    ascending : Ascends 0 r.publications r.next_sequence
    few : r.next_sequence ≤ n

module _ {Node Route Channel : Type 0} ⦃en : KeyEq Node⦄ ⦃er : KeyEq Route⦄
    ⦃ec : KeyEq Channel⦄ where
  -- A replacement in place shows the owner's list with the owner put in; without one, the owner comes
  -- behind all others.
  Placed :
      ℕ
      → ℕ
      → List (Publication Node Route Channel)
      → List (Owner Node Route Channel)
      → Owner Node Route Channel
      → Option (List (Publication Node Route Channel) × Bool)
      → Type 0
  Placed lo hi ps os o none = put o os ≡ os ++ (o ∷ [])
  Placed lo hi ps os o (some (qs, changed)) = Shows qs (put o os) × Ascends lo qs hi

  behind-Placed :
      (lo hi : ℕ) (p : Publication Node Route Channel) (ps : List (Publication Node Route Channel))
      (x : Owner Node Route Channel) (os : List (Owner Node Route Channel))
      (o : Owner Node Route Channel) (r : Option (List (Publication Node Route Channel) × Bool))
      → en.same x.node o.node ≡ false
      → ShowsOne p x
      → lo ≤ p.sequence
      → Placed (suc p.sequence) hi ps os o r
      → Placed lo hi (p ∷ ps) (x ∷ os) o (behind p r)
  unfolding behind Placed
  behind-Placed lo hi p ps x os o none f s l h = rw f (ap (◌∷◌ x) h)
  behind-Placed lo hi p ps x os o (some (qs, changed)) f s l h = rw f ((s, h.0), (l, h.1))

  replace_in-Placed :
      (lo hi : ℕ) (ps : List (Publication Node Route Channel))
      (os : List (Owner Node Route Channel)) (node : Node) (routes : List Route) (channel : Channel)
      → Shows ps os
      → Ascends lo ps hi
      → Placed lo hi ps os
          (record { node = node; routes = routes; channel = channel })
          (replace_in node routes channel ps)
  unfolding replace_in Placed
  replace_in-Placed lo hi [] [] node routes channel s a = refl
  replace_in-Placed lo hi [] (x ∷ os) node routes channel s a = absurd s
  replace_in-Placed lo hi (p ∷ ps) [] node routes channel s a = absurd s
  replace_in-Placed lo hi (p ∷ ps) (x ∷ os) node routes channel s a =
      let e = ap (λ n. en.same n node) s.0.0 in
      elim (Bool-cases (en.same p.node node)) [
        | inl t ↦
            rw (t, sym e ∙ t)
              (
                (update-ShowsOne p node routes channel ((en.same_iff p.node node).0 t), s.1),
                subst (λ q. (lo ≤ q) × Ascends (suc q) ps hi)
                    (sym (update-sequence p routes channel).0) a,
              )
        | inr f ↦ rw f (
            behind-Placed lo hi p ps x os
              (record { node = node; routes = routes; channel = channel }) _ (sym e ∙ f) s.0 a.0
              (replace_in-Placed (suc p.sequence) hi ps os node routes channel s.1 a.1))
      ]

  or_push-Serves :
      (n : ℕ) (r : NodeRegistry Node Route Channel) (os : List (Owner Node Route Channel))
      (node : Node) (routes : List Route) (channel : Channel)
      (found : Option (List (Publication Node Route Channel) × Bool))
      → suc n < 2 ^ 64
      → Serves n r os
      → Placed 0 r.next_sequence r.publications os
          (record { node = node; routes = routes; channel = channel })
          found
      → Serves
          (suc n)
          (or_push r node routes channel found).0
          (put (record { node = node; routes = routes; channel = channel }) os)
  unfolding or_push Placed
  or_push-Serves n r os node routes channel (some (ps, changed)) room s h = record {
    shown = h.0;
    ascending = h.1;
    few = omega (arith, s.few);
  }
  or_push-Serves n r os node routes channel none room s h =
      let next : (r.next_sequence + 1) % 2 ^ 64 ≡ suc r.next_sequence = omega (arith, s.few) in
      record {
        shown = rw h (append-Shows r.publications os _ _ s.shown (refl, refl, λ route. refl));
        ascending = rw next (append-Ascends 0 r.publications _ s.ascending);
        few = omega (arith, next, s.few);
      }

  pub apply :
      NodeRegistry Node Route Channel → Op Node Route Channel → NodeRegistry Node Route Channel
  apply r (publishes node routes channel) = (replace_node r node routes channel).0
  apply r (removes node) = (remove_node r node).0
  apply r (retains keep) = (retain_nodes r keep).0

  pub run : List (Op Node Route Channel) → NodeRegistry Node Route Channel
  run [] = empty
  run (op ∷ ops) = apply (run ops) op

  retain-Serves :
      (n : ℕ) (keep : Node → Bool) (r : NodeRegistry Node Route Channel)
      (os : List (Owner Node Route Channel))
      → Serves n r os
      → Serves (suc n) (retain_nodes r keep).0 (keep_owners keep os)
  unfolding retain_nodes
  retain-Serves n keep r os s = record {
    shown = retain-Shows keep r.publications os s.shown;
    ascending = retain-Ascends keep 0 r.publications r.next_sequence s.ascending;
    few = omega (arith, s.few);
  }

  run-Serves :
      (ops : List (Op Node Route Channel))
      → length ops < 2 ^ 64
      → Serves (length ops) (run ops) (owners ops)
  unfolding run apply replace_node remove_node
  run-Serves [] h =
      unfold empty in record { shown = tt; ascending = omega arith; few = omega arith }
  run-Serves (publishes node routes channel ∷ ops) h =
      let s = run-Serves ops (omega arith) in
      or_push-Serves (length ops) (run ops) (owners ops) node routes channel _ h s (
        replace_in-Placed 0 (run ops).next_sequence (run ops).publications (owners ops) node routes
          channel s.shown s.ascending)
  run-Serves (removes node ∷ ops) h =
      retain-Serves (length ops) _ (run ops) (owners ops) (run-Serves ops (omega arith))
  run-Serves (retains keep ∷ ops) h =
      retain-Serves (length ops) keep (run ops) (owners ops) (run-Serves ops (omega arith))

  -- After fewer than 2^64 operations on an empty registry, the channel of a route is that of its first
  -- owner, in the order in which the nodes first published since they were last gone. A node that
  -- publishes again keeps its place, also where the registry finds nothing changed; one that goes
  -- leaves its routes to the next owner.
  pub lookup-first_owner :
      (ops : List (Op Node Route Channel)) (route : Route)
      → length ops < 2 ^ 64
      → lookup (run ops) route ≡ first_owner route (owners ops)
  unfolding lookup
  lookup-first_owner ops route h =
      let s = run-Serves ops h in
      winner-first route 0 0 (run ops).publications (owners ops) (run ops).next_sequence s.ascending
        s.shown
