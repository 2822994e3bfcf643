-- ===== src/Routing/Registry/Owners.antt =====
-- The registry against a plain list of owners: the first one that has the route serves it.
use logi_battery.Base.{
  ℕ, suc, ◌≤◌, ◌≡◌, refl, sym, ap, ◌∙◌, Bool, true, false, not, Bool-cases, inl, inr, Option, none,
  some, List, [], ◌∷◌, ◌++◌, KeyEq, leb, if◌then◌else◌, arith,
}
use logi_battery.Routing.Registry.{Publication, contains, retain, older, winner}
use mathlib.Core.Option

pub record Owner (Node Route Channel : Type 0) : Type 0 where
  pub node : Node
  pub routes : List Route
  pub channel : Channel

pub data Op (Node Route Channel : Type 0) : Type 0 where
  publishes : Node → List Route → Channel → Op Node Route Channel
  removes : Node → Op Node Route Channel
  retains : (Node → Bool) → Op Node Route Channel

module _ {Node Route Channel : Type 0} where
  abbrev pub keep_owners :
      (Node → Bool) → List (Owner Node Route Channel) → List (Owner Node Route Channel)
  keep_owners keep [] = []
  keep_owners keep (x ∷ xs) =
      let rest = keep_owners keep xs in if keep x.node then x ∷ rest else rest

module _ {Node Route Channel : Type 0} ⦃en : KeyEq Node⦄ where
  -- A node that publishes again keeps its place.
  abbrev pub put :
      Owner Node Route Channel → List (Owner Node Route Channel) → List (Owner Node Route Channel)
  put o [] = o ∷ []
  put o (x ∷ xs) = let rest = put o xs in if en.same x.node o.node then o ∷ xs else x ∷ rest

  -- The newest operation stands first.
  abbrev pub owners : List (Op Node Route Channel) → List (Owner Node Route Channel)
  owners [] = []
  owners (publishes n rs c ∷ ops) = put (record { node = n; routes = rs; channel = c }) (owners ops)
  owners (removes n ∷ ops) = keep_owners (λ m. not (en.same m n)) (owners ops)
  owners (retains keep ∷ ops) = keep_owners keep (owners ops)

module _ {Node Route Channel : Type 0} ⦃er : KeyEq Route⦄ where
  abbrev pub first_owner : Route → List (Owner Node Route Channel) → Option Channel
  first_owner route [] = none
  first_owner route (x ∷ xs) =
      let rest = first_owner route xs in if contains x.routes route then some x.channel else rest

  -- The publications in the order of the owners: the same nodes, channels and routes.
  abbrev pub ShowsOne : Publication Node Route Channel → Owner Node Route Channel → Type 0
  ShowsOne p o =
      (p.node ≡ o.node)
      × (p.channel ≡ o.channel)
      × ((route : Route) → contains p.routes route ≡ contains o.routes route)

  abbrev pub Shows :
      List (Publication Node Route Channel) → List (Owner Node Route Channel) → Type 0
  Shows [] [] = Unit
  Shows [] (o ∷ os) = ⊥
  Shows (p ∷ ps) [] = ⊥
  Shows (p ∷ ps) (o ∷ os) = ShowsOne p o × Shows ps os

  -- The sequences ascend, from `lo` on and below `hi`.
  abbrev pub Ascends : ℕ → List (Publication Node Route Channel) → ℕ → Type 0
  Ascends lo [] hi = lo ≤ hi
  Ascends lo (p ∷ ps) hi = (lo ≤ p.sequence) × Ascends (suc p.sequence) ps hi

  abbrev pub Above : ℕ → Option (ℕ × Publication Node Route Channel) → Type 0
  Above lo none = Unit
  Above lo (some w) = lo ≤ w.1.sequence

  Ascends-weaken :
      (lo lo' : ℕ) (ps : List (Publication Node Route Channel)) (hi : ℕ)
      → lo' ≤ lo
      → Ascends lo ps hi
      → Ascends lo' ps hi
  Ascends-weaken lo lo' [] hi h a = omega arith
  Ascends-weaken lo lo' (p ∷ ps) hi h a = (omega arith, a.1)

  older-Above :
      (lo : ℕ) (a b : Option (ℕ × Publication Node Route Channel))
      → Above lo a
      → Above lo b
      → Above lo (older a b)
  unfolding older
  older-Above lo none b ha hb = hb
  older-Above lo (some a) none ha hb = ha
  older-Above lo (some a) (some b) ha hb =
      elim (leb (a.1).sequence (b.1).sequence) as (λ t. Above lo (if t then some a else some b)) [
        | true ↦ ha
        | false ↦ hb
      ]

  older-first :
      (i : ℕ) (p : Publication Node Route Channel) (o : Option (ℕ × Publication Node Route Channel))
      → Above (suc p.sequence) o
      → older (some (i, p)) o ≡ some (i, p)
  unfolding older
  older-first i p none h = refl
  older-first i p (some b) h = ground arith

  winner-Above :
      (route : Route) (i lo : ℕ) (ps : List (Publication Node Route Channel)) (hi : ℕ)
      → Ascends lo ps hi
      → Above lo (winner route i ps)
  unfolding winner
  winner-Above route i lo [] hi a = tt
  winner-Above route i lo (p ∷ ps) hi a =
      older-Above lo (if contains p.routes route then some (i, p) else none)
        (winner route (suc i) ps)
        (elim (contains p.routes route) as (λ t. Above lo (if t then some (i, p) else none)) [
          | true ↦ a.0
          | false ↦ tt
        ])
        (winner-Above route (suc i) lo ps hi
          (Ascends-weaken (suc p.sequence) lo ps hi (omega arith) a.1))

  pub winner-first :
      (route : Route) (i lo : ℕ) (ps : List (Publication Node Route Channel))
      (os : List (Owner Node Route Channel)) (hi : ℕ)
      → Ascends lo ps hi
      → Shows ps os
      → Option.map (λ w. w.1.channel) (winner route i ps) ≡ first_owner route os
  unfolding winner older
  winner-first route i lo [] [] hi a s = refl
  winner-first route i lo [] (o ∷ os) hi a s = absurd s
  winner-first route i lo (p ∷ ps) [] hi a s = absurd s
  winner-first route i lo (p ∷ ps) (o ∷ os) hi a s =
      let same = s.0.2 route in
      elim (Bool-cases (contains p.routes route)) [
        | inl t ↦
            rw (t, sym same ∙ t)
              (ap (Option.map (λ w. w.1.channel))
                  (older-first i p _ (winner-Above route (suc i) (suc p.sequence) ps hi a.1))
                ∙ ap some s.0.1)
        | inr f ↦
            rw (f, sym same ∙ f) (winner-first route (suc i) (suc p.sequence) ps os hi a.1 s.1)
      ]

  pub retain-Ascends :
      (keep : Node → Bool) (lo : ℕ) (ps : List (Publication Node Route Channel)) (hi : ℕ)
      → Ascends lo ps hi
      → Ascends lo (retain keep ps) hi
  unfolding retain
  retain-Ascends keep lo [] hi a = a
  retain-Ascends keep lo (p ∷ ps) hi a =
      elim (keep p.node)
        as (λ t. Ascends lo (if t then p ∷ retain keep ps else retain keep ps) hi) [
          | true ↦ (a.0, retain-Ascends keep (suc p.sequence) ps hi a.1)
          | false ↦
              Ascends-weaken (suc p.sequence) lo (retain keep ps) hi (omega arith)
                (retain-Ascends keep (suc p.sequence) ps hi a.1)
        ]

  pub append-Ascends :
      (lo : ℕ) (ps : List (Publication Node Route Channel)) (p : Publication Node Route Channel)
      → Ascends lo ps p.sequence
      → Ascends lo (ps ++ (p ∷ [])) (suc p.sequence)
  append-Ascends lo [] p a = (a, omega arith)
  append-Ascends lo (q ∷ ps) p a = (a.0, append-Ascends (suc q.sequence) ps p a.1)
