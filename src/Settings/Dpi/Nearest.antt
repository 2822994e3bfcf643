-- ===== src/Settings/Dpi/Nearest.antt =====
-- The nearest supported resolution is one that the device reported, and none that it reported is nearer.
use logi_battery.Base.{
  ℕ, ◌≤◌, ◌≡◌, refl, sym, subst, Bool, true, false, ◌||◌, Bool-cases, inl, inr, some, List, [], ◌∷◌,
  All, ltb, leb, ◌==◌, ==_iff, if◌then◌else◌, arith,
}
use logi_battery.Settings.Dpi.{
  DpiCapabilities, insert, sort, dedup_after, dedup, capabilities_of, new, abs_diff, closest,
  nearest_of, nearest,
}

abbrev pub is_in : ℕ → List ℕ → Bool
is_in a [] = false
is_in a (x ∷ xs) = x == a || is_in a xs

-- Members and predicates on all of them pass from the sorted list without repetitions to the list.
is_in-insert : (a x : ℕ) (ys : List ℕ) → is_in a (insert x ys) ≡ true → is_in a (x ∷ ys) ≡ true
unfolding insert
is_in-insert a x [] h = h
is_in-insert a x (y ∷ ys) h = ground (arith, is_in-insert a x ys)

is_in-sort : (a : ℕ) (xs : List ℕ) → is_in a (sort xs) ≡ true → is_in a xs ≡ true
unfolding sort
is_in-sort a [] h = h
is_in-sort a (x ∷ xs) h = ground (arith, is_in-insert a x (sort xs), is_in-sort a xs)

is_in-dedup_after : (a x : ℕ) (ys : List ℕ) → is_in a (dedup_after x ys) ≡ true → is_in a ys ≡ true
unfolding dedup_after
is_in-dedup_after a x [] h = h
is_in-dedup_after a x (y ∷ ys) h = ground (arith, is_in-dedup_after a y ys)

is_in-dedup : (a : ℕ) (xs : List ℕ) → is_in a (dedup xs) ≡ true → is_in a xs ≡ true
unfolding dedup
is_in-dedup a [] h = h
is_in-dedup a (x ∷ xs) h = ground (arith, is_in-dedup_after a x xs)

All-insert : (P : ℕ → Type 0) (x : ℕ) (ys : List ℕ) → All P (insert x ys) → P x × All P ys
unfolding insert
All-insert P x [] h = h
All-insert P x (y ∷ ys) h = elim (Bool-cases (leb x y)) [
  | inl t ↦ rw t at h
  | inr f ↦ let g = rw f at h in let r = All-insert P x ys g.1 in (r.0, (g.0, r.1))
]

All-sort : (P : ℕ → Type 0) (xs : List ℕ) → All P (sort xs) → All P xs
unfolding sort
All-sort P [] h = h
All-sort P (x ∷ xs) h = let r = All-insert P x (sort xs) h in (r.0, All-sort P xs r.1)

All-dedup_after : (P : ℕ → Type 0) (x : ℕ) (ys : List ℕ) → P x → All P (dedup_after x ys) → All P ys
unfolding dedup_after
All-dedup_after P x [] p h = h
All-dedup_after P x (y ∷ ys) p h = elim (Bool-cases (x == y)) [
  | inl t ↦ let q = subst P ((==_iff x y).0 t) p in (q, All-dedup_after P y ys q (rw t at h))
  | inr f ↦ let g = rw f at h in (g.0, All-dedup_after P y ys g.0 g.1)
]

All-dedup : (P : ℕ → Type 0) (xs : List ℕ) → All P (dedup xs) → All P xs
unfolding dedup
All-dedup P [] h = h
All-dedup P (x ∷ xs) h = (h.0, All-dedup_after P x xs h.0 h.1)

-- The loop ends at the best so far or a later candidate, and no candidate beats it.
closest_in :
    (raw best delta : ℕ) (cs : List ℕ) → is_in (closest raw best delta cs) (best ∷ cs) ≡ true
unfolding closest
closest_in raw best delta [] = ground arith
closest_in raw best delta (c ∷ cs) =
    ground (arith, closest_in raw c (abs_diff c raw) cs, closest_in raw best delta cs)

All-weaken :
    (raw n m : ℕ) (cs : List ℕ)
    → n ≤ m
    → All (λ v. m ≤ abs_diff v raw) cs
    → All (λ v. n ≤ abs_diff v raw) cs
All-weaken raw n m [] l h = tt
All-weaken raw n m (c ∷ cs) l h = (omega arith, All-weaken raw n m cs l h.1)

closest-least :
    (raw best delta : ℕ) (cs : List ℕ)
    → delta ≡ abs_diff best raw
    → (abs_diff (closest raw best delta cs) raw ≤ delta)
      × All (λ v. abs_diff (closest raw best delta cs) raw ≤ abs_diff v raw) cs
unfolding closest
closest-least raw best delta [] e = (ground arith, tt)
closest-least raw best delta (c ∷ cs) e =
    let goal : Bool → Type 0 = λ t.
      let n = closest raw (if t then c else best) (if t then abs_diff c raw else delta) cs in
      (abs_diff n raw ≤ delta)
      × ((abs_diff n raw ≤ abs_diff c raw) × All (λ v. abs_diff n raw ≤ abs_diff v raw) cs) in
    elim (Bool-cases (ltb (abs_diff c raw) delta)) [
      | inl t ↦
          let r = closest-least raw c (abs_diff c raw) cs refl in
          subst goal (sym t) (ground arith, (r.0, r.1))
      | inr f ↦
          let r = closest-least raw best delta cs e in subst goal (sym f) (r.0, (ground arith, r.1))
    ]

nearest_of-least :
    (vs : List ℕ) (dpi : ℕ) (c : DpiCapabilities)
    → capabilities_of vs ≡ some c
    → (n : ℕ) × (nearest c dpi ≡ some n)
      × (is_in n vs ≡ true)
      × All (λ v. abs_diff n dpi ≤ abs_diff v dpi) vs
unfolding nearest nearest_of capabilities_of
nearest_of-least [] dpi c e = ground arith
nearest_of-least (v ∷ vs) dpi c e =
    let same : record { values = v ∷ vs } ≡ c = cc in
    let least = closest-least dpi v (abs_diff v dpi) vs refl in
    (
      closest dpi v (abs_diff v dpi) vs,
      subst (λ c. nearest c dpi ≡ some (closest dpi v (abs_diff v dpi) vs)) same refl,
      closest_in dpi v (abs_diff v dpi) vs,
      (least.0, least.1),
    )

-- Of the capabilities that a device's list makes, the resolution nearest to a wish is on that list, and
-- no resolution on the list is nearer to the wish.
pub nearest-least :
    (reported : List ℕ) (dpi : ℕ) (c : DpiCapabilities)
    → new reported ≡ some c
    → (n : ℕ) × (nearest c dpi ≡ some n)
      × (is_in n reported ≡ true)
      × All (λ v. abs_diff n dpi ≤ abs_diff v dpi) reported
unfolding new
nearest-least reported dpi c e =
    let (n, near, member, least) = nearest_of-least (dedup (sort reported)) dpi c e in
    (
      n,
      near,
      is_in-sort n reported (is_in-dedup n (sort reported) member),
      All-sort _ reported (All-dedup _ (sort reported) least),
    )
