-- ===== src/Settings/Dpi.antt =====
-- crates/openlogi-core/src/hid/dpi.rs: the sensor resolutions that a device supports. A `Dpi` is its
-- 16-bit number; `none` of an index out of range is its panic.
pub mod Nearest
mod Runs
use logi_battery.Base.{
  ℕ, zero, suc, ◌+◌, ◌-◌, Bool, true, false, ◌||◌, Option, none, some, List, [], ◌∷◌, ltb, leb,
  ◌==◌, if◌then◌else◌, length, get_elem?, min,
}

pub record DpiCapabilities : Type 0 where
  pub values : List ℕ

-- `sort_unstable`: equal numbers are the same, so any sort gives this list.
pub insert : ℕ → List ℕ → List ℕ
insert x [] = x ∷ []
insert x (y ∷ ys) = let rest = insert x ys in if leb x y then x ∷ y ∷ ys else y ∷ rest

pub sort : List ℕ → List ℕ
sort [] = []
sort (x ∷ xs) = insert x (sort xs)

-- `dedup` behind an element: what repeats the one before it goes.
pub dedup_after : ℕ → List ℕ → List ℕ
dedup_after x [] = []
dedup_after x (y ∷ ys) = let rest = dedup_after y ys in if x == y then rest else y ∷ rest

pub dedup : List ℕ → List ℕ
dedup [] = []
dedup (x ∷ xs) = x ∷ dedup_after x xs

-- `none` is `EmptyDpiList`.
pub capabilities_of : List ℕ → Option DpiCapabilities
capabilities_of [] = none
capabilities_of (x ∷ xs) = some (record { values = x ∷ xs })

pub new : List ℕ → Option DpiCapabilities
new values = capabilities_of (dedup (sort values))

pub lowest : DpiCapabilities → Option ℕ
lowest c = get_elem? c.values 0

pub highest : DpiCapabilities → Option ℕ
highest c = get_elem? c.values (length c.values - 1)

abbrev pub abs_diff : ℕ → ℕ → ℕ
abs_diff a b = a - b + (b - a)

-- The loop of `nearest` with the best candidate so far and its distance.
pub closest : ℕ → ℕ → ℕ → List ℕ → ℕ
closest raw best delta [] = best
closest raw best delta (c ∷ cs) =
    let closer = ltb (abs_diff c raw) delta in
    closest raw (if closer then c else best) (if closer then abs_diff c raw else delta) cs

pub nearest_of : List ℕ → ℕ → Option ℕ
nearest_of [] dpi = none
nearest_of (v ∷ vs) dpi = some (closest dpi v (abs_diff v dpi) vs)

pub nearest : DpiCapabilities → ℕ → Option ℕ
nearest c dpi = nearest_of c.values dpi

-- `binary_search` of an ascending list: where the number is, or where it would be inserted.
pub data Found : Type 0 where
  at before : ℕ → Found

abbrev pub one_on : Found → Found
one_on (at i) = at (suc i)
one_on (before i) = before (suc i)

pub binary_search : List ℕ → ℕ → Found
binary_search [] x = before 0
binary_search (y ∷ ys) x =
    let rest = one_on (binary_search ys x) in
    if x == y then at 0 else if ltb x y then before 0 else rest

abbrev pub is_at : Found → Bool
is_at (at i) = true
is_at (before i) = false

pub contains : DpiCapabilities → ℕ → Bool
contains c dpi = is_at (binary_search c.values dpi)

-- The smallest gap of two neighbours that is not 0, if there is one.
pub smallest_gap : List ℕ → Option ℕ
smallest_gap [] = none
smallest_gap (x ∷ []) = none
smallest_gap (x ∷ y ∷ ys) =
    let rest = smallest_gap (y ∷ ys) in
    if ltb x y then some (elim rest [ none ↦ y - x | some g ↦ min (y - x) g ]) else rest

pub step_hint : DpiCapabilities → ℕ
step_hint c = elim (smallest_gap c.values) [ none ↦ 1 | some g ↦ g ]

-- The `match` on the search, before the filter.
pub neighbour : List ℕ → Found → Option ℕ
neighbour values (at index) =
    if ltb (index + 1) (length values)
    then get_elem? values (index + 1)
    else if ltb 0 index
    then get_elem? values (index - 1)
    else none
neighbour values (before index) =
    if ltb index (length values)
    then get_elem? values index
    else get_elem? values (length values - 1)

abbrev pub differing : ℕ → Option ℕ → Option ℕ
differing current none = none
differing current (some target) = if target == current then none else some target

pub adjacent_test_target : DpiCapabilities → ℕ → Option ℕ
adjacent_test_target c current =
    if ltb (length c.values) 2
    then none
    else differing current (neighbour c.values (binary_search c.values current))
