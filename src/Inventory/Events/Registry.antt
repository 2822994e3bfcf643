-- ===== src/Inventory/Events/Registry.antt =====
-- The feature table's indices, and a registered device found again.
use logi_battery.Base.{
  ℕ, suc, ◌+◌, ◌≡◌, ◌<◌, inl, inr, refl, List, [], ◌∷◌, Option, none, some, Bool, true, false, ltb,
  ◌==◌, if◌then◌else◌, get_elem?, arith, ap, subst, sym, ◌∙◌, Bool-cases, ==_iff,
}
use logi_battery.Inventory.Events.{
  EventFeatureIndices, DeviceEvents, scan_table, from_feature_ids, mark, mark_id, default,
  register_device, find_device,
}

-- A registered device is found with its new features, and every other device as it was before.
pub find_device-register_device :
    (i j : ℕ) (features : EventFeatureIndices) (ds : List DeviceEvents)
    → find_device j (register_device i features ds)
      ≡ (if i == j then some features else find_device j ds)
unfolding find_device register_device
find_device-register_device i j features [] = ground arith
find_device-register_device i j features (d ∷ ds) =
    ground (arith, find_device-register_device i j features ds)

-- An index stands for the id of the table's entry there, counted from 1, and is a byte.
abbrev pub IsAt : List ℕ → ℕ → Option ℕ → Type 0
IsAt table id none = Unit
IsAt table id (some i) = (j : ℕ) × (i ≡ j + 1) × (j < 255) × (get_elem? table j ≡ some id)

abbrev pub IsFound : List ℕ → EventFeatureIndices → Type 0
IsFound table found =
    IsAt table 0x1d4b found.wireless_status × IsAt table 0x1004 found.unified_battery

mark-IsAt :
    (table : List ℕ) (id wanted j : ℕ) (seen : Option ℕ)
    → j < 255
    → get_elem? table j ≡ some id
    → IsAt table wanted seen
    → IsAt table wanted (mark (id == wanted) (j + 1) seen)
unfolding mark
mark-IsAt table id wanted j seen lt e at = elim (Bool-cases (id == wanted)) [
  | inl h ↦
      subst (λ b. IsAt table wanted (if b then some (j + 1) else seen)) (sym h)
        (j, refl, lt, e ∙ ap some ((==_iff id wanted).0 h))
  | inr h ↦ subst (λ b. IsAt table wanted (if b then some (j + 1) else seen)) (sym h) at
]

if-IsFound :
    (table : List ℕ) (b : Bool) (x y : EventFeatureIndices)
    → IsFound table x
    → (b ≡ false → IsFound table y)
    → IsFound table (if b then x else y)
if-IsFound table true x y hx hy = hx
if-IsFound table false x y hx hy = hy refl

scan_table-IsFound :
    (table : List ℕ) (position : ℕ) (found : EventFeatureIndices) (ids : List ℕ)
    → ((k : ℕ) → get_elem? table (position + k) ≡ get_elem? ids k)
    → IsFound table found
    → IsFound table (scan_table position found ids)
unfolding scan_table mark_id
scan_table-IsFound table position found [] h at = at
scan_table-IsFound table position found (id ∷ ids) h at =
    if-IsFound table (ltb 255 (position + 1)) found _ at (λ f.
      let same : position ≡ position + 0 = omega arith in
      let lt : position < 255 = ground arith in
      let here = ap (get_elem? table) same ∙ h 0 in
      let next : (k : ℕ) → position + 1 + k ≡ position + suc k = λ k. omega arith in
      scan_table-IsFound table (position + 1) (mark_id id (position + 1) found) ids
        (λ k. ap (get_elem? table) (next k) ∙ h (suc k))
        (
          mark-IsAt table id 0x1d4b position found.wireless_status lt here at.0,
          mark-IsAt table id 0x1004 position found.unified_battery lt here at.1,
        ))

-- The indices that `from_feature_ids` reads off a feature table are bytes that stand for the wireless
-- status and the unified battery in it, where they stand for anything: the entry at such an index,
-- counted from 1, is the feature's id.
pub from_feature_ids-IsFound : (ids : List ℕ) → IsFound ids (from_feature_ids ids)
unfolding from_feature_ids default
from_feature_ids-IsFound ids =
    let same : (k : ℕ) → 0 + k ≡ k = λ k. omega arith in
    scan_table-IsFound ids 0 default ids (λ k. ap (get_elem? ids) (same k)) (tt, tt)
