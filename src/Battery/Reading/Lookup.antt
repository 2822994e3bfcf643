-- ===== src/Battery/Reading/Lookup.antt =====
-- The one pass over the feature table finds what three separate searches would.
use logi_battery.Base.{
  ℕ, zero, suc, ◌+◌, ◌≡◌, refl, List, [], ◌∷◌, Option, none, some, take, arith, ◌==◌, if◌then◌else◌,
}
use logi_battery.Battery.Reading.{
  BatteryProbe, unified, legacy, voltage, unified_id, legacy_id, voltage_id, or_else, remember,
  search_table, battery_feature_index,
}
use mathlib.Core.Option

-- The 1-based place of the first occurrence, counted on from `pos`.
pub first_index : ℕ → ℕ → List ℕ → Option ℕ
first_index id pos [] = none
first_index id pos (x ∷ xs) = if x == id then some (pos + 1) else first_index id (pos + 1) xs

-- The feature of the first id in the order of preference that the table has.
abbrev pub preferred : List ℕ → Option BatteryProbe
preferred ids = or_else (Option.map unified (first_index unified_id 0 ids)) (
    or_else (Option.map legacy (first_index legacy_id 0 ids))
      (Option.map voltage (first_index voltage_id 0 ids)))

search_table_lem :
    (n pos : ℕ) (l v : Option BatteryProbe) (ids : List ℕ)
    → pos + n ≡ 255
    → search_table pos l v ids
      ≡ or_else (Option.map unified (first_index unified_id pos (take n ids))) (
          or_else
            (or_else l (Option.map legacy (first_index legacy_id pos (take n ids))))
            (or_else v (Option.map voltage (first_index voltage_id pos (take n ids)))))
unfolding search_table first_index
search_table_lem zero pos l v [] h = ground arith
search_table_lem (suc n) pos l v [] h = ground arith
search_table_lem zero pos l v (id ∷ ids) h = ground arith
search_table_lem (suc n) pos l v (id ∷ ids) h = ground (
  arith,
  search_table_lem n (pos + 1) (remember (id == legacy_id) (legacy (pos + 1)) l)
      (remember (id == voltage_id) (voltage (pos + 1)) v) ids,
)

-- The table's first 255 entries decide: the unified feature if it is there, else the legacy one, else
-- the voltage feature, each at its first place, and nothing if there is none of the three.
pub battery_feature_index-preferred :
    (ids : List ℕ) → battery_feature_index ids ≡ preferred (take 255 ids)
unfolding battery_feature_index
battery_feature_index-preferred ids = search_table_lem 255 0 none none ids refl
