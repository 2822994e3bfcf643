-- ===== src/Config/Map.antt =====
-- A `BTreeMap` whose keys are texts, as the list of its entries in the order of their keys.
pub mod Laws
pub mod Distinct
use logi_battery.Base.{
  ℕ, List, [], ◌∷◌, Option, none, some, Bool, true, false, ltb, ◌==◌, if◌then◌else◌, is_some,
}
use logi_battery.Keys.Text.{same_text}

abbrev pub Text : Type 0
Text = List ℕ

abbrev pub Map {ℓ} : Type ℓ → Type ℓ
Map A = List (Text × A)

-- `Ord` on texts.
pub text_lt : Text → Text → Bool
text_lt [] [] = false
text_lt [] (b ∷ bs) = true
text_lt (a ∷ as') [] = false
text_lt (a ∷ as') (b ∷ bs) = let rest = text_lt as' bs in if a == b then rest else ltb a b

abbrev pub value_or {ℓ} : {A : Type ℓ} → A → Option A → A
value_or a none = a
value_or a (some b) = b

module _ {ℓ} {A : Type ℓ} where
  pub get : Text → Map A → Option A
  get k [] = none
  get k ((j, v) ∷ m) = let rest = get k m in if same_text k j then some v else rest

  pub contains_key : Text → Map A → Bool
  unfolding get
  contains_key k m = is_some (get k m)

  pub remove : Text → Map A → Map A
  remove k [] = []
  remove k ((j, v) ∷ m) = let rest = remove k m in if same_text k j then rest else (j, v) ∷ rest

  pub insert_new : Text → A → Map A → Map A
  insert_new k a [] = (k, a) ∷ []
  insert_new k a ((j, v) ∷ m) =
      let rest = insert_new k a m in if text_lt k j then (k, a) ∷ (j, v) ∷ m else (j, v) ∷ rest

  -- `entry(k).or_insert(a)`
  pub or_insert : Text → A → Map A → Map A
  unfolding contains_key
  or_insert k a m = if contains_key k m then m else insert_new k a m

  -- A change of the value at a key.
  pub modify : Text → (A → A) → Map A → Map A
  modify k f [] = []
  modify k f ((j, v) ∷ m) =
      let rest = modify k f m in if same_text k j then (j, f v) ∷ m else (j, v) ∷ rest

  -- The entries of the first map, each where the second has none for its key.
  pub or_insert_all : Map A → Map A → Map A
  unfolding or_insert
  or_insert_all [] m = m
  or_insert_all ((k, v) ∷ ks) m = or_insert_all ks (or_insert k v m)
