-- ===== src/Config/Map/Distinct.antt =====
-- The keys of a map are distinct, and stay so.
use logi_battery.Base.{
  [], ◌∷◌, none, Bool, true, false, ◌≡◌, ◌∙◌, refl, arith, Option-cases, inl, inr, if◌then◌else◌,
}
use logi_battery.Keys.Text.{same_text}
use logi_battery.Config.Map.{
  Text, Map, text_lt, get, contains_key, remove, insert_new, or_insert, modify,
}
use logi_battery.Config.Map.Laws.{same_text_iff, get-insert_new, get-modify, get-remove}

-- What both sides of a test have.
if_both {ℓ κ} :
    {A : Type ℓ} (P : A → Type κ) {x y : A} (b : Bool)
    → (b ≡ true → P x)
    → (b ≡ false → P y)
    → P (if b then x else y)
if_both P true hx hy = hx refl
if_both P false hx hy = hy refl

if_same {ℓ} : {A : Type ℓ} {x : A} (b : Bool) → (if b then x else x) ≡ x
if_same true = refl
if_same false = refl

module _ {ℓ} {A : Type ℓ} where
  -- No key is there twice.
  abbrev pub IsMap : Map A → Type ℓ
  IsMap [] = Unit {ℓ}
  IsMap ((k, v) ∷ m) = (get k m ≡ none) × IsMap m

  -- A key that is not in a map differs from the first key and is not in the rest.
  missing :
      (k j : Text) (v : A) (m : Map A)
      → get k ((j, v) ∷ m) ≡ none
      → (same_text j k ≡ false) × (get k m ≡ none)
  unfolding get
  missing k j v m e = ground (arith, same_text_iff k j, same_text_iff j k)

  pub insert_new-IsMap :
      (k : Text) (a : A) (m : Map A) → get k m ≡ none → IsMap m → IsMap (insert_new k a m)
  unfolding insert_new
  insert_new-IsMap k a [] e w = (e, tt)
  insert_new-IsMap k a ((j, v) ∷ m) e w =
      let apart = missing k j v m e in
      if_both IsMap (text_lt k j) (λ t. (e, w))
        (λ f. (get-insert_new k j a m apart.1 ∙ rw apart.0 w.0, insert_new-IsMap k a m apart.1 w.1))

  pub or_insert-IsMap : (k : Text) (a : A) (m : Map A) → IsMap m → IsMap (or_insert k a m)
  unfolding or_insert contains_key
  or_insert-IsMap k a m w = elim (Option-cases (get k m)) [
    | inl e ↦ rw e (insert_new-IsMap k a m e w)
    | inr (b, e) ↦ rw e w
  ]

  pub modify-IsMap : (k : Text) (f : A → A) (m : Map A) → IsMap m → IsMap (modify k f m)
  unfolding modify
  modify-IsMap k f [] w = tt
  modify-IsMap k f ((j, v) ∷ m) w =
      if_both IsMap (same_text k j) (λ t. w)
        (λ f'. (get-modify k j f m ∙ rw w.0 (if_same (same_text j k)), modify-IsMap k f m w.1))

  pub remove-IsMap : (k : Text) (m : Map A) → IsMap m → IsMap (remove k m)
  unfolding remove
  remove-IsMap k [] w = tt
  remove-IsMap k ((j, v) ∷ m) w =
      if_both IsMap (same_text k j) (λ t. remove-IsMap k m w.1)
        (λ f. (get-remove k j m ∙ rw w.0 (if_same (same_text j k)), remove-IsMap k m w.1))
