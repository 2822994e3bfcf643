-- ===== src/Config/Map/Laws.antt =====
-- What a map holds after a change.
use logi_battery.Base.{
  [], ◌∷◌, Option, none, some, true, false, ◌≡◌, ◌↔◌, ==_iff, ap, refl, sym, ◌∙◌, not, ◌&&◌, ◌||◌,
  if◌then◌else◌, arith, Bool-cases, inl, inr, or_else,
}
use logi_battery.Keys.Text.{same_text}
use logi_battery.Config.Map.{
  Text, Map, get, contains_key, value_or, remove, insert_new, or_insert, modify, or_insert_all,
}

pub same_text_iff : (a b : Text) → (same_text a b ≡ true) ↔ (a ≡ b)
unfolding same_text
same_text_iff [] [] = ground arith
same_text_iff [] (b ∷ bs) = ground arith
same_text_iff (a ∷ as') [] = ground arith
same_text_iff (a ∷ as') (b ∷ bs) = ground (arith, same_text_iff as' bs, ==_iff a b)

pub same_text_refl : (a : Text) → same_text a a ≡ true
same_text_refl a = (same_text_iff a a).1 refl

abbrev pub map_value {ℓ} : {A : Type ℓ} → (A → A) → Option A → Option A
map_value f none = none
map_value f (some a) = some (f a)

module _ {ℓ} {A : Type ℓ} where
  pub get-insert_new :
      (k j : Text) (a : A) (m : Map A)
      → get k m ≡ none
      → get j (insert_new k a m) ≡ (if same_text j k then some a else get j m)
  unfolding get insert_new
  get-insert_new k j a [] e = refl
  get-insert_new k j a ((i, v) ∷ m) e =
      ground
        (arith, same_text_iff j k, same_text_iff j i, same_text_iff k i, get-insert_new k j a m)

  pub get-or_insert :
      (k j : Text) (a : A) (m : Map A)
      → get j (or_insert k a m) ≡ (if same_text j k then or_else (get k m) (some a) else get j m)
  unfolding or_insert contains_key
  get-or_insert k j a m = ground (arith, same_text_iff j k, get-insert_new k j a m)

  pub get-modify :
      (k j : Text) (f : A → A) (m : Map A)
      → get j (modify k f m) ≡ (if same_text j k then map_value f (get j m) else get j m)
  unfolding get modify
  get-modify k j f [] = ground arith
  get-modify k j f ((i, v) ∷ m) =
      ground (arith, same_text_iff j k, same_text_iff j i, same_text_iff k i, get-modify k j f m)

  pub get-or_insert_all :
      (ks m : Map A) (j : Text) → get j (or_insert_all ks m) ≡ or_else (get j m) (get j ks)
  unfolding or_insert_all get
  get-or_insert_all [] m j = ground arith
  get-or_insert_all ((k, v) ∷ ks) m j =
      get-or_insert_all ks (or_insert k v m) j
      ∙ ground (arith, get-or_insert k j v m, same_text_iff j k)

  -- Keys that are the same have the same value.
  pub same_get : (k j : Text) (m : Map A) → same_text j k ≡ true → get k m ≡ get j m
  same_get k j m e = ap (λ i. get i m) (sym ((same_text_iff j k).0 e))

  -- A value that is changed, once a missing one was put in.
  pub get-modify-or_insert :
      (k j : Text) (f : A → A) (a : A) (m : Map A)
      → get j (modify k f (or_insert k a m))
        ≡ (if same_text j k then some (f (value_or a (get j m))) else get j m)
  get-modify-or_insert k j f a m =
      get-modify k j f (or_insert k a m) ∙ elim (Bool-cases (same_text j k)) [
        | inl t ↦ (let same_key = same_get k j m t in ground (arith, get-or_insert k j a m))
        | inr n ↦ ground (arith, get-or_insert k j a m)
      ]

  pub get-remove :
      (k j : Text) (m : Map A) → get j (remove k m) ≡ (if same_text j k then none else get j m)
  unfolding get remove
  get-remove k j [] = ground arith
  get-remove k j ((i, v) ∷ m) =
      ground (arith, same_text_iff j k, same_text_iff j i, same_text_iff k i, get-remove k j m)

  pub contains_key-remove :
      (k j : Text) (m : Map A)
      → contains_key j (remove k m) ≡ (not (same_text j k) && contains_key j m)
  unfolding contains_key
  contains_key-remove k j m = ground (arith, get-remove k j m)

  pub contains_key-or_insert :
      (k j : Text) (a : A) (m : Map A)
      → contains_key j (or_insert k a m) ≡ (same_text j k || contains_key j m)
  unfolding contains_key
  contains_key-or_insert k j a m = elim (Bool-cases (same_text j k)) [
    | inl t ↦ (let same_key = same_get k j m t in ground (arith, get-or_insert k j a m))
    | inr n ↦ ground (arith, get-or_insert k j a m)
  ]

  pub contains_key-modify :
      (k j : Text) (f : A → A) (m : Map A) → contains_key j (modify k f m) ≡ contains_key j m
  unfolding contains_key
  contains_key-modify k j f m = ground (arith, get-modify k j f m)

  pub contains_key-or_insert_all :
      (ks m : Map A) (j : Text)
      → contains_key j (or_insert_all ks m) ≡ (contains_key j m || contains_key j ks)
  unfolding contains_key
  contains_key-or_insert_all ks m j = ground (arith, get-or_insert_all ks m j)

  pub get-cons :
      (k j : Text) (v : A) (m : Map A)
      → get k ((j, v) ∷ m) ≡ (if same_text k j then some v else get k m)
  unfolding get
  get-cons k j v m = refl

  pub get-nil : (k : Text) → get {A = A} k [] ≡ none
  unfolding get
  get-nil k = refl

  -- Keys that are the same are in the same maps.
  pub same_contains_key :
      (k j : Text) (m : Map A) → same_text j k ≡ true → contains_key j m ≡ contains_key k m
  same_contains_key k j m e = ap (λ i. contains_key i m) ((same_text_iff j k).0 e)

pub contains_key-nil {ℓ} : (A : Type ℓ) (k : Text) → contains_key {A = A} k [] ≡ false
unfolding contains_key get
contains_key-nil A k = refl

pub contains_key-cons {ℓ} :
    {A : Type ℓ} (k j : Text) (v : A) (m : Map A)
    → contains_key k ((j, v) ∷ m) ≡ (same_text k j || contains_key k m)
unfolding contains_key get
contains_key-cons k j v m = ground arith
