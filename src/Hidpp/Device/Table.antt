-- ===== src/Hidpp/Device/Table.antt =====
-- The feature table that a walk returns, entry by entry.
use logi_battery.Base.{
  ℕ, zero, suc, ◌+◌, ◌<◌, ◌≡◌, ◌⊎◌, inl, inr, refl, sym, ap, subst, Option, none, some, List, [],
  ◌∷◌, length, arith,
}
use logi_battery.Hidpp.Channel.{ChannelError, timeout}
use logi_battery.Hidpp.Device.{
  FeatureInformation, Hidpp20Error, channel, feature, unsupported_response, Read, ok, err, Attempt,
  answered, failed, silent, or_timeout, next_attempt, attempts, read_feature_entry, then_entries,
  entries, feature_table,
}

-- An attempt that the walk repeats: no answer in time, or an error of the channel.
abbrev pub IsLost : Attempt → Type 0
IsLost (answered info) = ⊥
IsLost (failed (channel e)) = Unit
IsLost (failed (feature e)) = ⊥
IsLost (failed unsupported_response) = ⊥
IsLost silent = Unit

-- The `k` attempts from `n` on were lost.
abbrev pub AllLost : (ℕ → Attempt) → ℕ → ℕ → Type 0
AllLost outcome n zero = Unit
AllLost outcome n (suc k) = IsLost (outcome n) × AllLost outcome (suc n) k

-- An attempt that decides the read, with what it gives.
abbrev pub Decides : Attempt → Read FeatureInformation → Type 0
Decides (answered info) r = r ≡ ok info
Decides (failed (channel e)) r = ⊥
Decides (failed (feature e)) r = r ≡ err (feature e)
Decides (failed unsupported_response) r = r ≡ err unsupported_response
Decides silent r = ⊥

abbrev pub IsChannelError : Read FeatureInformation → Type 0
IsChannelError r = (e : ChannelError) × (r ≡ err (channel e))

-- The result of up to `left` attempts from `n` on: the first that is not lost decides, or all are lost
-- and the error is one of the channel.
abbrev pub IsReadOf : (ℕ → Attempt) → ℕ → ℕ → Read FeatureInformation → Type 0
IsReadOf outcome left n r =
    ((k : ℕ) × (k < left) × AllLost outcome n k × Decides (outcome (n + k)) r)
    ⊎ (AllLost outcome n left × IsChannelError r)

-- An error so far is one of the channel.
abbrev IsLast : Option Hidpp20Error → Type 0
IsLast last = (e : ChannelError) × (or_timeout last ≡ channel e)

one_more :
    (outcome : ℕ → Attempt) (left n : ℕ) (r : Read FeatureInformation)
    → IsLost (outcome n)
    → IsReadOf outcome left (suc n) r
    → IsReadOf outcome (suc left) n r
one_more outcome left n r l (inl (k, lt, lost, d)) =
    let same : suc n + k ≡ n + suc k = omega arith in
    inl (suc k, omega arith, (l, lost), subst (λ i. Decides (outcome i) r) same d)
one_more outcome left n r l (inr (lost, e)) = inr ((l, lost), e)

step-IsReadOf :
    (outcome : ℕ → Attempt) (left n : ℕ) (last : Option Hidpp20Error) (a : Attempt)
    → outcome n ≡ a
    → IsLast last
    → ((l : Option Hidpp20Error)
        → IsLast l
        → IsReadOf outcome left (suc n) (attempts outcome left (suc n) l))
    → IsReadOf outcome (suc left) n (next_attempt a last (attempts outcome left (suc n)))
unfolding next_attempt
step-IsReadOf outcome left n last (answered info) e q h =
    let here : n ≡ n + 0 = omega arith in
    inl (
      0,
      omega arith,
      tt,
      subst (λ i. Decides (outcome i) (ok info)) here
          (subst (λ x. Decides x (ok info)) (sym e) refl),
    )
step-IsReadOf outcome left n last (failed (channel c)) e q h =
    one_more outcome left n _ (subst IsLost (sym e) tt) (h (some (channel c)) (c, refl))
step-IsReadOf outcome left n last (failed (feature f)) e q h =
    let here : n ≡ n + 0 = omega arith in
    inl (
      0,
      omega arith,
      tt,
      subst (λ i. Decides (outcome i) (err (feature f))) here
          (subst (λ x. Decides x (err (feature f))) (sym e) refl),
    )
step-IsReadOf outcome left n last (failed unsupported_response) e q h =
    let here : n ≡ n + 0 = omega arith in
    inl (
      0,
      omega arith,
      tt,
      subst (λ i. Decides (outcome i) (err unsupported_response)) here
          (subst (λ x. Decides x (err unsupported_response)) (sym e) refl),
    )
step-IsReadOf outcome left n last silent e q h =
    one_more outcome left n _ (subst IsLost (sym e) tt) (h last q)

attempts-IsReadOf :
    (outcome : ℕ → Attempt) (left n : ℕ) (last : Option Hidpp20Error)
    → IsLast last
    → IsReadOf outcome left n (attempts outcome left n last)
unfolding attempts
attempts-IsReadOf outcome zero n last (e, q) = inr (tt, (e, ap err q))
attempts-IsReadOf outcome (suc left) n last q =
    step-IsReadOf outcome left n last (outcome n) refl q
      (λ l. attempts-IsReadOf outcome left (suc n) l)

-- Each entry of a table from an index on is what its own four attempts give.
abbrev pub AllRead : (ℕ → ℕ → Attempt) → ℕ → List FeatureInformation → Type 0
AllRead outcomes i [] = Unit
AllRead outcomes i (x ∷ xs) = IsReadOf (outcomes i) 4 1 (ok x) × AllRead outcomes (suc i) xs

-- A table of `left` entries from the index `i` on: all of them, or the error of the first that fails.
abbrev pub IsTable : (ℕ → ℕ → Attempt) → ℕ → ℕ → Read (List FeatureInformation) → Type 0
IsTable outcomes left i (ok infos) = (length infos ≡ left) × AllRead outcomes i infos
IsTable outcomes left i (err e) =
    (before : List FeatureInformation) × (length before < left)
    × AllRead outcomes i before
    × IsReadOf (outcomes (i + length before)) 4 1 (err e)

then_entries-IsTable :
    (outcomes : ℕ → ℕ → Attempt) (left i : ℕ) (r : Read FeatureInformation)
    (rest : Read (List FeatureInformation))
    → IsReadOf (outcomes i) 4 1 r
    → IsTable outcomes left (suc i) rest
    → IsTable outcomes (suc left) i (then_entries r rest)
then_entries-IsTable outcomes left i (ok x) (ok xs) h t = (omega (arith, t.0), (h, t.1))
then_entries-IsTable outcomes left i (ok x) (err e) h (xs, lt, all, t) =
    let same : suc i + length xs ≡ i + length (x ∷ xs) = omega arith in
    let short : length (x ∷ xs) < suc left = omega arith in
    (x ∷ xs, short, (h, all), subst (λ k. IsReadOf (outcomes k) 4 1 (err e)) same t)
then_entries-IsTable outcomes left i (err e) rest h t =
    let same : i ≡ i + 0 = omega arith in
    ([], omega arith, tt, subst (λ k. IsReadOf (outcomes k) 4 1 (err e)) same h)

entries-IsTable :
    (outcomes : ℕ → ℕ → Attempt) (left i : ℕ) → IsTable outcomes left i (entries outcomes left i)
unfolding entries read_feature_entry
entries-IsTable outcomes zero i = (refl, tt)
entries-IsTable outcomes (suc left) i =
    then_entries-IsTable outcomes left i (read_feature_entry (outcomes i))
      (entries outcomes left (suc i)) (attempts-IsReadOf (outcomes i) 4 1 none (timeout, refl))
      (entries-IsTable outcomes left (suc i))

-- The loop of a walk over a feature table collects one entry for each index from 1 up to the device's
-- count, in that order, or stops with the error of the first that fails. The result for an entry is
-- that of the first of up to four attempts that is neither silent nor a failure of the channel, be it
-- an answer or a refusal; where all four are lost, it is an error of the channel.
pub feature_table-IsTable :
    (outcomes : ℕ → ℕ → Attempt) (count : ℕ)
    → IsTable outcomes count 1 (feature_table outcomes count)
unfolding feature_table
feature_table-IsTable outcomes count = entries-IsTable outcomes count 1
