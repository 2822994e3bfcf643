-- ===== src/Hidpp/Channel/Waiting.antt =====
-- A request that waits behind older ones for its response, while other messages come and go.
use logi_battery.Base.{
  ℕ, ◌≡◌, ◌≢◌, ◌⊎◌, ◌∙◌, ◌≤◌, refl, ap, List, [], ◌∷◌, ◌++◌, Option, none, some, Bool, true, false,
  Bool-cases, inl, inr, All, arith, ◌==◌,
}
use logi_battery.Hidpp.Message.{HidppMessage}
use logi_battery.Hidpp.Channel.{PendingMessage, take_match, behind, remove_id}
use logi_battery.Hidpp.Channel.Dispatch.{Rejects}
use logi_battery.Hidpp.Channel.Requests.{count_pending}

abbrev pub IsOwn : ℕ → (HidppMessage → Bool) → PendingMessage → Type 0
IsOwn i predicate p = (p.id ≡ i) × (p.response_predicate ≡ predicate)

-- The request stands in the queue, and those before it reject the message.
abbrev pub IsNext : ℕ → (HidppMessage → Bool) → HidppMessage → List PendingMessage → Type 0
IsNext i predicate msg [] = ⊥
IsNext i predicate msg (p ∷ ps) = IsOwn i predicate p ⊎ (Rejects msg p × IsNext i predicate msg ps)

module _ (i : ℕ) (predicate : HidppMessage → Bool) (msg : HidppMessage) where
  pub append-IsNext :
      (ps qs : List PendingMessage) → IsNext i predicate msg ps → IsNext i predicate msg (ps ++ qs)
  append-IsNext [] qs w = absurd w
  append-IsNext (p ∷ ps) qs (inl e) = inl e
  append-IsNext (p ∷ ps) qs (inr (r, w)) = inr (r, append-IsNext ps qs w)

  -- A request registered last is next if all before it reject the message.
  pub last-IsNext :
      (ps : List PendingMessage)
      → All (Rejects msg) ps
      → IsNext i predicate msg (ps ++ (record { id = i; response_predicate = predicate } ∷ []))
  last-IsNext [] r = inl (refl, refl)
  last-IsNext (p ∷ ps) r = inr (r.0, last-IsNext ps r.1)

  -- No other request that goes away moves it back.
  pub remove_id-IsNext :
      (j : ℕ) (ps : List PendingMessage)
      → j ≢ i
      → IsNext i predicate msg ps
      → IsNext i predicate msg (remove_id j ps)
  unfolding remove_id
  remove_id-IsNext j [] n w = absurd w
  remove_id-IsNext j (p ∷ ps) n (inl e) = elim (Bool-cases (p.id == j)) [
    | inl t ↦ absurd (ground (arith, n, e.0))
    | inr f ↦ rw f (inl e)
  ]
  remove_id-IsNext j (p ∷ ps) n (inr (r, w)) = elim (Bool-cases (p.id == j)) [
    | inl t ↦ rw t w
    | inr f ↦ rw f (inr (r, remove_id-IsNext j ps n w))
  ]

  abbrev pub Leaves : Option (PendingMessage × List PendingMessage) → Type 0
  Leaves none = Unit
  Leaves (some (q, rest)) = IsNext i predicate msg rest

  own-Leaves :
      (p : PendingMessage) (o : Option (PendingMessage × List PendingMessage))
      → IsOwn i predicate p
      → Leaves (behind p o)
  unfolding behind
  own-Leaves p none h = tt
  own-Leaves p (some (r, left)) h = inl h

  behind-Leaves :
      (p : PendingMessage) (o : Option (PendingMessage × List PendingMessage))
      → Rejects msg p
      → Leaves o
      → Leaves (behind p o)
  unfolding behind
  behind-Leaves p none r w = tt
  behind-Leaves p (some (q, left)) r w = inr (r, w)

  -- A message that the request rejects leaves it in its place.
  pub take_match-Leaves :
      (other : HidppMessage) (ps : List PendingMessage)
      → predicate other ≡ false
      → IsNext i predicate msg ps
      → Leaves (take_match other ps)
  unfolding take_match
  take_match-Leaves other [] f w = absurd w
  take_match-Leaves other (p ∷ ps) f (inl e) =
      rw (ap (λ accepts. accepts other) e.1 ∙ f) (own-Leaves p (take_match other ps) e)
  take_match-Leaves other (p ∷ ps) f (inr (r, w)) = elim (Bool-cases (p.response_predicate other)) [
    | inl t ↦ rw t w
    | inr n ↦ rw n (behind-Leaves p (take_match other ps) r (take_match-Leaves other ps f w))
  ]

  -- The response goes to the request that is next and accepts it.
  pub take_match_next :
      (ps : List PendingMessage)
      → predicate msg ≡ true
      → IsNext i predicate msg ps
      → (own : PendingMessage) × (rest : List PendingMessage) × (take_match msg ps
          ≡ some (own, rest))
        × (own.id ≡ i)
  unfolding take_match behind
  take_match_next [] a w = absurd w
  take_match_next (p ∷ ps) a (inl e) = (p, ps, rw (e.1, a) refl, e.0)
  take_match_next (p ∷ ps) a (inr (r, w)) =
      let (own, rest, e, same) = take_match_next ps a w in (own, p ∷ rest, rw (r, e) refl, same)

  pub count_pending-IsNext :
      (ps : List PendingMessage) → IsNext i predicate msg ps → 1 ≤ count_pending i ps
  count_pending-IsNext [] w = absurd w
  count_pending-IsNext (p ∷ ps) (inl e) = ground (arith, e.0)
  count_pending-IsNext (p ∷ ps) (inr (r, w)) = ground (arith, count_pending-IsNext ps w)
