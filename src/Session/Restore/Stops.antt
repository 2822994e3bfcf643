-- ===== src/Session/Restore/Stops.antt =====
-- What the end of a capture session restores, on which channel, and what it keeps for another attempt.
use logi_battery.Base.{
  ℕ, List, [], ◌∷◌, Option, none, some, Bool, true, false, ◌&&◌, ◌≡◌, refl, ap, arith,
  if◌then◌else◌, KeyEq, inl, inr, Bool-cases, All,
}
use logi_battery.Routing.Registry.{Registry, lookup_shared}
use logi_battery.Session.Restore.{
  replacement_only, SharedChannel, PendingCaptureRestore, CaptureSessionOutcome, restored,
  restore_pending, Request, allow_current_channel, restore_on, on_channel, is_current, waits,
  attempt, retry, stop_for_current_publication, restore_after_stop, pending_of,
  rollback_capture_start,
}
use logi_battery.Session.Restore.Attempts.{all_answered, requests_of, restore_on-lem}

-- What is left for another attempt: the same requests for the same route.
abbrev pub IsKept :
    {Route Channel : Type 0}
    → PendingCaptureRestore Route Channel
    → CaptureSessionOutcome Route Channel
    → Type 0
IsKept token restored = Unit
IsKept token (restore_pending rest) =
    (requests_of rest ≡ requests_of token) × (rest.route ≡ token.route)

abbrev pub Avoids :
    {Channel : Type 0} ⦃ec : KeyEq Channel⦄ → Channel → List (Channel × Request) → Type 0
Avoids ⦃ec⦄ retired writes = All (λ w. ec.same w.0 retired ≡ false) writes

on_channel-Avoids :
    {Channel : Type 0} ⦃ec : KeyEq Channel⦄ (c retired : Channel) (rs : List Request)
    → ec.same c retired ≡ false
    → Avoids retired (on_channel c rs)
on_channel-Avoids ⦃ec⦄ c retired [] e = tt
on_channel-Avoids ⦃ec⦄ c retired (r ∷ rs) e = (e, on_channel-Avoids c retired rs e)

none_pending :
    {Route Channel : Type 0} (o : CaptureSessionOutcome Route Channel)
    → pending_of o ≡ none
    → o ≡ restored
none_pending restored e = refl
none_pending (restore_pending rest) e = cc

module _ {Node Route Channel : Type 0} ⦃er : KeyEq Route⦄ ⦃ec : KeyEq Channel⦄ where
  -- All that the session had diverted is restored on one channel, which is still current.
  abbrev pub IsComplete :
      Registry Node Route Channel
      → (ℕ → Bool)
      → PendingCaptureRestore Route Channel
      → List (Channel × Request)
      → Type 0
  IsComplete after answered token writes =
      (c : Channel) × (writes ≡ on_channel c (requests_of token))
      × (all_answered answered 0 (requests_of token) ≡ true)
      × (is_current after (record { channel = c; route = token.route }) ≡ true)

  abbrev pub IsAttempt :
      Registry Node Route Channel
      → (ℕ → Bool)
      → PendingCaptureRestore Route Channel
      → CaptureSessionOutcome Route Channel × List (Channel × Request)
      → Type 0
  IsAttempt after answered token r =
      (r.0 ≡ restored → IsComplete after answered token r.1) × IsKept token r.0

  counted-IsAttempt :
      (after : Registry Node Route Channel) (answered : ℕ → Bool)
      (t : PendingCaptureRestore Route Channel) (c : Channel) (b : Bool)
      → (b ≡ true → IsComplete after answered t (on_channel c (restore_on answered t).1))
      → IsAttempt after answered t
          (if b then restored else restore_pending t, on_channel c (restore_on answered t).1)
  counted-IsAttempt after answered t c true h = (λ e. h refl, tt)
  counted-IsAttempt after answered t c false h = (λ e. cc, (refl, refl))

  attempt-IsAttempt :
      (after : Registry Node Route Channel) (alive : Bool) (answered : ℕ → Bool)
      (t : PendingCaptureRestore Route Channel) (o : Option Channel)
      → IsAttempt after answered t (attempt after alive answered t o)
  attempt-IsAttempt after alive answered t none = (λ e. cc, (refl, refl))
  attempt-IsAttempt after alive answered t (some c) =
      elim (Bool-cases (waits t.retired_policy alive c t.retired_channel)) [
        | inl w ↦ rw w (λ e. cc, (refl, refl))
        | inr n ↦ rw n (
            counted-IsAttempt after answered t c
              ((restore_on answered t).0
                && is_current after (record { channel = c; route = t.route }))
              (λ e.
                let lem = restore_on-lem answered t in
                (c, ap (on_channel c) lem.1, ground (arith, e, lem.0), ground (arith, e))))
      ]

  attempt-Avoids :
      (after : Registry Node Route Channel) (answered : ℕ → Bool)
      (t : PendingCaptureRestore Route Channel) (o : Option Channel)
      → t.retired_policy ≡ replacement_only
      → Avoids t.retired_channel (attempt after true answered t o).1
  unfolding restore_on
  attempt-Avoids after answered t none p = tt
  attempt-Avoids after answered t (some c) p = elim (Bool-cases (ec.same c t.retired_channel)) [
    | inl s ↦ rw (p, s) tt
    | inr n ↦ rw (p, n) (on_channel-Avoids c t.retired_channel (restore_on answered t).1 n)
  ]

  -- A session has stopped, and its controls are restored as the registry says, which may change at any
  -- time. If the restoration counts as complete, then every request that undoes the session was made on
  -- one channel and answered, and that channel is current at the end. Else all of them are kept for the
  -- same route. If the channel of the session was no longer current at the stop and is alive, nothing
  -- was written to it.
  pub restore_after_stop-IsAttempt :
      (now before after : Registry Node Route Channel) (retired : SharedChannel Route Channel)
      (token : PendingCaptureRestore Route Channel) (answered : ℕ → Bool)
      → token.retired_policy ≡ replacement_only
      → IsAttempt after answered token (
          restore_after_stop
            (stop_for_current_publication (some now) retired)
            (some token)
            retired
            (some (before, after))
            true
            answered)
        × (is_current now retired ≡ false
            → Avoids token.retired_channel
                (restore_after_stop
                  (stop_for_current_publication (some now) retired)
                  (some token)
                  retired
                  (some (before, after))
                  true
                  answered).1)
  unfolding restore_after_stop stop_for_current_publication retry
  restore_after_stop-IsAttempt now before after retired token answered p =
      elim (Bool-cases (is_current now retired)) [
        | inl t ↦ rw t (
          attempt-IsAttempt after true answered (allow_current_channel token)
              (lookup_shared before token.route),
          (λ e. cc),
        )
        | inr n ↦ rw n (
          attempt-IsAttempt after true answered token (lookup_shared before token.route),
          (λ e. attempt-Avoids after answered token (lookup_shared before token.route) p),
        )
      ]

  -- A failed start that leaves nothing pending has undone all that the session had diverted.
  pub rollback_capture_start-IsComplete :
      {E : Type 0} (error : E) (before after : Registry Node Route Channel)
      (retired : SharedChannel Route Channel) (token : PendingCaptureRestore Route Channel)
      (alive : Bool) (answered : ℕ → Bool)
      → (rollback_capture_start error
          (some token)
          retired
          (some (before, after))
          alive
          answered).0.pending_restore
        ≡ none
      → IsComplete after answered token
          (rollback_capture_start error
            (some token)
            retired
            (some (before, after))
            alive
            answered).1
  unfolding rollback_capture_start retry
  rollback_capture_start-IsComplete error before after retired token alive answered e =
      (attempt-IsAttempt after alive answered (allow_current_channel token)
          (lookup_shared before token.route)).0
        (none_pending _ e)
