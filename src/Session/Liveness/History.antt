-- ===== src/Session/Liveness/History.antt =====
-- When a capture channel is probed and when it is replaced, by what happened on it.
use logi_battery.Base.{
  ℕ, ◌+◌, ◌≤◌, ◌≡◌, ◌≢◌, ◌⊎◌, ◌↔◌, inl, inr, refl, sym, ◌∙◌, List, [], ◌∷◌, true, false, Bool-cases,
  arith, ==_iff, ◌==◌, if◌then◌else◌,
}
use logi_battery.Session.Liveness.{
  idle_interval, PingOutcome, delivered, all_silent, channel_failed, continue, restart,
  CaptureLiveness, new, take_activity, record_activity, ping_due, conclude, finish_ping,
}

-- What the session does with the liveness of its channel: when, and at which activity generation.
pub data Call : Type 0 where
  seen : ℕ → ℕ → Call
  checked : ℕ → ℕ → Call
  pinged : ℕ → ℕ → PingOutcome → Call

-- The state after the calls, the latest of which stands first.
unfoldable pub after : ℕ → ℕ → List Call → CaptureLiveness
after t0 g0 [] = new t0 g0
after t0 g0 (seen t g ∷ cs) = record_activity t g (after t0 g0 cs)
after t0 g0 (checked t g ∷ cs) = (ping_due t g (after t0 g0 cs)).0
after t0 g0 (pinged t g o ∷ cs) = (finish_ping t g o (after t0 g0 cs)).0

abbrev generation_of : Call → ℕ
generation_of (seen t g) = g
generation_of (checked t g) = g
generation_of (pinged t g o) = g

-- The generation at the latest call.
abbrev pub latest : ℕ → List Call → ℕ
latest g0 [] = g0
latest g0 (c ∷ cs) = generation_of c

-- The time of the latest call that found new activity or ended a probe.
abbrev pub marked : ℕ → ℕ → List Call → ℕ
marked t0 g0 [] = t0
marked t0 g0 (seen t g ∷ cs) = if g == latest g0 cs then marked t0 g0 cs else t
marked t0 g0 (checked t g ∷ cs) = if g == latest g0 cs then marked t0 g0 cs else t
marked t0 g0 (pinged t g o ∷ cs) = t

-- The latest probe met silence, and nothing was delivered since.
abbrev pub IsSilent : ℕ → List Call → Type 0
IsSilent g0 [] = ⊥
IsSilent g0 (seen t g ∷ cs) = (g ≡ latest g0 cs) × IsSilent g0 cs
IsSilent g0 (checked t g ∷ cs) = (g ≡ latest g0 cs) × IsSilent g0 cs
IsSilent g0 (pinged t g all_silent ∷ cs) = g ≡ latest g0 cs
IsSilent g0 (pinged t g delivered ∷ cs) = ⊥
IsSilent g0 (pinged t g channel_failed ∷ cs) = ⊥

-- No probe so far asked for a restart.
abbrev pub Continues : ℕ → ℕ → List Call → Type 0
Continues t0 g0 [] = Unit
Continues t0 g0 (seen t g ∷ cs) = Continues t0 g0 cs
Continues t0 g0 (checked t g ∷ cs) = Continues t0 g0 cs
Continues t0 g0 (pinged t g o ∷ cs) =
    ((finish_ping t g o (after t0 g0 cs)).1 ≡ continue) × Continues t0 g0 cs

after-latest : (t0 g0 : ℕ) (cs : List Call) → (after t0 g0 cs).activity_generation ≡ latest g0 cs
unfolding after new take_activity record_activity ping_due finish_ping conclude
after-latest t0 g0 [] = refl
after-latest t0 g0 (seen t g ∷ cs) = ground (arith, after-latest t0 g0 cs)
after-latest t0 g0 (checked t g ∷ cs) = ground (arith, after-latest t0 g0 cs)
after-latest t0 g0 (pinged t g o ∷ cs) = ground (arith, after-latest t0 g0 cs)

after-marked :
    (t0 g0 : ℕ) (cs : List Call) → (after t0 g0 cs).idle_deadline ≡ marked t0 g0 cs + idle_interval
unfolding after new take_activity record_activity ping_due finish_ping conclude
after-marked t0 g0 [] = refl
after-marked t0 g0 (seen t g ∷ cs) = ground (arith, after-latest t0 g0 cs, after-marked t0 g0 cs)
after-marked t0 g0 (checked t g ∷ cs) = ground (arith, after-latest t0 g0 cs, after-marked t0 g0 cs)
after-marked t0 g0 (pinged t g o ∷ cs) =
    ground (arith, after-latest t0 g0 cs, after-marked t0 g0 cs)

-- A silent probe with no other activity strikes once more, and the second strike restarts.
silent_quiet :
    (now g : ℕ) (s : CaptureLiveness)
    → g ≡ s.activity_generation
    → s.silent_strikes ≤ 1
    → ((finish_ping now g all_silent s).0.silent_strikes ≡ s.silent_strikes + 1)
      × (((finish_ping now g all_silent s).1 ≡ restart) ↔ (s.silent_strikes ≡ 1))
unfolding finish_ping take_activity conclude
silent_quiet now g s e b = (ground arith, ground arith)

-- Any other activity clears the strikes.
silent_heard :
    (now g : ℕ) (s : CaptureLiveness)
    → g ≢ s.activity_generation
    → ((finish_ping now g all_silent s).0.silent_strikes ≡ 0)
      × ((finish_ping now g all_silent s).1 ≡ continue)
unfolding finish_ping take_activity conclude
silent_heard now g s n = (ground arith, ground arith)

abbrev Strikes : ℕ → ℕ → List Call → Type 0
Strikes t0 g0 cs =
    (((after t0 g0 cs).silent_strikes ≡ 0) × ¬ IsSilent g0 cs)
    ⊎ (((after t0 g0 cs).silent_strikes ≡ 1) × IsSilent g0 cs)

ne_of_test : (a b : ℕ) → (a == b) ≡ false → a ≢ b
ne_of_test a b e = ground arith

continue-ne-restart : continue ≢ restart
continue-ne-restart e = cc

Strikes-le : (t0 g0 : ℕ) (cs : List Call) → Strikes t0 g0 cs → (after t0 g0 cs).silent_strikes ≤ 1
Strikes-le t0 g0 cs (inl z) = omega (arith, z.0)
Strikes-le t0 g0 cs (inr o) = omega (arith, o.0)

take_same :
    (t g : ℕ) (s : CaptureLiveness)
    → g ≡ s.activity_generation
    → (take_activity t g s).0.silent_strikes ≡ s.silent_strikes
unfolding take_activity
take_same t g s e = ground arith

take_other :
    (t g : ℕ) (s : CaptureLiveness)
    → g ≢ s.activity_generation
    → (take_activity t g s).0.silent_strikes ≡ 0
unfolding take_activity
take_other t g s n = ground arith

failed_restarts : (t g : ℕ) (s : CaptureLiveness) → (finish_ping t g channel_failed s).1 ≢ continue
unfolding finish_ping conclude
failed_restarts t g s h = cc

pinged-Strikes :
    (t0 g0 t g : ℕ) (cs : List Call)
    → (finish_ping t g all_silent (after t0 g0 cs)).1 ≡ continue
    → Strikes t0 g0 cs
    → (((finish_ping t g all_silent (after t0 g0 cs)).0.silent_strikes ≡ 0) × (g ≢ latest g0 cs))
      ⊎ (((finish_ping t g all_silent (after t0 g0 cs)).0.silent_strikes ≡ 1) × (g ≡ latest g0 cs))
pinged-Strikes t0 g0 t g cs k v =
    let gen = after-latest t0 g0 cs in
    elim (Bool-cases (g == (after t0 g0 cs).activity_generation)) [
      | inl e ↦
          let q = silent_quiet t g (after t0 g0 cs) (ground arith) (Strikes-le t0 g0 cs v) in
          inr (ground arith, ground arith)
      | inr e ↦ let h = silent_heard t g (after t0 g0 cs) (ground arith) in inl (h.0, ground arith)
    ]

-- Activity that is looked for is either the same as at the latest call, or it clears the strikes.
taken-Strikes :
    (t0 g0 t g : ℕ) (cs : List Call)
    → Strikes t0 g0 cs
    → (((take_activity t g (after t0 g0 cs)).0.silent_strikes ≡ 0)
        × ¬ ((g ≡ latest g0 cs) × IsSilent g0 cs))
      ⊎ (((take_activity t g (after t0 g0 cs)).0.silent_strikes ≡ 1)
          × ((g ≡ latest g0 cs) × IsSilent g0 cs))
taken-Strikes t0 g0 t g cs v =
    let gen = after-latest t0 g0 cs in
    elim (Bool-cases (g == (after t0 g0 cs).activity_generation)) [
      | inl e ↦ elim v [
        | inl z ↦ inl (take_same t g (after t0 g0 cs) ((==_iff g _).0 e) ∙ z.0, λ h. z.1 h.1)
        | inr o ↦
            inr (
              take_same t g (after t0 g0 cs) ((==_iff g _).0 e) ∙ o.0,
              ((==_iff g _).0 e ∙ gen, o.1),
            )
      ]
      | inr e ↦
          let n = ne_of_test g _ e in
          inl (take_other t g (after t0 g0 cs) n, λ h. n (h.0 ∙ sym gen))
    ]

after-Strikes : (t0 g0 : ℕ) (cs : List Call) → Continues t0 g0 cs → Strikes t0 g0 cs
unfolding after record_activity ping_due
after-Strikes t0 g0 [] k = inl (unfold new in refl, λ h. h)
after-Strikes t0 g0 (seen t g ∷ cs) k = taken-Strikes t0 g0 t g cs (after-Strikes t0 g0 cs k)
after-Strikes t0 g0 (checked t g ∷ cs) k = taken-Strikes t0 g0 t g cs (after-Strikes t0 g0 cs k)
after-Strikes t0 g0 (pinged t g delivered ∷ cs) k =
    inl (unfold finish_ping conclude in refl, λ h. h)
after-Strikes t0 g0 (pinged t g channel_failed ∷ cs) k =
    absurd (failed_restarts t g (after t0 g0 cs) k.0)
after-Strikes t0 g0 (pinged t g all_silent ∷ cs) k =
    pinged-Strikes t0 g0 t g cs k.0 (after-Strikes t0 g0 cs k.1)

-- A probe is due exactly if nothing was delivered since the latest call and 20 seconds have passed
-- since the latest call that found new activity or ended a probe, or since the start.
pub ping_due-marked :
    (t0 g0 now g : ℕ) (cs : List Call)
    → ((ping_due now g (after t0 g0 cs)).1 ≡ true)
      ↔ ((g ≡ latest g0 cs) × (marked t0 g0 cs + 20000 ≤ now))
unfolding ping_due take_activity
ping_due-marked t0 g0 now g cs = ground (arith, after-latest t0 g0 cs, after-marked t0 g0 cs)

-- When a completed probe has the channel replaced.
abbrev pub Replaces : ℕ → ℕ → List Call → PingOutcome → Type 0
Replaces g0 g cs delivered = ⊥
Replaces g0 g cs channel_failed = Unit
Replaces g0 g cs all_silent = (g ≡ latest g0 cs) × IsSilent g0 cs

-- On a channel that no probe has had replaced so far, a completed probe has it replaced exactly if the
-- probe failed, or if it met silence, nothing was delivered meanwhile, and the probe before it met
-- silence too with nothing delivered since.
pub finish_ping-Replaces :
    (t0 g0 now g : ℕ) (cs : List Call) (outcome : PingOutcome)
    → Continues t0 g0 cs
    → ((finish_ping now g outcome (after t0 g0 cs)).1 ≡ restart) ↔ Replaces g0 g cs outcome
finish_ping-Replaces t0 g0 now g cs delivered k =
    unfold finish_ping conclude in (λ h. cc, λ h. absurd h)
finish_ping-Replaces t0 g0 now g cs channel_failed k =
    unfold finish_ping conclude in (λ h. tt, λ h. refl)
finish_ping-Replaces t0 g0 now g cs all_silent k =
    let v = after-Strikes t0 g0 cs k in
    let gen = after-latest t0 g0 cs in
    elim (Bool-cases (g == (after t0 g0 cs).activity_generation)) [
      | inl e ↦
          let q = silent_quiet now g (after t0 g0 cs) (ground arith) (Strikes-le t0 g0 cs v) in
          elim v [
            | inl z ↦ (λ h. absurd (omega (arith, q.1.0 h, z.0)), λ h. absurd (z.1 h.1))
            | inr o ↦ (λ h. ((==_iff g _).0 e ∙ gen, o.1), λ h. q.1.1 o.0)
          ]
      | inr e ↦
          let n = ne_of_test g _ e in
          let h = silent_heard now g (after t0 g0 cs) n in
          (λ r. absurd (continue-ne-restart (sym h.1 ∙ r)), λ p. absurd (n (p.0 ∙ sym gen)))
    ]
