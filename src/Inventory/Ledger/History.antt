-- ===== src/Inventory/Ledger/History.antt =====
-- The ledger against a plain account of what happened: what it reports of a node follows from that
-- node's own observations since it was last unplugged, whatever happens to the others.
use logi_battery.Base.{
  KeyEq, ℕ, suc, ◌+◌, ◌≡◌, refl, sym, subst, List, [], ◌∷◌, Bool, true, false, Bool-cases, inl, inr,
  Option, none, some, min, arith, leb, if◌then◌else◌, ◌&&◌, not,
}
use logi_battery.Inventory.Model.{DeviceInventory}
use logi_battery.Inventory.Ledger.{
  node_miss_grace, channel_evict_after, SettledNode, NodeLedger, or_zero, reported, kept, empty,
  count_failure, settle, retain_nodes,
}

-- One tick of a node: whether it answered, and what it showed.
pub record Tick : Type 0 where
  pub healthy : Bool
  pub live : Option DeviceInventory

pub data Call (K : Type 0) : Type 0 where
  settles : K → Tick → Call K
  retains : (K → Bool) → Call K

-- The unhealthy ticks since the last healthy one; the newest tick stands first.
abbrev pub failing : List Tick → ℕ
failing [] = 0
failing (t ∷ ts) = if t.healthy then 0 else suc (failing ts)

-- What the last healthy tick showed.
abbrev pub last_answer : List Tick → Option DeviceInventory
last_answer [] = none
last_answer (t ∷ ts) = if t.healthy then t.live else last_answer ts

abbrev or_live : Option DeviceInventory → Option DeviceInventory → Option DeviceInventory
or_live none live = live
or_live (some inv) live = some inv

-- What the newest tick should report, and whether the channel should be dropped.
abbrev pub expected : Tick → List Tick → SettledNode
expected t ts = record {
  inventory =
      if not t.healthy && leb (failing (t ∷ ts)) node_miss_grace
      then or_live (last_answer ts) t.live
      else t.live;
  evict_channel = leb channel_evict_after (failing (t ∷ ts));
}

kept-eq :
    (good answer : Option DeviceInventory) (n f : ℕ)
    → n ≡ min 255 f
    → good ≡ (if leb f node_miss_grace then answer else none)
    → kept good (min 255 (n + 1)) ≡ (if leb (suc f) node_miss_grace then answer else none)
unfolding kept
kept-eq none answer n f c g = ground arith
kept-eq (some x) answer n f c g = ground arith

reported-eq :
    (good answer live : Option DeviceInventory) (n f : ℕ)
    → n ≡ min 255 f
    → good ≡ (if leb f node_miss_grace then answer else none)
    → reported good (min 255 (n + 1)) live
      ≡ (if leb (suc f) node_miss_grace then or_live answer live else live)
unfolding reported
reported-eq none answer live n f c g = ground arith
reported-eq (some x) answer live n f c g = ground arith

module _ {K : Type 0} ⦃e : KeyEq K⦄ where
  -- The newest call stands first.
  abbrev pub history : K → List (Call K) → List Tick
  history k [] = []
  history k (settles j t ∷ cs) = if e.same j k then t ∷ history k cs else history k cs
  history k (retains seen ∷ cs) = if seen k then history k cs else []

  pub step : NodeLedger K → Call K → NodeLedger K
  step l (settles k t) = (settle l k t.healthy t.live).0
  step l (retains seen) = retain_nodes l seen

  pub run : List (Call K) → NodeLedger K
  unfolding step
  run [] = empty
  run (c ∷ cs) = step (run cs) c

  -- What the ledger holds of a node with the given history.
  record Holds (l : NodeLedger K) (k : K) (ts : List Tick) : Type 0 where
    count : or_zero (l.failures k) ≡ min 255 (failing ts)
    good : l.last_good k ≡ (if leb (failing ts) node_miss_grace then last_answer ts else none)

  settle-Holds :
      (l : NodeLedger K) (k : K) (healthy : Bool) (live : Option DeviceInventory) (ts : List Tick)
      → Holds l k ts
      → Holds (settle l k healthy live).0 k (record { healthy = healthy; live = live } ∷ ts)
  unfolding settle
  settle-Holds l k true live ts h =
      let self = (e.same_iff k k).1 refl in record { count = rw self refl; good = rw self refl }
  settle-Holds l k false live ts h =
      let self = (e.same_iff k k).1 refl in
      record {
        count = rw self (omega (arith, h.count));
        good = rw self (kept-eq (l.last_good k) (last_answer ts) _ (failing ts) h.count h.good);
      }

  -- A tick of another node.
  settle-Holds_ne :
      (l : NodeLedger K) (j k : K) (healthy : Bool) (live : Option DeviceInventory) (ts : List Tick)
      → e.same j k ≡ false
      → Holds l k ts
      → Holds (settle l j healthy live).0 k ts
  unfolding settle
  settle-Holds_ne l j k true live ts n h = record { count = rw n h.count; good = rw n h.good }
  settle-Holds_ne l j k false live ts n h = record { count = rw n h.count; good = rw n h.good }

  retain-Holds :
      (l : NodeLedger K) (seen : K → Bool) (k : K) (ts : List Tick)
      → Holds l k ts
      → Holds (retain_nodes l seen) k (if seen k then ts else [])
  unfolding retain_nodes
  retain-Holds l seen k ts h = elim (Bool-cases (seen k)) [
    | inl t ↦ rw t (record { count = rw t h.count; good = rw t h.good })
    | inr f ↦ rw f (record { count = rw f refl; good = rw f refl })
  ]

  run-Holds : (cs : List (Call K)) (k : K) → Holds (run cs) k (history k cs)
  unfolding run
  run-Holds [] k = unfold empty in record { count = refl; good = refl }
  run-Holds (settles j t ∷ cs) k = elim (Bool-cases (e.same j k)) [
    | inl same ↦ rw same (
        subst (λ x. Holds (settle (run cs) x t.healthy t.live).0 k (t ∷ history k cs))
          (sym ((e.same_iff j k).0 same))
          (settle-Holds (run cs) k t.healthy t.live (history k cs) (run-Holds cs k)))
    | inr other ↦
        rw other
          (settle-Holds_ne (run cs) j k t.healthy t.live (history k cs) other (run-Holds cs k))
  ]
  run-Holds (retains seen ∷ cs) k = retain-Holds (run cs) seen k (history k cs) (run-Holds cs k)

  settle_answer :
      (l : NodeLedger K) (k : K) (healthy : Bool) (live : Option DeviceInventory) (ts : List Tick)
      → Holds l k ts
      → (settle l k healthy live).1 ≡ expected (record { healthy = healthy; live = live }) ts
  unfolding settle
  settle_answer l k true live ts h = refl
  settle_answer l k false live ts h = λ i. record {
    inventory = reported-eq (l.last_good k) (last_answer ts) live _ (failing ts) h.count h.good i;
    evict_channel = evicts i;
  }
    where
      evicts :
          leb channel_evict_after (count_failure l k) ≡ leb channel_evict_after (suc (failing ts))
      evicts = ground (arith, h.count)

  -- After any calls, a tick of a node reports what its own history calls for. A healthy tick reports
  -- the live result. An unhealthy one repeats the last healthy answer for the first three failures in
  -- a row, if that answer had an inventory, and reports the live result otherwise. The channel is to
  -- be dropped from the second failure in a row on. A node that was missing from a listing starts
  -- afresh, and the ticks of other nodes play no part.
  pub settle-expected :
      (cs : List (Call K)) (k : K) (t : Tick)
      → (settle (run cs) k t.healthy t.live).1 ≡ expected t (history k cs)
  settle-expected cs k t = settle_answer (run cs) k t.healthy t.live (history k cs) (run-Holds cs k)
