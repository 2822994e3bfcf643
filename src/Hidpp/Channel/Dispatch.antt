-- ===== src/Hidpp/Channel/Dispatch.antt =====
-- Which pending request a message answers.
use logi_battery.Base.{
  ◌≡◌, refl, ap, List, [], ◌∷◌, ◌++◌, Option, none, some, true, false, Bool-cases, Option-cases,
  inl, inr, All, ◌⊎◌,
}
use logi_battery.Hidpp.Message.{HidppMessage}
use logi_battery.Hidpp.Channel.{Channel, PendingMessage, take_match, behind, dispatch, notify}

abbrev pub Rejects : HidppMessage → PendingMessage → Type 0
Rejects msg p = p.response_predicate msg ≡ false

-- The queue split at the oldest request that accepts the message.
pub record SplitAt (msg : HidppMessage) (queue rest : List PendingMessage) (p : PendingMessage)
    : Type 0 where
  pub older : List PendingMessage
  pub newer : List PendingMessage
  pub whole : queue ≡ older ++ (p ∷ newer)
  pub left : rest ≡ older ++ newer
  pub accepted : p.response_predicate msg ≡ true
  pub older_reject : All (Rejects msg) older

abbrev pub Matches :
    HidppMessage → List PendingMessage → Option (PendingMessage × List PendingMessage) → Type 0
Matches msg queue none = All (Rejects msg) queue
Matches msg queue (some (p, rest)) = SplitAt msg queue rest p

behind-Matches :
    (msg : HidppMessage) (p : PendingMessage) (ps : List PendingMessage)
    (o : Option (PendingMessage × List PendingMessage))
    → Rejects msg p
    → Matches msg ps o
    → Matches msg (p ∷ ps) (behind p o)
unfolding behind
behind-Matches msg p ps none r m = (r, m)
behind-Matches msg p ps (some (q, rest)) r m = record {
  older = p ∷ m.older;
  newer = m.newer;
  whole = ap (◌∷◌ p) m.whole;
  left = ap (◌∷◌ p) m.left;
  accepted = m.accepted;
  older_reject = (r, m.older_reject);
}

pub take_match-Matches :
    (msg : HidppMessage) (ps : List PendingMessage) → Matches msg ps (take_match msg ps)
unfolding take_match
take_match-Matches msg [] = tt
take_match-Matches msg (p ∷ ps) = elim (Bool-cases (p.response_predicate msg)) [
  | inl t ↦ rw t (record {
    older = [];
    newer = ps;
    whole = refl;
    left = refl;
    accepted = t;
    older_reject = tt;
  })
  | inr f ↦ rw f (behind-Matches msg p ps _ f (take_match-Matches msg ps))
]

-- The channel after a message that the request `p` was waiting for.
abbrev pub answered : HidppMessage → Channel → PendingMessage → List PendingMessage → Channel
answered msg ch p rest =
    notify msg true (record ch { pending = rest; delivered = (p.id, msg) ∷ ch.delivered })

-- A message that every pending request rejects changes nothing but what the listeners heard, who are
-- told that it is unmatched. Any other goes to the oldest request that accepts it, and only to that
-- one: it leaves the queue, all others stay in their order, and the listeners are told.
pub dispatch_lem :
    (msg : HidppMessage) (ch : Channel)
    → (All (Rejects msg) ch.pending × (dispatch msg ch ≡ notify msg false ch))
      ⊎ ((p : PendingMessage) × (rest : List PendingMessage) × SplitAt msg ch.pending rest p
          × (dispatch msg ch ≡ answered msg ch p rest))
unfolding dispatch
dispatch_lem msg ch = elim (Option-cases (take_match msg ch.pending)) [
  | inl e ↦ inl (rw e at (take_match-Matches msg ch.pending), rw (e, dispatch))
  | inr ((p, rest), e) ↦
      inr (p, rest, rw e at (take_match-Matches msg ch.pending), rw (e, dispatch))
]
