-- ===== src/Routing/Registry.antt =====
-- crates/openlogi-device/src/channel/registry.rs: the nodes that publish a channel for routes, in the
-- order of their first publication, and the lookup of a route. The node, the route and the channel
-- are parameters with their equality; that of channels is `Arc::ptr_eq`.
pub mod Owners
pub mod Shown
pub mod Refinement
mod Runs
use logi_battery.Base.{
  ℕ, suc, ◌+◌, ◌%◌, ◌^◌, Bool, true, false, not, ◌&&◌, ◌||◌, Option, none, some, List, [], ◌∷◌,
  ◌++◌, KeyEq, leb, ◌==◌, if◌then◌else◌, length,
}
use mathlib.Core.Option

pub record Publication (Node Route Channel : Type 0) : Type 0 where
  pub node : Node
  pub sequence : ℕ
  pub routes : List Route
  pub channel : Channel

pub record NodeRegistry (Node Route Channel : Type 0) : Type 0 where
  pub publications : List (Publication Node Route Channel)
  pub next_sequence : ℕ

-- The registry behind its lock: `version` counts the notifications of the subscribers.
pub record Registry (Node Route Channel : Type 0) : Type 0 where
  pub state : NodeRegistry Node Route Channel
  pub poisoned : Bool
  pub version : ℕ

pub empty : {Node Route Channel : Type 0} → NodeRegistry Node Route Channel
empty = record { publications = []; next_sequence = 0 }

module _ {Route : Type 0} ⦃er : KeyEq Route⦄ where
  abbrev pub contains : List Route → Route → Bool
  contains [] route = false
  contains (x ∷ xs) route = er.same x route || contains xs route

  -- `iter().all(|route| routes.contains(route))`
  abbrev pub all_in : List Route → List Route → Bool
  all_in [] routes = true
  all_in (x ∷ xs) routes = contains routes x && all_in xs routes

module _ {Node Route Channel : Type 0} where
  -- A publication further back was replaced.
  pub behind :
      Publication Node Route Channel
      → Option (List (Publication Node Route Channel) × Bool)
      → Option (List (Publication Node Route Channel) × Bool)
  behind p none = none
  behind p (some (ps, changed)) = some (p ∷ ps, changed)

  pub retain :
      (Node → Bool) → List (Publication Node Route Channel) → List (Publication Node Route Channel)
  retain keep [] = []
  retain keep (p ∷ ps) = let rest = retain keep ps in if keep p.node then p ∷ rest else rest

  pub retain_nodes :
      NodeRegistry Node Route Channel → (Node → Bool) → NodeRegistry Node Route Channel × Bool
  retain_nodes r keep =
      let ps = retain keep r.publications in
      (record r { publications = ps }, not (length ps == length r.publications))

  -- `min_by_key` keeps the first of two with the same sequence.
  pub older :
      Option (ℕ × Publication Node Route Channel)
      → Option (ℕ × Publication Node Route Channel)
      → Option (ℕ × Publication Node Route Channel)
  older none o = o
  older (some a) none = some a
  older (some a) (some b) = if leb (a.1).sequence (b.1).sequence then some a else some b

module _ {Node Route Channel : Type 0} ⦃en : KeyEq Node⦄ where
  pub remove_node : NodeRegistry Node Route Channel → Node → NodeRegistry Node Route Channel × Bool
  remove_node r node = retain_nodes r (λ n. not (en.same n node))

module _ {Node Route Channel : Type 0} ⦃er : KeyEq Route⦄ where
  -- The publication that serves a route, with its place.
  pub winner :
      Route
      → ℕ
      → List (Publication Node Route Channel)
      → Option (ℕ × Publication Node Route Channel)
  winner route i [] = none
  winner route i (p ∷ ps) =
      older (if contains p.routes route then some (i, p) else none) (winner route (suc i) ps)

  pub lookup : NodeRegistry Node Route Channel → Route → Option Channel
  lookup r route = Option.map (λ w. w.1.channel) (winner route 0 r.publications)

  -- A winner is the publication at a place: `std::ptr::eq` on the channel that it holds.
  abbrev pub wins_at : Option (ℕ × Publication Node Route Channel) → ℕ → Bool
  wins_at none i = false
  wins_at (some w) i = w.0 == i

  pub any_route :
      (Route → Channel → Bool)
      → List (Publication Node Route Channel)
      → ℕ
      → Channel
      → List Route
      → Bool
  any_route predicate all i channel [] = false
  any_route predicate all i channel (route ∷ routes) =
      predicate route channel && wins_at (winner route 0 all) i
      || any_route predicate all i channel routes

  pub any_publication :
      (Route → Channel → Bool)
      → List (Publication Node Route Channel)
      → ℕ
      → List (Publication Node Route Channel)
      → Bool
  any_publication predicate all i [] = false
  any_publication predicate all i (p ∷ ps) =
      any_route predicate all i p.channel p.routes || any_publication predicate all (suc i) ps

  pub any_current : (Route → Channel → Bool) → NodeRegistry Node Route Channel → Bool
  any_current predicate r = any_publication predicate r.publications 0 r.publications

module _ {Node Route Channel : Type 0} ⦃er : KeyEq Route⦄ ⦃ec : KeyEq Channel⦄ where
  pub is_same : Publication Node Route Channel → List Route → Channel → Bool
  is_same p routes channel =
      (all_in p.routes routes && all_in routes p.routes) && ec.same p.channel channel

  -- The publication after a replacement, and whether it changed.
  pub update :
      Publication Node Route Channel → List Route → Channel → Publication Node Route Channel × Bool
  update p routes channel =
      if is_same p routes channel
      then (p, false)
      else (record p { routes = routes; channel = channel }, true)

module _ {Node Route Channel : Type 0} ⦃en : KeyEq Node⦄ ⦃er : KeyEq Route⦄
    ⦃ec : KeyEq Channel⦄ where
  -- The first publication of the node is replaced in place, if there is one.
  pub replace_in :
      Node
      → List Route
      → Channel
      → List (Publication Node Route Channel)
      → Option (List (Publication Node Route Channel) × Bool)
  replace_in node routes channel [] = none
  replace_in node routes channel (p ∷ ps) =
      let rest = replace_in node routes channel ps in
      if en.same p.node node
      then some ((update p routes channel).0 ∷ ps, (update p routes channel).1)
      else behind p rest

  -- A replacement in place, or a publication behind all others.
  pub or_push :
      NodeRegistry Node Route Channel
      → Node
      → List Route
      → Channel
      → Option (List (Publication Node Route Channel) × Bool)
      → NodeRegistry Node Route Channel × Bool
  or_push r node routes channel (some (ps, changed)) = (record r { publications = ps }, changed)
  or_push r node routes channel none = (
    record {
      publications =
          r.publications
          ++ (record { node = node; sequence = r.next_sequence; routes = routes; channel = channel }
              ∷ []);
      next_sequence = (r.next_sequence + 1) % 2 ^ 64;
    },
    true,
  )

  pub replace_node :
      NodeRegistry Node Route Channel
      → Node
      → List Route
      → Channel
      → NodeRegistry Node Route Channel × Bool
  replace_node r node routes channel =
      or_push r node routes channel (replace_in node routes channel r.publications)

module _ {Node Route Channel : Type 0} where
  -- Subscribers wake if the publications changed.
  pub notify_change :
      Registry Node Route Channel
      → NodeRegistry Node Route Channel × Bool
      → Registry Node Route Channel
  notify_change s (r, changed) = record s {
    state = r;
    version = if changed then s.version + 1 else s.version;
  }

  -- A poisoned lock has no lookup.
  pub lookup_shared : ⦃er : KeyEq Route⦄ → Registry Node Route Channel → Route → Option Channel
  lookup_shared s route = if s.poisoned then none else lookup s.state route
