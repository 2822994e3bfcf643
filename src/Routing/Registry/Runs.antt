-- ===== src/Routing/Registry/Runs.antt =====
-- Two nodes for one route: the older owner leaves, and the younger takes over.
use logi_battery.Base.{ℕ, ◌≡◌, List, [], ◌∷◌, KeyEq, ==_iff, ◌==◌, arith}
use logi_battery.Routing.Registry.{lookup}
use logi_battery.Routing.Registry.Owners.{Op, publishes, removes, owners, first_owner}
use logi_battery.Routing.Registry.Refinement.{run, lookup-first_owner}

instance id-KeyEq : KeyEq ℕ
id-KeyEq = record { same = ◌==◌; same_iff = ==_iff }

abbrev handover : List (Op ℕ ℕ ℕ)
handover =
    removes 1
    ∷ publishes 2 (7 ∷ 8 ∷ []) 20
    ∷ publishes 1 (7 ∷ []) 11
    ∷ publishes 2 (7 ∷ []) 20
    ∷ publishes 1 (7 ∷ []) 10
    ∷ []

lookup-first_owner_example : lookup (run handover) 7 ≡ first_owner 7 (owners handover)
lookup-first_owner_example = lookup-first_owner handover 7 (omega arith)
