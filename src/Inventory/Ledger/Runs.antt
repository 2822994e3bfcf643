-- ===== src/Inventory/Ledger/Runs.antt =====
-- Two nodes, one of which stops answering.
use logi_battery.Base.{KeyEq, ℕ, ◌≡◌, List, [], ◌∷◌, none, some, true, false, ◌==◌, ==_iff}
use logi_battery.Inventory.Model.{DeviceInventory}
use logi_battery.Inventory.Ledger.{settle}
use logi_battery.Inventory.Ledger.History.{
  Tick, Call, settles, retains, expected, history, run, settle-expected,
}

instance number-KeyEq : KeyEq ℕ
number-KeyEq = record { same = ◌==◌; same_iff = ==_iff }

abbrev receiver : DeviceInventory
receiver = record {
  receiver = record { name = []; vendor_id = 0x046d; product_id = 0xc548; unique_id = none };
  paired = [];
}

abbrev answered : Tick
answered = record { healthy = true; live = some receiver }

abbrev silent : Tick
silent = record { healthy = false; live = none }

-- Node 7 answered and failed twice since; node 8 answered in between and is gone again.
abbrev calls : List (Call ℕ)
calls =
    retains (λ k. k == 7)
    ∷ settles 7 silent
    ∷ settles 8 answered
    ∷ settles 7 silent
    ∷ settles 7 answered
    ∷ []

settle-expected_example : (settle (run calls) 7 false none).1 ≡ expected silent (history 7 calls)
settle-expected_example = settle-expected calls 7 silent
