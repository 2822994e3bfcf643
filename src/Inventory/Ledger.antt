-- ===== src/Inventory/Ledger.antt =====
-- crates/openlogi-device/src/inventory/ledger.rs: the health of each HID node, and what to report of a
-- node that does not answer. A hash map is a function into `Option`; the key type is a parameter.
pub mod History
mod Runs
use logi_battery.Base.{
  KeyEq, ℕ, ◌+◌, Bool, true, false, Option, none, some, ◌≡◌, ◌↔◌, leb, min, if◌then◌else◌,
}
use logi_battery.Inventory.Model.{DeviceInventory}

abbrev pub node_miss_grace : ℕ
node_miss_grace = 3

abbrev pub channel_evict_after : ℕ
channel_evict_after = 2

pub record SettledNode : Type 0 where
  pub inventory : Option DeviceInventory
  pub evict_channel : Bool

pub record NodeLedger (K : Type 0) : Type 0 where
  pub last_good : K → Option DeviceInventory
  pub failures : K → Option ℕ

-- `entry(node).or_insert(0)`
abbrev pub or_zero : Option ℕ → ℕ
or_zero none = 0
or_zero (some n) = n

-- What an unhealthy tick reports, from the last good inventory and the failures so far, this one
-- included: the replay within the grace, or the live result.
pub reported : Option DeviceInventory → ℕ → Option DeviceInventory → Option DeviceInventory
reported none failures live = live
reported (some prev) failures live = if leb failures node_miss_grace then some prev else live

-- What is kept for the next tick: a snapshot past its grace is dropped.
pub kept : Option DeviceInventory → ℕ → Option DeviceInventory
kept none failures = none
kept (some prev) failures = if leb failures node_miss_grace then some prev else none

pub empty : {K : Type 0} → NodeLedger K
empty = record { last_good = λ k. none; failures = λ k. none }

module _ {K : Type 0} ⦃e : KeyEq K⦄ where
  -- `insert` for `some`, `remove` for `none`.
  abbrev pub update : {V : Type 0} → (K → Option V) → K → Option V → K → Option V
  update m k v j = if e.same k j then v else m j

  -- `*failures = failures.saturating_add(1)` on a `u8`
  abbrev pub count_failure : NodeLedger K → K → ℕ
  count_failure l node = min 255 (or_zero (l.failures node) + 1)

  pub settle : NodeLedger K → K → Bool → Option DeviceInventory → NodeLedger K × SettledNode
  settle l node true live = (
    record { last_good = update l.last_good node live; failures = update l.failures node none },
    record { inventory = live; evict_channel = false },
  )
  settle l node false live = (
    record {
      last_good = update l.last_good node (kept (l.last_good node) (count_failure l node));
      failures = update l.failures node (some (count_failure l node));
    },
    record {
      inventory = reported (l.last_good node) (count_failure l node) live;
      evict_channel = leb channel_evict_after (count_failure l node);
    },
  )

  pub retain_nodes : NodeLedger K → (K → Bool) → NodeLedger K
  retain_nodes l seen = record {
    last_good = λ k. if seen k then l.last_good k else none;
    failures = λ k. if seen k then l.failures k else none;
  }
