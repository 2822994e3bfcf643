-- ===== src/Hidpp/Device.antt =====
-- crates/openlogi-hidpp/src/device.rs: `read_feature_entry`, and the table that `enumerate_features`
-- returns for a count of entries. What the device does with each attempt to read each entry is given;
-- the lookups before the loop and the map of feature implementations are not modelled.
pub mod Table
mod Runs
use logi_battery.Base.{ℕ, zero, suc, ◌+◌, Option, none, some, List, [], ◌∷◌}
use logi_battery.Hidpp.V20.{ErrorType}
use logi_battery.Hidpp.Channel.{ChannelError, timeout}

-- `FeatureInformation`, less the flags of its type.
pub record FeatureInformation : Type 0 where
  pub id : ℕ
  pub version : ℕ

pub data Hidpp20Error : Type 0 where
  channel : ChannelError → Hidpp20Error
  feature : ErrorType → Hidpp20Error
  unsupported_response : Hidpp20Error

pub data Read {ℓ} (A : Type ℓ) : Type ℓ where
  ok : A → Read A
  err : Hidpp20Error → Read A

-- The outcome of one `select!`: the read's result, or nothing before the attempt's deadline.
pub data Attempt : Type 0 where
  answered : FeatureInformation → Attempt
  failed : Hidpp20Error → Attempt
  silent : Attempt

abbrev pub feature_read_attempts : ℕ
feature_read_attempts = 4

-- `last_error.unwrap_or(Hidpp20Error::Channel(ChannelError::Timeout))`
abbrev pub or_timeout : Option Hidpp20Error → Hidpp20Error
or_timeout none = channel timeout
or_timeout (some e) = e

-- What an attempt leaves to do: `rest` is the loop from the next attempt on, from its last error.
pub next_attempt :
    Attempt
    → Option Hidpp20Error
    → (Option Hidpp20Error → Read FeatureInformation)
    → Read FeatureInformation
next_attempt (answered info) last rest = ok info
next_attempt (failed (feature e)) last rest = err (feature e)
next_attempt (failed unsupported_response) last rest = err unsupported_response
next_attempt (failed (channel e)) last rest = rest (some (channel e))
next_attempt silent last rest = rest last

-- The loop over the attempts: those left, the number of the next, and the last error.
pub attempts : (ℕ → Attempt) → ℕ → ℕ → Option Hidpp20Error → Read FeatureInformation
attempts outcome zero n last = err (or_timeout last)
attempts outcome (suc left) n last = next_attempt (outcome n) last (attempts outcome left (suc n))

pub read_feature_entry : (ℕ → Attempt) → Read FeatureInformation
read_feature_entry outcome = attempts outcome feature_read_attempts 1 none

abbrev pub prepend {ℓ} : {A : Type ℓ} → A → Read (List A) → Read (List A)
prepend a (ok rest) = ok (a ∷ rest)
prepend a (err e) = err e

-- An entry and the rest of the table.
abbrev pub then_entries :
    Read FeatureInformation → Read (List FeatureInformation) → Read (List FeatureInformation)
then_entries (ok info) rest = prepend info rest
then_entries (err e) rest = err e

-- The loop over the entries: those left, and the index of the next.
pub entries : (ℕ → ℕ → Attempt) → ℕ → ℕ → Read (List FeatureInformation)
entries outcomes zero i = ok []
entries outcomes (suc left) i =
    then_entries (read_feature_entry (outcomes i)) (entries outcomes left (suc i))

-- The entries that `enumerate_features` collects, from a table of `count` entries.
pub feature_table : (ℕ → ℕ → Attempt) → ℕ → Read (List FeatureInformation)
feature_table outcomes count = entries outcomes count 1
