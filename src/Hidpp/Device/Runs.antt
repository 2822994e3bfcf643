-- ===== src/Hidpp/Device/Runs.antt =====
-- A table of two entries, the second of which is lost twice.
use logi_battery.Base.{ℕ, zero, suc}
use logi_battery.Hidpp.Channel.{timeout}
use logi_battery.Hidpp.Device.{
  FeatureInformation, Attempt, answered, failed, silent, channel, feature_table,
}
use logi_battery.Hidpp.Device.Table.{IsTable, feature_table-IsTable}

abbrev battery : FeatureInformation
battery = record { id = 0x1004; version = 3 }

abbrev attempts_of : ℕ → ℕ → Attempt
attempts_of zero n = silent
attempts_of (suc zero) n = answered (record { id = 0x0003; version = 0 })
attempts_of (suc (suc i)) zero = silent
attempts_of (suc (suc i)) (suc zero) = silent
attempts_of (suc (suc i)) (suc (suc zero)) = failed (channel timeout)
attempts_of (suc (suc i)) (suc (suc (suc n))) = answered battery

feature_table-IsTable_example : IsTable attempts_of 2 1 (feature_table attempts_of 2)
feature_table-IsTable_example = feature_table-IsTable attempts_of 2
