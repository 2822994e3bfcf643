-- ===== src/Battery/Model.antt =====
-- The battery types of crates/openlogi-core/src/device.rs.
use logi_battery.Base.{ℕ}

pub data BatteryLevel : Type 0 where
  critical low good full unknown : BatteryLevel

pub data BatteryStatus : Type 0 where
  discharging charging charging_slow full error unknown : BatteryStatus

pub record BatteryInfo : Type 0 where
  pub percentage : ℕ
  pub level : BatteryLevel
  pub status : BatteryStatus
