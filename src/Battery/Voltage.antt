-- ===== src/Battery/Voltage.antt =====
-- crates/openlogi-hidpp/src/feature/battery_voltage.rs: the feature 0x1001.
use logi_battery.Base.{
  ℕ, ◌+◌, ◌*◌, List, Bool, get_or, ◌||◌, ◌==◌, not, if◌then◌else◌, bit_and, has_bits,
}

pub data ChargingStatus : Type 0 where
  discharging charging charging_fast charging_slow full not_charging : ChargingStatus

pub from_flags : ℕ → ChargingStatus
from_flags flags =
    if not (has_bits flags 0x80)
    then discharging
    else if bit_and flags 0x03 == 0x01 || bit_and flags 0x03 == 0x03
    then full
    else if bit_and flags 0x03 == 0x02
    then not_charging
    else if has_bits flags 0x08
    then charging_fast
    else if has_bits flags 0x10
    then charging_slow
    else charging

pub record VoltageInfo : Type 0 where
  pub voltage_mv : ℕ
  pub status : ChargingStatus
  pub critical : Bool

-- `u16::from_be_bytes`
abbrev pub from_be_bytes : ℕ → ℕ → ℕ
from_be_bytes hi lo = hi * 256 + lo

pub from_wire : List ℕ → VoltageInfo
from_wire payload = record {
  voltage_mv = from_be_bytes (get_or payload 0 0) (get_or payload 1 0);
  status = from_flags (get_or payload 2 0);
  critical = has_bits (get_or payload 2 0) 0x20;
}
