-- ===== src/Settings/Light.antt =====
-- crates/openlogi-core/src/device/light.rs: the value ranges of standalone lights.
pub mod Nearest
pub mod Percent
mod Runs
use logi_battery.Base.{
  ℕ, ◌+◌, ◌-◌, ◌*◌, ◌/◌, ◌%◌, Option, none, some, Bool, true, false, not, ◌&&◌, min, max, ltb, leb,
  ◌==◌, if◌then◌else◌,
}

pub data LightValueUnit : Type 0 where
  percent lumens kelvin : LightValueUnit

-- The fields are `u16`.
pub record LightValueRange : Type 0 where
  pub lower : ℕ
  pub upper : ℕ
  pub step : ℕ
  pub unit : LightValueUnit

pub data LightValueRangeError : Type 0 where
  reversed : ℕ → ℕ → LightValueRangeError
  zero_step : LightValueRangeError
  unaligned : ℕ → ℕ → ℕ → LightValueRangeError
  percent_out_of_bounds : ℕ → ℕ → LightValueRangeError

pub data Made : Type 0 where
  ok : LightValueRange → Made
  err : LightValueRangeError → Made

abbrev pub is_percent : LightValueUnit → Bool
is_percent percent = true
is_percent lumens = false
is_percent kelvin = false

abbrev pub u16_max : ℕ
u16_max = 65535

-- `saturating_add` and `saturating_mul` on a `u16` cap their result.
abbrev pub saturated : ℕ → ℕ
saturated n = min n u16_max

pub new : ℕ → ℕ → ℕ → LightValueUnit → Made
new lower upper step unit =
    if ltb upper lower
    then err (reversed lower upper)
    else if step == 0
    then err zero_step
    else if not ((upper - lower) % step == 0)
    then err (unaligned lower upper step)
    else if is_percent unit && ltb 100 upper
    then err (percent_out_of_bounds lower upper)
    else ok (record { lower = lower; upper = upper; step = step; unit = unit })

pub contains : LightValueRange → ℕ → Bool
contains self value =
    leb self.lower value
    && leb value self.upper
    && not (self.step == 0)
    && (value - self.lower) % self.step == 0

-- `Ord::clamp`
abbrev pub clamp : LightValueRange → ℕ → ℕ
clamp self value = min (max value self.lower) self.upper

-- The index of the nearest stop, by the offset from the lower bound.
pub index_of : ℕ → ℕ → ℕ
index_of offset step =
    if leb step (saturated (offset % step * 2))
    then saturated (offset / step + 1)
    else offset / step

pub quantize : LightValueRange → ℕ → ℕ
quantize self value =
    let index = index_of (clamp self value - self.lower) self.step in
    min (saturated (self.lower + saturated (index * self.step))) self.upper

-- `u16::try_from`
abbrev pub to_u16 : ℕ → Option ℕ
to_u16 n = if leb n u16_max then some n else none

abbrev pub map_quantize : LightValueRange → Option ℕ → Option ℕ
map_quantize self none = none
map_quantize self (some value) = some (quantize self value)

-- The widened arithmetic on `u32` does not wrap: `span * level + 50` is below 2 ^ 23.
pub native_for_percent : LightValueRange → ℕ → Option ℕ
native_for_percent self level =
    if ltb 100 level
    then none
    else map_quantize self (to_u16 (self.lower + ((self.upper - self.lower) * level + 50) / 100))

-- `u8::try_from`
abbrev pub to_u8 : ℕ → Option ℕ
to_u8 n = if leb n 255 then some n else none

pub percent_for_native : LightValueRange → ℕ → Option ℕ
percent_for_native self value =
    let span = self.upper - self.lower in
    if not (contains self value)
    then none
    else if span == 0
    then some 0
    else to_u8 (((value - self.lower) * 100 + span / 2) / span)
