-- ===== src/Base/Int.antt =====
-- Signed integers, and the saturating arithmetic of `i32`.
use Prim.Native.Nat.{ℕ, suc, ◌+◌, ◌-◌, ◌*◌, ◌≤◌, ◌^◌, min}
use native.Mathlib.Omega.{arith}
use logi_battery.Base.Tests.{leb, if◌then◌else◌}

-- `negsuc n` is -(n + 1).
pub data ℤ : Type 0 where
  pos : ℕ → ℤ
  negsuc : ℕ → ℤ

abbrev pub pos_part : ℤ → ℕ
pos_part (pos n) = n
pos_part (negsuc n) = 0

abbrev pub neg_part : ℤ → ℕ
neg_part (pos n) = 0
neg_part (negsuc n) = suc n

-- a - b, as an integer.
abbrev pub sub_ℕ : ℕ → ℕ → ℤ
sub_ℕ a b = if leb b a then pos (a - b) else negsuc (b - a - 1)

infixl 65 ◌+ℤ◌
pub ◌+ℤ◌ : ℤ → ℤ → ℤ
a +ℤ b = sub_ℕ (pos_part a + pos_part b) (neg_part a + neg_part b)

abbrev pub i32_max : ℕ
i32_max = 2 ^ 31 - 1

-- From -(2 ^ 31) to 2 ^ 31 - 1.
abbrev pub IsI32 : ℤ → Type 0
IsI32 (pos n) = n ≤ i32_max
IsI32 (negsuc n) = n ≤ i32_max

-- The nearest `i32`.
abbrev pub clamp_i32 : ℤ → ℤ
clamp_i32 (pos n) = pos (min n i32_max)
clamp_i32 (negsuc n) = negsuc (min n i32_max)

pub saturating_add : ℤ → ℤ → ℤ
unfolding ◌+ℤ◌
saturating_add a b = clamp_i32 (a +ℤ b)

unfoldable pub saturating_abs : ℤ → ℕ
saturating_abs (pos n) = n
saturating_abs (negsuc n) = min (suc n) i32_max

unfoldable pub saturating_mul : ℕ → ℕ → ℕ
saturating_mul a b = min (a * b) i32_max

pub saturating_add-IsI32 : (a b : ℤ) → IsI32 (saturating_add a b)
unfolding saturating_add
saturating_add-IsI32 a b = ground arith
