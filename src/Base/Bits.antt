-- ===== src/Base/Bits.antt =====
-- Bytes, and masks and shifts on one byte as arithmetic. Each law of a mask is a table over the
-- bytes, checked by evaluation.
use Prim.Native.Nat.{ℕ, zero, suc, ◌%◌, ◌<◌, bit_and}
use mathlib.Core.Path.{◌≡◌, refl}
use mathlib.Core.Bool.{Bool, true, not, ◌&&◌}
use native.Mathlib.Omega.{arith}
use logi_battery.Base.Tests.{◌==◌, ==_iff}

abbrev pub IsByte : ℕ → Type 0
IsByte b = b < 256

-- `b & mask != 0`
abbrev pub has_bits : ℕ → ℕ → Bool
has_bits b mask = not (bit_and b mask == 0)

-- A row of a table: the test passes at every number from 0 up to the bound, which is not reached.
unfoldable pub passes_to : (ℕ → Bool) → ℕ → Bool
passes_to test zero = true
passes_to test (suc last) = passes_to test last && test last

pub passes_to_at :
    (test : ℕ → Bool) (bound at : ℕ) → passes_to test bound ≡ true → at < bound → test at ≡ true
unfolding passes_to
passes_to_at test zero at h below = absurd (omega arith)
passes_to_at test (suc last) at h below = ground (arith, passes_to_at test last at)

pub low_nibble : (b : ℕ) → b < 256 → bit_and b 0x0f ≡ b % 16
unfolding passes_to
low_nibble b lt = (==_iff _ _).0 (passes_to_at (λ x. bit_and x 0x0f == x % 16) 256 b refl lt)
