-- ===== src/Hidpp/Nibble.antt =====
-- crates/openlogi-hidpp/src/nibble.rs: an unsigned 4-bit value stored in a byte.
use logi_battery.Base.{
  ℕ, ◌*◌, ◌/◌, ◌%◌, ◌+◌, ◌<◌, ◌≡◌, refl, true, bit_and, bit_or, arith, ◌==◌, ==_iff, low_nibble,
  IsByte, passes_to, passes_to_at,
}

pub record U4 : Type 0 where
  pub raw : ℕ

-- `Self(raw & 0x0f)`
unfoldable pub from_lo : ℕ → U4
from_lo b = record { raw = bit_and b 0x0f }

-- `Self(raw >> 4)`
unfoldable pub from_hi : ℕ → U4
from_hi b = record { raw = b / 16 }

pub to_lo : U4 → ℕ
to_lo n = n.raw

-- `self.0 << 4` on a `u8`
pub to_hi : U4 → ℕ
to_hi n = n.raw * 16 % 256

unfoldable pub combine : U4 → U4 → ℕ
unfolding to_hi to_lo
combine a b = bit_or (to_hi a) (to_lo b)

-- What the constructors establish.
abbrev pub IsNibble : U4 → Type 0
IsNibble n = n.raw < 16

combine_table : passes_to (λ a. passes_to (λ b. bit_or (a * 16 % 256) b == a * 16 + b) 16) 16 ≡ true
unfolding passes_to
combine_table = refl

pub combine-add : (a b : U4) → IsNibble a → IsNibble b → combine a b ≡ a.raw * 16 + b.raw
unfolding combine
combine-add a b ha hb = (==_iff _ _).0 (
    passes_to_at (λ y. bit_or (a.raw * 16 % 256) y == a.raw * 16 + y) 16 b.raw
      (passes_to_at (λ x. passes_to (λ y. bit_or (x * 16 % 256) y == x * 16 + y) 16) 16 a.raw
        combine_table ha)
      hb)

pub combine-IsByte : (a b : U4) → IsNibble a → IsNibble b → IsByte (combine a b)
combine-IsByte a b ha hb = omega (arith, combine-add a b ha hb)

pub from_lo-raw : (b : ℕ) → IsByte b → (from_lo b).raw ≡ b % 16
unfolding from_lo
from_lo-raw b h = low_nibble b h

pub from_hi-raw : (b : ℕ) → (from_hi b).raw ≡ b / 16
unfolding from_hi
from_hi-raw b = refl

pub from_lo-IsNibble : (b : ℕ) → IsByte b → IsNibble (from_lo b)
from_lo-IsNibble b h = omega (arith, from_lo-raw b h)

pub from_hi-IsNibble : (b : ℕ) → IsByte b → IsNibble (from_hi b)
from_hi-IsNibble b h = omega (arith, from_hi-raw b)

pub U4-ext : {a b : U4} → a.raw ≡ b.raw → a ≡ b
U4-ext e = λ i. record { raw = e i }

-- Splitting a byte and combining the halves gives the byte back.
pub combine-from : (b : ℕ) → IsByte b → combine (from_hi b) (from_lo b) ≡ b
combine-from b h = omega (
  arith,
  combine-add (from_hi b) (from_lo b) (from_hi-IsNibble b h) (from_lo-IsNibble b h),
  from_hi-raw b,
  from_lo-raw b h,
)

-- Combining two nibbles and splitting the byte gives the nibbles back.
pub from_hi-combine : (a b : U4) → IsNibble a → IsNibble b → from_hi (combine a b) ≡ a
from_hi-combine a b ha hb = U4-ext (omega (arith, combine-add a b ha hb, from_hi-raw (combine a b)))

pub from_lo-combine : (a b : U4) → IsNibble a → IsNibble b → from_lo (combine a b) ≡ b
from_lo-combine a b ha hb =
    U4-ext
      (omega (arith, combine-add a b ha hb, from_lo-raw (combine a b) (combine-IsByte a b ha hb)))

pub to_lo-raw : (n : U4) → to_lo n ≡ n.raw
unfolding to_lo
to_lo-raw n = refl
