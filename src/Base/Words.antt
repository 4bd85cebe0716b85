-- ===== src/Base/Words.antt =====
-- Casts to the unsigned widths, shifts, and complements.
use Prim.Native.Nat.{ℕ, ◌-◌, ◌*◌, ◌/◌, ◌%◌, ◌^◌, bit_and}
use mathlib.Core.Bool.{Bool}
use pculator.Base.Tests.{◌!=◌}

abbrev pub u8 : ℕ → ℕ
u8 n = n % 256

abbrev pub u16 : ℕ → ℕ
u16 n = n % 65536

abbrev pub u32 : ℕ → ℕ
u32 n = n % 4294967296

infixl 75 ◌<<<◌ ◌>>>◌
abbrev pub ◌<<<◌ : ℕ → ℕ → ℕ
x <<< k = x * 2 ^ k

abbrev pub ◌>>>◌ : ℕ → ℕ → ℕ
x >>> k = x / 2 ^ k

-- `(uint8_t) ~x`, the complement of the low byte.
abbrev pub not8 : ℕ → ℕ
not8 x = 255 - x % 256

-- `~x` on 32 bits.
abbrev pub not32 : ℕ → ℕ
not32 x = 4294967295 - x % 4294967296

-- `x & mask` as a condition.
abbrev pub has : ℕ → ℕ → Bool
has x mask = bit_and x mask != 0
