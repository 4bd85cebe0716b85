-- ===== src/Base/Bits.antt =====
-- The single bits of a number, and what `&`, `|`, `~` and `^` do to each.
mod Step
pub mod Fields
pub mod Shifts
pub use Step.{
  bit_and_step, bit_or_step, bit_xor_step, bit_and-le, bit_and-zero, zero-bit_and, bit_or-zero,
  zero-bit_or,
}
use Prim.Native.Nat.{
  ℕ, zero, suc, ◌+◌, ◌-◌, ◌*◌, ◌/◌, ◌%◌, ◌^◌, ◌≤◌, ◌<◌, bit_and, bit_or, bit_xor, differ,
}
use mathlib.Core.Path.{◌≡◌, refl, sym, ap, ◌∙◌}
use mathlib.Core.Logic.{◌≢◌}
use mathlib.Core.Bool.{Bool, true, false, not, ◌&&◌, ◌||◌, xor}
use native.Mathlib.Nat.{pow-suc, mod_def, mul-div-le, mul_comm, div-div-eq-div-mul}
use native.Mathlib.Omega.{arith}
use pculator.Base.Tests.{◌==◌, ◌!=◌, if◌then◌else◌, ltb}
use pculator.Base.Words.{not8, has}

-- Bit `i` of `n`, `(n >> i) & 1`.
unfoldable pub bit : ℕ → ℕ → Bool
bit n zero = n % 2 == 1
bit n (suc i) = bit (n / 2) i

pub bit-bit_and : (a b i : ℕ) → bit (bit_and a b) i ≡ (bit a i && bit b i)
unfolding bit
bit-bit_and a b zero = ground (arith, bit_and_step a b)
bit-bit_and a b (suc i) = ap (λ n. bit n i) half ∙ bit-bit_and (a / 2) (b / 2) i
  where
    half : bit_and a b / 2 ≡ bit_and (a / 2) (b / 2)
    half = omega (arith, bit_and_step a b)

pub bit-bit_or : (a b i : ℕ) → bit (bit_or a b) i ≡ (bit a i || bit b i)
unfolding bit
bit-bit_or a b zero = ground (arith, bit_or_step a b)
bit-bit_or a b (suc i) = ap (λ n. bit n i) half ∙ bit-bit_or (a / 2) (b / 2) i
  where
    half : bit_or a b / 2 ≡ bit_or (a / 2) (b / 2)
    half = omega (arith, bit_or_step a b)

pub bit-bit_xor : (a b i : ℕ) → bit (bit_xor a b) i ≡ (if bit a i then not (bit b i) else bit b i)
unfolding bit
bit-bit_xor a b zero = low (a % 2) (b % 2) (omega arith) (omega arith) (bit_xor_step a b)
  where
    low :
        (x y : ℕ)
        → x < 2
        → y < 2
        → bit_xor a b ≡ bit_xor (a / 2) (b / 2) * 2 + differ x y
        → (bit_xor a b % 2 == 1) ≡ (if x == 1 then not (y == 1) else y == 1)
    low zero y p q e = ground arith
    low (suc zero) zero p q e = ground arith
    low (suc zero) (suc zero) p q e = ground arith
    low (suc zero) (suc (suc y)) p q e = absurd (omega arith)
    low (suc (suc x)) y p q e = absurd (omega arith)
bit-bit_xor a b (suc i) =
    ap (λ n. bit n i) (half (a % 2) (b % 2) (omega arith) (omega arith) (bit_xor_step a b))
    ∙ bit-bit_xor (a / 2) (b / 2) i
  where
    half :
        (x y : ℕ)
        → x < 2
        → y < 2
        → bit_xor a b ≡ bit_xor (a / 2) (b / 2) * 2 + differ x y
        → bit_xor a b / 2 ≡ bit_xor (a / 2) (b / 2)
    half zero y p q e = omega arith
    half (suc zero) zero p q e = omega arith
    half (suc zero) (suc zero) p q e = omega arith
    half (suc zero) (suc (suc y)) p q e = absurd (omega arith)
    half (suc (suc x)) y p q e = absurd (omega arith)

pub bit-zero : (i : ℕ) → bit 0 i ≡ false
unfolding bit
bit-zero zero = refl
bit-zero (suc i) = bit-zero i

-- A power of two has one bit.
pub bit-pow : (k i : ℕ) → bit (2 ^ k) i ≡ (i == k)
unfolding bit
bit-pow zero zero = refl
bit-pow zero (suc i) = bit-zero i ∙ ground arith
bit-pow (suc k) zero = ground (arith, pow-suc 2 k)
bit-pow (suc k) (suc i) = ap (λ n. bit n i) half ∙ bit-pow k i ∙ ground arith
  where
    half : 2 ^ suc k / 2 ≡ 2 ^ k
    half = omega (arith, pow-suc 2 k)

-- The remainder by an even number, digit by digit.
pub mod_double : (n m : ℕ) → (n % (m * 2) / 2 ≡ n / 2 % m) × (n % (m * 2) % 2 ≡ n % 2)
mod_double n m = (
  omega (arith, mod_def n (m * 2), mod_def (n / 2) m, same, mul-div-le n (m * 2)),
  omega (arith, mod_def n (m * 2), mul-div-le n (m * 2)),
)
  where
    same : m * (n / (m * 2)) ≡ m * (n / 2 / m)
    same =
        ap (λ (t : ℕ). m * t)
          (ap (λ (t : ℕ). n / t) (mul_comm m 2) ∙ sym (div-div-eq-div-mul n 2 m))

pub bit-mod_pow : (w n i : ℕ) → bit (n % 2 ^ w) i ≡ (ltb i w && bit n i)
unfolding bit
bit-mod_pow zero n i = ap (λ n. bit n i) none_left ∙ bit-zero i ∙ ground arith
  where
    none_left : n % 2 ^ 0 ≡ 0
    none_left = omega arith
bit-mod_pow (suc w) n zero = rw pow-suc (ground (arith, mod_double n (2 ^ w)))
bit-mod_pow (suc w) n (suc i) = ap (λ n. bit n i) half ∙ bit-mod_pow w (n / 2) i ∙ ground arith
  where
    half : n % 2 ^ suc w / 2 ≡ n / 2 % 2 ^ w
    half = rw pow-suc (mod_double n (2 ^ w)).0

pub bit-complement : (w n i : ℕ) → n < 2 ^ w → bit (2 ^ w - 1 - n) i ≡ (ltb i w && not (bit n i))
unfolding bit
bit-complement zero n i h = ap (λ n. bit n i) none_left ∙ bit-zero i ∙ ground arith
  where
    none_left : 2 ^ 0 - 1 - n ≡ 0
    none_left = omega arith
bit-complement (suc w) n zero h = ground (arith, pow-suc 2 w)
bit-complement (suc w) n (suc i) h =
    ap (λ n. bit n i) half ∙ bit-complement w (n / 2) i (omega (arith, pow-suc 2 w)) ∙ ground arith
  where
    half : (2 ^ suc w - 1 - n) / 2 ≡ 2 ^ w - 1 - n / 2
    half = omega (arith, pow-suc 2 w)

-- Two numbers of `w` bits with the same bits are equal.
pub eq_of_bits : (w a b : ℕ) → a < 2 ^ w → b < 2 ^ w → ((i : ℕ) → i < w → bit a i ≡ bit b i) → a ≡ b
unfolding bit
eq_of_bits zero a b p q h = omega arith
eq_of_bits (suc w) a b p q h = ground (
  arith,
  h 0 (omega arith),
  eq_of_bits w (a / 2) (b / 2) (omega (arith, pow-suc 2 w)) (omega (arith, pow-suc 2 w))
      (λ i l. h (suc i) (omega arith)),
)

pub bit_or-lt : (w a b : ℕ) → a < 2 ^ w → b < 2 ^ w → bit_or a b < 2 ^ w
bit_or-lt zero zero b p q = ground (arith, bit_or_step 0 b, bit_or_step (0 / 2) (b / 2))
bit_or-lt zero (suc a) b p q = absurd (omega arith)
bit_or-lt (suc w) a b p q = omega (
  arith,
  pow-suc 2 w,
  bit_or_step a b,
  bit_or-lt w (a / 2) (b / 2) (omega (arith, pow-suc 2 w)) (omega (arith, pow-suc 2 w)),
)

differ-le : (x y : ℕ) → x < 2 → y < 2 → differ x y ≤ 1
differ-le zero zero p q = omega arith
differ-le zero (suc zero) p q = omega arith
differ-le zero (suc (suc y)) p q = absurd (omega arith)
differ-le (suc zero) zero p q = omega arith
differ-le (suc zero) (suc zero) p q = omega arith
differ-le (suc zero) (suc (suc y)) p q = absurd (omega arith)
differ-le (suc (suc x)) y p q = absurd (omega arith)

pub bit_xor-lt : (w a b : ℕ) → a < 2 ^ w → b < 2 ^ w → bit_xor a b < 2 ^ w
bit_xor-lt zero zero b p q = ground (arith, bit_xor_step 0 b, bit_xor_step (0 / 2) (b / 2))
bit_xor-lt zero (suc a) b p q = absurd (omega arith)
bit_xor-lt (suc w) a b p q = omega (
  arith,
  pow-suc 2 w,
  bit_xor_step a b,
  differ-le (a % 2) (b % 2) (omega arith) (omega arith),
  bit_xor-lt w (a / 2) (b / 2) (omega (arith, pow-suc 2 w)) (omega (arith, pow-suc 2 w)),
)

half_double : (n : ℕ) → n * 2 / 2 ≡ n
half_double n = omega arith

-- `x & (1 << k)` as a condition asks for bit `k`.
pub has-pow : (x k : ℕ) → has x (2 ^ k) ≡ bit x k
unfolding bit
has-pow x zero = ground (arith, bit_and_step x 1, bit_and-zero (x / 2))
has-pow x (suc k) = ap (λ n. n != 0) low ∙ ground arith ∙ has-pow (x / 2) k
  where
    low : bit_and x (2 ^ suc k) ≡ bit_and (x / 2) (2 ^ k) * 2
    low = rw pow-suc (bit_and_step x (2 ^ k * 2) ∙ rw (half_double (2 ^ k)) (omega arith))
