-- ===== src/Base/Bits/Fields.antt =====
-- Bytes and bit fields: casts, masks, complements and packed words, bit by bit or as sums.
use Prim.Native.Nat.{ℕ, zero, suc, ◌+◌, ◌-◌, ◌*◌, ◌/◌, ◌%◌, ◌^◌, ◌<◌, bit_and, bit_or}
use mathlib.Core.Path.{◌≡◌, sym, ap, ◌∙◌}
use mathlib.Core.Bool.{false, not, ◌&&◌, ◌||◌}
use native.Mathlib.Nat.{
  pow-suc, one-le-pow, div-one, mul_comm, div-div-eq-div-mul, one-mul, mul-one,
}
use native.Mathlib.Omega.{arith}
use pculator.Base.Tests.{◌==◌, if◌then◌else◌, ltb}
use pculator.Base.Words.{u8, not8, has, ◌<<<◌, ◌>>>◌}
use pculator.Base.Bits.{
  bit, bit-bit_and, bit-bit_or, bit-complement, bit-mod_pow, bit-pow, bit_and_step, bit_and-zero,
  bit_or-lt, bit_or_step, bit_or-zero, zero-bit_or, eq_of_bits, half_double, has-pow, mod_double,
}

pub bit-u8 : (n i : ℕ) → bit (u8 n) i ≡ (ltb i 8 && bit n i)
bit-u8 n i = bit-mod_pow 8 n i

pub bit-not8 : (n i : ℕ) → bit (not8 n) i ≡ (ltb i 8 && not (bit n i))
bit-not8 n i = bit-complement 8 (u8 n) i (omega arith) ∙ rw (bit-u8 n i) (ground arith)

-- Two bytes with the same eight bits are equal.
pub byte_ext : (a b : ℕ) → a < 256 → b < 256 → ((i : ℕ) → i < 8 → bit a i ≡ bit b i) → a ≡ b
byte_ext = eq_of_bits 8

pub bit_or-byte : (a b : ℕ) → a < 256 → b < 256 → bit_or a b < 256
bit_or-byte = bit_or-lt 8

-- A bit of a byte above the seventh is clear.
pub bit-byte_high : (n i : ℕ) → n < 256 → ltb i 8 ≡ false → bit n i ≡ false
bit-byte_high n i h e = ground (arith, bit-u8 n i, same)
  where
    same : bit (u8 n) i ≡ bit n i
    same = ap (λ (k : ℕ). bit k i) (omega arith)

-- A mask of `w` low bits is the remainder by `2 ^ w`.
pub bit_and_mask : (w n : ℕ) → bit_and n (2 ^ w - 1) ≡ n % 2 ^ w
bit_and_mask zero n = bit_and-zero n ∙ omega arith
bit_and_mask (suc w) n = rw pow-suc (
    omega (
      arith,
      one-le-pow w 2,
      bit_and_step n (2 ^ w * 2 - 1),
      ap (bit_and (n / 2)) half,
      bit_and_mask w (n / 2),
      mod_double n (2 ^ w),
    ))
  where
    half : (2 ^ w * 2 - 1) / 2 ≡ 2 ^ w - 1
    half = omega arith

-- `(q << k) | r` is a sum when `r` fits `k` bits.
pub bit_or_fields : (k q r : ℕ) → r < 2 ^ k → bit_or (q <<< k) r ≡ q * 2 ^ k + r
bit_or_fields zero q r h = ap (bit_or (q * 1)) none_left ∙ bit_or-zero (q * 1) ∙ omega arith
  where
    none_left : r ≡ 0
    none_left = omega arith
bit_or_fields (suc k) q r h = rw pow-suc (
    omega (
      arith,
      bit_or_step (q * (2 ^ k * 2)) r,
      ap (λ (n : ℕ). bit_or n (r / 2)) half,
      bit_or_fields k q (r / 2) (omega (arith, pow-suc 2 k)),
      pow-suc 2 k,
    ))
  where
    half : q * (2 ^ k * 2) / 2 ≡ q * 2 ^ k
    half = omega arith

pub div-pow-suc : (n k : ℕ) → n / 2 ^ suc k ≡ n / 2 / 2 ^ k
div-pow-suc n k = rw (pow-suc, mul_comm, div-div-eq-div-mul)

-- `(n >> i) & 1` asks for bit `i`.
pub bit-shift : (n i : ℕ) → bit (n >>> i) 0 ≡ bit n i
unfolding bit
bit-shift n zero = ap (λ (m : ℕ). bit m 0) (div-one n)
bit-shift n (suc i) = ap (λ (m : ℕ). bit m 0) (div-pow-suc n i) ∙ bit-shift (n / 2) i

pub has_one-shift : (n i : ℕ) → has (n >>> i) 1 ≡ bit n i
has_one-shift n i = has-pow (n >>> i) 0 ∙ bit-shift n i

pub bit-one_shift : (k i : ℕ) → bit (1 <<< k) i ≡ (i == k)
bit-one_shift k i = ap (λ (m : ℕ). bit m i) (one-mul (2 ^ k)) ∙ bit-pow k i

-- `x &= ~(1 << k)` on a byte.
pub bit-clear : (x k i : ℕ) → i < 8 → bit (bit_and x (not8 (1 <<< k))) i ≡ (bit x i && not (i == k))
bit-clear x k i h =
    ground (arith, bit-bit_and x (not8 (1 <<< k)) i, bit-not8 (1 <<< k) i, bit-one_shift k i)

-- `x |= 1 << k` on a byte.
pub bit-raise : (x k i : ℕ) → i < 8 → bit (u8 (bit_or x (1 <<< k))) i ≡ (bit x i || (i == k))
bit-raise x k i h =
    ground (arith, bit-u8 (bit_or x (1 <<< k)) i, bit-bit_or x (1 <<< k) i, bit-one_shift k i)

-- The bits of `x & ~y` on a byte.
pub bit-and_not8 : (x y i : ℕ) → i < 8 → bit (bit_and x (not8 y)) i ≡ (bit x i && not (bit y i))
bit-and_not8 x y i h = ground (arith, bit-bit_and x (not8 y) i, bit-not8 y i)

-- A single bit, by division.
pub bit_div : (n k : ℕ) → bit n k ≡ (n / 2 ^ k % 2 == 1)
unfolding bit
bit_div n k = sym (bit-shift n k)

-- `x & (1 << k)` is the mask or nothing.
pub bit_and-pow : (x k : ℕ) → bit_and x (2 ^ k) ≡ (if bit x k then 2 ^ k else 0)
unfolding bit
bit_and-pow x zero = ground (arith, bit_and_step x 1, bit_and-zero (x / 2))
bit_and-pow x (suc k) =
    rw pow-suc (bit_and_step x (2 ^ k * 2) ∙ rw half_double (ground (arith, bit_and-pow (x / 2) k)))

-- A mask with `k` zeros below.
pub bit_and-shifted : (k x m : ℕ) → bit_and x (m * 2 ^ k) ≡ bit_and (x / 2 ^ k) m * 2 ^ k
bit_and-shifted zero x m =
    ap (bit_and x) (mul-one m) ∙ ap (λ (y : ℕ). bit_and y m) (sym (div-one x)) ∙ sym (mul-one _)
bit_and-shifted (suc k) x m =
    ap (bit_and x) twice
    ∙ bit_and_step x (m * 2 ^ k * 2)
    ∙ rw (half_double (m * 2 ^ k), div-pow-suc x k, pow-suc)
        (omega (arith, bit_and-shifted k (x / 2) m))
  where
    twice : m * 2 ^ suc k ≡ m * 2 ^ k * 2
    twice = rw pow-suc (omega arith)

-- `r | (q << k)`, with the fields the other way round.
pub fields-bit_or : (k q r : ℕ) → r < 2 ^ k → bit_or r (q <<< k) ≡ q * 2 ^ k + r
fields-bit_or zero q r h =
    ap (λ (n : ℕ). bit_or n (q * 1)) none_left ∙ zero-bit_or (q * 1) ∙ omega arith
  where
    none_left : r ≡ 0
    none_left = omega arith
fields-bit_or (suc k) q r h = rw pow-suc (
    omega (
      arith,
      bit_or_step r (q * (2 ^ k * 2)),
      ap (λ (n : ℕ). bit_or (r / 2) n) half,
      fields-bit_or k q (r / 2) (omega (arith, pow-suc 2 k)),
      pow-suc 2 k,
    ))
  where
    half : q * (2 ^ k * 2) / 2 ≡ q * 2 ^ k
    half = omega arith

-- A word of which the low byte is written, and then the high byte.
pub two_bytes :
    (old low high : ℕ)
    → low < 256
    → bit_or (bit_and (bit_or (bit_and old 0xFF00) low) 0x00FF) (high <<< 8) ≡ low + high * 256
two_bytes old low high l =
    ap (λ (n : ℕ). bit_or n (high <<< 8)) kept ∙ fields-bit_or 8 high low l ∙ omega arith
  where
    joined : bit_or (bit_and old 0xFF00) low ≡ bit_and (old / 2 ^ 8) 255 * 256 + low
    joined =
        ap (λ (n : ℕ). bit_or n low) (bit_and-shifted 8 old 255)
        ∙ bit_or_fields 8 (bit_and (old / 2 ^ 8) 255) low l

    kept : bit_and (bit_or (bit_and old 0xFF00) low) 0x00FF ≡ low
    kept = bit_and_mask 8 (bit_or (bit_and old 0xFF00) low) ∙ omega (arith, joined, l)
