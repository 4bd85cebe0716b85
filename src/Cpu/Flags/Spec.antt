-- ===== src/Cpu/Flags/Spec.antt =====
-- The flags after an addition or a subtraction, as arithmetic.
use native.Mathlib.Nat.{one-le-pow, add-zero}
use pculator.Base.{
  ℕ, ◌+◌, ◌-◌, ◌*◌, ◌/◌, ◌%◌, ◌^◌, ◌<◌, ◌≤◌, ◌≡◌, refl, ap, ◌∙◌, ◌&&◌, ◌||◌, ◌==◌, ◌!=◌, ltb, leb,
  arith, bit, bit_and, bit_xor, has, bit-bit_and, bit-bit_xor, bit_div, has-pow, bit_and-pow,
  bit_and-shifted, bit_and_mask,
}
use pculator.Cpu.Flags.{
  Width, byte, word, dword, bits, Flags, flag, parity, cast, double_width, sign, high, flag_szp,
  flag_adc, flag_add,
}
use pculator.Cpu.Flags.Parity.{even_bits, parity_lem}

-- A value of the width read as a signed one, moved up by 2 ^ (width - 1), so that it is at least 0.
abbrev pub biased : Width → ℕ → ℕ
biased w v = (v + sign w) % 2 ^ bits w

-- The flags that describe a result.
pub record Describes (w : Width) (result : ℕ) (f : Flags) : Type 0 where
  pub zero_flag : f.zf ≡ flag (result == 0)
  pub sign_flag : f.sf ≡ flag (leb (sign w) result)
  pub parity_flag : f.pf ≡ even_bits (result % 256)

-- The flags of `v1 + v2 + c`: carry out of the width, carry out of the low four bits, and a sum of
-- the signed values that leaves the signed range.
pub record AddFlags (w : Width) (v1 v2 c : ℕ) (f : Flags) : Type 0 where
  pub describes : Describes w (cast w (v1 + v2 + c)) f
  pub carry : f.cf ≡ flag (leb (2 ^ bits w) (v1 + v2 + c))
  pub adjust : f.af ≡ flag (leb 16 (v1 % 16 + v2 % 16 + c))
  pub overflow :
      f.of
      ≡ flag (
          ltb (biased w v1 + biased w v2 + c) (sign w)
          || leb (3 * sign w) (biased w v1 + biased w v2 + c))

-- The flags of `v1 - v2 - c`: borrow, borrow into the low four bits, and a difference of the signed
-- values that leaves the signed range.
pub record SubFlags (w : Width) (v1 v2 c : ℕ) (f : Flags) : Type 0 where
  pub describes : Describes w (cast w (v1 + 2 ^ bits w - v2 - c)) f
  pub borrow : f.cf ≡ flag (ltb v1 (v2 + c))
  pub adjust : f.af ≡ flag (ltb (v1 % 16) (v2 % 16 + c))
  pub overflow :
      f.of
      ≡ flag (
          ltb (biased w v1 + sign w) (biased w v2 + c)
          || leb (biased w v2 + c + sign w) (biased w v1))

-- `(a ^ b) & (1 << k)` compares bit `k` of the two.
differ_bit : (a b k : ℕ) → bit (bit_xor a b) k ≡ (a / 2 ^ k % 2 != b / 2 ^ k % 2)
differ_bit a b k = ground (arith, bit-bit_xor a b k, bit_div a k, bit_div b k)

parity_of : (v : ℕ) → parity (bit_and v 255) ≡ even_bits (v % 256)
parity_of v = ap parity (bit_and_mask 8 v) ∙ parity_lem (v % 256) (omega arith)

pub szp : (w : Width) (v : ℕ) (f : Flags) → v < 2 ^ bits w → Describes w v (flag_szp w v f)
unfolding flag_szp
szp byte v f h = record {
  zero_flag = refl;
  sign_flag = ground (arith, has-pow v 7, bit_div v 7);
  parity_flag = parity_of v;
}
szp word v f h = record {
  zero_flag = refl;
  sign_flag = ground (arith, has-pow v 15, bit_div v 15);
  parity_flag = parity_of v;
}
szp dword v f h = record {
  zero_flag = refl;
  sign_flag = ground (arith, has-pow v 31, bit_div v 31);
  parity_flag = parity_of v;
}

-- `dst & high` asks whether `dst` leaves the width.
carries : (w : Width) (d : ℕ) → d < double_width w → has d (high w) ≡ leb (2 ^ bits w) d
carries byte d h = ground (arith, bit_and-shifted 8 d 255, bit_and_mask 8 (d / 2 ^ 8))
carries word d h = ground (arith, bit_and-shifted 16 d 65535, bit_and_mask 16 (d / 2 ^ 16))
carries dword d h = ground (arith, bit_and-shifted 32 d 4294967295, bit_and_mask 32 (d / 2 ^ 32))

pub half_carry :
    (v1 v2 d : ℕ) → has (bit_xor (bit_xor v1 v2) d) 0x10 ≡ ((v1 / 16 + v2 / 16 + d / 16) % 2 == 1)
half_carry v1 v2 d = ground (
  arith,
  has-pow (bit_xor (bit_xor v1 v2) d) 4,
  bit-bit_xor (bit_xor v1 v2) d 4,
  bit-bit_xor v1 v2 4,
  bit_div v1 4,
  bit_div v2 4,
  bit_div d 4,
)

-- Both comparisons of the sign bit at once.
pub overflows :
    (k a b c d : ℕ)
    → has (bit_and (bit_xor a b) (bit_xor c d)) (2 ^ k)
      ≡ (a / 2 ^ k % 2 != b / 2 ^ k % 2 && c / 2 ^ k % 2 != d / 2 ^ k % 2)
overflows k a b c d = ground (
  arith,
  has-pow (bit_and (bit_xor a b) (bit_xor c d)) k,
  bit-bit_and (bit_xor a b) (bit_xor c d) k,
  differ_bit a b k,
  differ_bit c d k,
)

-- `(x & mask) == mask` and `x & mask` agree on a mask of one bit.
equal_mask : (x k : ℕ) → (bit_and x (2 ^ k) == 2 ^ k) ≡ has x (2 ^ k)
equal_mask x k = ground (arith, bit_and-pow x k, one-le-pow k 2)

-- The sum does not wrap at twice the width.
sum_fits :
    (w : Width) (v1 v2 c : ℕ)
    → v1 < 2 ^ bits w
    → v2 < 2 ^ bits w
    → c ≤ 1
    → ((v1 + v2 + c) % double_width w ≡ v1 + v2 + c) × (v1 + v2 + c < double_width w)
sum_fits byte v1 v2 c p q r = omega arith
sum_fits word v1 v2 c p q r = omega arith
sum_fits dword v1 v2 c p q r = omega arith

pub cast-lt : (w : Width) (n : ℕ) → cast w n < 2 ^ bits w
cast-lt byte n = omega arith
cast-lt word n = omega arith
cast-lt dword n = omega arith

-- Both operands differ from the sum in sign exactly if the signed sum leaves the range.
add_overflow :
    (w : Width) (v1 v2 c : ℕ)
    → v1 < 2 ^ bits w
    → v2 < 2 ^ bits w
    → c ≤ 1
    → ((v1 + v2 + c) / sign w % 2 != v1 / sign w % 2
        && (v1 + v2 + c) / sign w % 2 != v2 / sign w % 2)
      ≡ (ltb (biased w v1 + biased w v2 + c) (sign w)
          || leb (3 * sign w) (biased w v1 + biased w v2 + c))
add_overflow byte v1 v2 c p q r = ground arith
add_overflow word v1 v2 c p q r = ground arith
add_overflow dword v1 v2 c p q r = ground arith

half_sum :
    (v1 v2 c : ℕ)
    → c ≤ 1
    → ((v1 / 16 + v2 / 16 + (v1 + v2 + c) / 16) % 2 == 1) ≡ leb 16 (v1 % 16 + v2 % 16 + c)
half_sum v1 v2 c r = ground arith

-- After an addition with carry, of operands within the width, the flags say what they stand for, at each width: zero, sign and
-- parity of the result, the carry out of the width and out of the low four bits, and whether the
-- signed sum leaves the signed range.
pub flag_adc_lem :
    (w : Width) (v1 v2 c : ℕ) (f : Flags)
    → v1 < 2 ^ bits w
    → v2 < 2 ^ bits w
    → c ≤ 1
    → AddFlags w v1 v2 c (flag_adc w v1 v2 c f)
unfolding flag_adc
flag_adc_lem w v1 v2 c f p q r =
    let t : ℕ = v1 + v2 + c in
    let (fits, small) = sum_fits w v1 v2 c p q r in
    let z : Describes w (cast w t) (flag_szp w (cast w t) f) = szp w (cast w t) f (cast-lt w t) in
    rw fits (record {
      describes = record {
        zero_flag = z.zero_flag;
        sign_flag = z.sign_flag;
        parity_flag = z.parity_flag;
      };
      carry = ap flag (carries w t small);
      adjust =
          ap flag
            (equal_mask (bit_xor (bit_xor v1 v2) t) 4 ∙ half_carry v1 v2 t ∙ half_sum v1 v2 c r);
      overflow = ap flag (
          equal_mask (bit_and (bit_xor t v1) (bit_xor t v2)) (bits w - 1)
          ∙ overflows (bits w - 1) t v1 t v2
          ∙ add_overflow w v1 v2 c p q r);
    })

flag_add-eq-flag_adc :
    (w : Width) (v1 v2 : ℕ) (f : Flags) → flag_add w v1 v2 f ≡ flag_adc w v1 v2 0 f
unfolding flag_add flag_adc
flag_add-eq-flag_adc w v1 v2 f = rw add-zero

-- After an addition without carry of operands within the width the flags say what they stand for, at
-- each width: zero, sign and parity of the result, the carry out of the width and out of the low four
-- bits, and whether the signed sum leaves the signed range.
pub flag_add_lem :
    (w : Width) (v1 v2 : ℕ) (f : Flags)
    → v1 < 2 ^ bits w
    → v2 < 2 ^ bits w
    → AddFlags w v1 v2 0 (flag_add w v1 v2 f)
flag_add_lem w v1 v2 f p q = rw flag_add-eq-flag_adc (flag_adc_lem w v1 v2 0 f p q (omega arith))
