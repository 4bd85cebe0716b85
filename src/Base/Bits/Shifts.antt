-- ===== src/Base/Bits/Shifts.antt =====
-- The bits of a number that is shifted.
use native.Mathlib.Nat.{div-one, mul-one, mul-div_left, pow-suc, mul_assoc}
use Prim.Native.Nat.{ℕ, zero, suc, ◌+◌, ◌-◌, ◌*◌, ◌/◌, ◌^◌}
use mathlib.Core.Path.{◌≡◌, ap, sym, ◌∙◌}
use mathlib.Core.Bool.{◌&&◌}
use native.Mathlib.Omega.{arith}
use pculator.Base.Tests.{◌!=◌, leb}
use pculator.Base.Words.{◌<<<◌, ◌>>>◌}
use pculator.Base.Bits.{bit}
use pculator.Base.Bits.Fields.{div-pow-suc, bit_div}

bit-double_suc : (n i : ℕ) → bit (n * 2) (suc i) ≡ bit n i
unfolding bit
bit-double_suc n i = ap (λ (m : ℕ). bit m i) (mul-div_left n (omega arith))

pub bit-double : (n i : ℕ) → bit (n * 2) i ≡ ((i != 0) && bit n (i - 1))
bit-double n zero = ground (arith, bit_div (n * 2) 0)
bit-double n (suc i) = ground (arith, bit-double_suc n i, ap (bit n) same)
  where
    same : suc i - 1 ≡ i
    same = omega arith

pub bit-shift_right : (n m i : ℕ) → bit (n >>> m) i ≡ bit n (m + i)
unfolding bit
bit-shift_right n zero i = ap (λ (k : ℕ). bit k i) (div-one n) ∙ ap (bit n) same
  where
    same : i ≡ 0 + i
    same = omega arith
bit-shift_right n (suc m) i =
    ap (λ (k : ℕ). bit k i) (div-pow-suc n m) ∙ bit-shift_right (n / 2) m i ∙ ap (bit n) same
  where
    same : suc (m + i) ≡ suc m + i
    same = omega arith

pub bit-shift_left : (v m i : ℕ) → bit (v <<< m) i ≡ (leb m i && bit v (i - m))
bit-shift_left v zero i = ap (λ (k : ℕ). bit k i) (mul-one v) ∙ ground (arith, ap (bit v) same)
  where
    same : i ≡ i - 0
    same = omega arith
bit-shift_left v (suc m) i =
    ap (λ (k : ℕ). bit k i) (ap (λ (k : ℕ). v * k) (pow-suc 2 m) ∙ sym (mul_assoc v (2 ^ m) 2))
    ∙ bit-double (v * 2 ^ m) i
    ∙ ground (arith, bit-shift_left v m (i - 1), ap (bit v) same)
  where
    same : i - 1 - m ≡ i - suc m
    same = omega arith
