-- ===== src/Base/Bits/Step.antt =====
-- One equation for the lowest bit of `&`, `|` and `^`. The native operations are a recursion on the
-- bits of the first number that counts rounds; how many rounds are left over does not matter.
use Prim.Native.Nat.{ℕ, zero, suc, ◌+◌, ◌-◌, ◌*◌, ◌/◌, ◌%◌, ◌≤◌, min, max, differ, digits, bitwise}
use Prim.Native.Nat.{bit_and, bit_or, bit_xor, bit_and-bitwise, bit_or-bitwise, bit_xor-bitwise}
use mathlib.Core.Path.{◌≡◌, refl, ap, ◌∙◌}
use native.Mathlib.Nat.{le_refl}
use native.Mathlib.Omega.{arith}

module _ (z : ℕ → ℕ) (op : ℕ → ℕ → ℕ) where
  -- A round more than the first number needs.
  one_more : (a n b : ℕ) → a ≤ n → digits z op (suc n) a b ≡ digits z op n a b
  one_more zero zero b h = refl
  one_more zero (suc n) b h = refl
  one_more (suc a) zero b h = absurd (omega arith)
  one_more (suc a) (suc n) b h =
      ap (λ (r : ℕ). r * 2 + op (suc a % 2) (b % 2)) (one_more (suc a / 2) n (b / 2) (omega arith))

  same_rounds : (m n a b : ℕ) → m ≡ n → digits z op m a b ≡ digits z op n a b
  same_rounds m n a b e = ap (λ (r : ℕ). digits z op r a b) e

  -- `k` rounds more.
  spare : (k a b : ℕ) → digits z op (k + a) a b ≡ digits z op a a b
  spare zero a b = same_rounds (0 + a) a a b (omega arith)
  spare (suc k) a b =
      same_rounds (suc k + a) (suc (k + a)) a b (omega arith)
      ∙ one_more a (k + a) b (omega arith)
      ∙ spare k a b

  half_rounds : (a b : ℕ) → digits z op a (suc a / 2) b ≡ bitwise z op (suc a / 2) b
  half_rounds a b =
      same_rounds a (a - suc a / 2 + suc a / 2) (suc a / 2) b (omega arith)
      ∙ spare (a - suc a / 2) (suc a / 2) b

  lowest :
      ((b : ℕ) → z b ≡ z (b / 2) * 2 + op 0 (b % 2))
      → (a b : ℕ) → bitwise z op a b ≡ bitwise z op (a / 2) (b / 2) * 2 + op (a % 2) (b % 2)
  lowest h zero b = h b
  lowest h (suc a) b = ap (λ (r : ℕ). r * 2 + op (suc a % 2) (b % 2)) (half_rounds a (b / 2))

pub bit_and_step : (n k : ℕ) → bit_and n k ≡ bit_and (n / 2) (k / 2) * 2 + min (n % 2) (k % 2)
bit_and_step n k = simp bit_and-bitwise (lowest (λ _. 0) min (λ r. omega arith) n k)

pub bit_xor_step : (n k : ℕ) → bit_xor n k ≡ bit_xor (n / 2) (k / 2) * 2 + differ (n % 2) (k % 2)
bit_xor_step n k = simp bit_xor-bitwise (lowest (λ r. r) differ (λ r. omega arith) n k)

pub bit_or_step : (n k : ℕ) → bit_or n k ≡ bit_or (n / 2) (k / 2) * 2 + max (n % 2) (k % 2)
bit_or_step n k = simp bit_or-bitwise (lowest (λ r. r) max (λ r. omega arith) n k)

pub zero-bit_and : (b : ℕ) → bit_and 0 b ≡ 0
zero-bit_and b = simp bit_and-bitwise

common_bits-le : (n a b : ℕ) → a ≤ n → bit_and a b ≤ a
common_bits-le n zero b h = omega (arith, zero-bit_and b)
common_bits-le zero (suc a) b h = absurd (omega arith)
common_bits-le (suc n) (suc a) b h =
    omega (arith, bit_and_step (suc a) b, common_bits-le n (suc a / 2) (b / 2) (omega arith))

pub bit_and-le : (a b : ℕ) → bit_and a b ≤ a
bit_and-le a b = common_bits-le a a b (le_refl a)

no_common_bits : (n a : ℕ) → a ≤ n → bit_and a 0 ≡ 0
no_common_bits n zero h = zero-bit_and 0
no_common_bits zero (suc a) h = absurd (omega arith)
no_common_bits (suc bound) (suc a) h =
    omega (arith, bit_and_step (suc a) 0, no_common_bits bound (suc a / 2) (omega arith))

pub bit_and-zero : (a : ℕ) → bit_and a 0 ≡ 0
bit_and-zero a = no_common_bits a a (le_refl a)

no_other_bits : (n a : ℕ) → a ≤ n → bit_or a 0 ≡ a
no_other_bits n zero h = simp bit_or-bitwise
no_other_bits zero (suc a) h = absurd (omega arith)
no_other_bits (suc n) (suc a) h =
    omega (arith, bit_or_step (suc a) 0, no_other_bits n (suc a / 2) (omega arith))

pub bit_or-zero : (a : ℕ) → bit_or a 0 ≡ a
bit_or-zero a = no_other_bits a a (le_refl a)

pub zero-bit_or : (b : ℕ) → bit_or 0 b ≡ b
zero-bit_or b = no_bits_left b b (le_refl b)
  where
    no_bits_left : (n b : ℕ) → b ≤ n → bit_or 0 b ≡ b
    no_bits_left zero zero h = refl
    no_bits_left zero (suc b) h = absurd (omega arith)
    no_bits_left (suc n) b h = omega (arith, bit_or_step 0 b, no_bits_left n (b / 2) (omega arith))
