-- ===== src/Cpu/Flags/Parity.antt =====
-- The parity table of src/cpu/cpu.c against its meaning.
use pculator.Base.{
  ℕ, zero, suc, ◌+◌, ◌/◌, ◌%◌, ◌<◌, ◌≡◌, refl, Bool, true, ◌==◌, ◌&&◌, ==_iff, if◌then◌else◌, arith,
}
use pculator.Cpu.Flags.{parity}

-- The bits of the low `n` places that are set.
abbrev pub popcount : ℕ → ℕ → ℕ
popcount zero x = 0
popcount (suc n) x = x % 2 + popcount n (x / 2)

-- 1 if the byte has an even number of bits.
abbrev pub even_bits : ℕ → ℕ
even_bits x = if popcount 8 x % 2 == 0 then 1 else 0

-- A test passes at each number below a bound.
passes : (ℕ → Bool) → ℕ → Bool
passes test zero = true
passes test (suc bound) = passes test bound && test bound

passes-at :
    (test : ℕ → Bool) (bound at : ℕ) → at < bound → passes test bound ≡ true → test at ≡ true
unfolding passes
passes-at test zero at lt all = absurd (omega arith)
passes-at test (suc bound) at lt all = ground (arith, passes-at test bound at)

table : passes (λ x. parity x == even_bits x) 256 ≡ true
unfolding passes parity
table = refl

-- At each index below 256 the table holds 1 if the number of bits set is even, and else 0.
pub parity_lem : (x : ℕ) → x < 256 → parity x ≡ even_bits x
parity_lem x h = (==_iff (parity x) (even_bits x)).0 (passes-at _ 256 x h table)
