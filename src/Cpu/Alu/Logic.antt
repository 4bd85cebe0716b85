-- ===== src/Cpu/Alu/Logic.antt =====
-- AND, OR and XOR of src/cpu/cpu.c.
use pculator.Base.{
  ℕ, ◌^◌, ◌<◌, ◌≡◌, refl, Bool, not, ◌&&◌, ◌||◌, if◌then◌else◌, bit, bit_and, bit_or, bit_xor,
  bit_and-le, bit_or-lt, bit_xor-lt, bit-bit_and, bit-bit_or, bit-bit_xor,
}
use native.Mathlib.Nat.{lt_of_le_of_lt}
use pculator.Cpu.Flags.{Width, bits, Flags, flag_log, flag_szp}
use pculator.Cpu.Flags.Spec.{Describes, szp}
use pculator.Cpu.Alu.{Outcome, op_and, op_or, op_xor}

-- A result computed bit by bit within the width, its flags, and carry and overflow cleared.
pub record Bitwise (w : Width) (combine : Bool → Bool → Bool) (a b : ℕ) (y : Outcome) : Type 0 where
  pub each_bit : (i : ℕ) → bit (y.res) i ≡ combine (bit a i) (bit b i)
  pub within : y.res < 2 ^ bits w
  pub describes : Describes w (y.res) (y.flags)
  pub no_carry : y.flags.cf ≡ 0
  pub no_overflow : y.flags.of ≡ 0

log_flags : (w : Width) (v : ℕ) (f : Flags) → v < 2 ^ bits w → Describes w v (flag_log w v f)
unfolding flag_log
log_flags w v f h =
    let z : Describes w v (flag_szp w v f) = szp w v f h in
    record { zero_flag = z.zero_flag; sign_flag = z.sign_flag; parity_flag = z.parity_flag }

-- AND, OR and XOR of operands within the width combine them bit by bit, stay within the width, clear
-- carry and overflow and set the other flags from the result.
pub logical_lem :
    (w : Width) (a b : ℕ) (f : Flags)
    → a < 2 ^ bits w
    → b < 2 ^ bits w
    → Bitwise w (λ x y. x && y) a b (op_and w a b f)
      × Bitwise w (λ x y. x || y) a b (op_or w a b f)
      × Bitwise w (λ x y. if x then not y else y) a b (op_xor w a b f)
unfolding op_and op_or op_xor flag_log
logical_lem w a b f p q =
    let and : bit_and a b < 2 ^ bits w = lt_of_le_of_lt (bit_and-le a b) p in
    let or : bit_or a b < 2 ^ bits w = bit_or-lt (bits w) a b p q in
    let xor : bit_xor a b < 2 ^ bits w = bit_xor-lt (bits w) a b p q in
    (
      record {
        each_bit = bit-bit_and a b;
        within = and;
        describes = log_flags w _ f and;
        no_carry = refl;
        no_overflow = refl;
      },
      record {
        each_bit = bit-bit_or a b;
        within = or;
        describes = log_flags w _ f or;
        no_carry = refl;
        no_overflow = refl;
      },
      record {
        each_bit = bit-bit_xor a b;
        within = xor;
        describes = log_flags w _ f xor;
        no_carry = refl;
        no_overflow = refl;
      },
    )
