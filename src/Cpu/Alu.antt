-- ===== src/Cpu/Alu.antt =====
-- op_adc8 to op_sbb32 of src/cpu/cpu.c: a result and its flags.
pub mod Chain
pub mod Logic
use pculator.Base.{ℕ, ◌+◌, ◌-◌, ◌*◌, ◌%◌, ◌^◌, bit_and, bit_or, bit_xor}
use pculator.Cpu.Flags.{Width, bits, Flags, cast, flag_log, flag_adc, flag_add, flag_sbb, flag_sub}

-- What an operation leaves in `res8`, `res16` or `res32`, and the flags.
pub record Outcome : Type 0 where
  pub res : ℕ
  pub flags : Flags

unfoldable pub op_adc : Width → ℕ → ℕ → Flags → Outcome
op_adc w oper1 oper2 f = record {
  res = cast w (oper1 + oper2 + f.cf);
  flags = flag_adc w oper1 oper2 (f.cf) f;
}

unfoldable pub op_add : Width → ℕ → ℕ → Flags → Outcome
op_add w oper1 oper2 f = record { res = cast w (oper1 + oper2); flags = flag_add w oper1 oper2 f }

unfoldable pub op_and : Width → ℕ → ℕ → Flags → Outcome
op_and w oper1 oper2 f =
    let res = bit_and oper1 oper2 in record { res = res; flags = flag_log w res f }

unfoldable pub op_or : Width → ℕ → ℕ → Flags → Outcome
op_or w oper1 oper2 f =
    let res = bit_or oper1 oper2 in record { res = res; flags = flag_log w res f }

unfoldable pub op_xor : Width → ℕ → ℕ → Flags → Outcome
op_xor w oper1 oper2 f =
    let res = bit_xor oper1 oper2 in record { res = res; flags = flag_log w res f }

-- The difference wraps at the width.
unfoldable pub op_sub : Width → ℕ → ℕ → Flags → Outcome
op_sub w oper1 oper2 f = record {
  res = cast w (oper1 + 2 ^ bits w - oper2);
  flags = flag_sub w oper1 oper2 f;
}

-- `oper2 + cf` may reach 2 ^ width, so the wrap-around is written with twice that.
unfoldable pub op_sbb : Width → ℕ → ℕ → Flags → Outcome
op_sbb w oper1 oper2 f = record {
  res = cast w (oper1 + 2 * 2 ^ bits w - (oper2 + f.cf));
  flags = flag_sbb w oper1 oper2 (f.cf) f;
}
