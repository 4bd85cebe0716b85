-- ===== src/Tests/Arithmetic.antt =====
-- Instructions of the processor on concrete operands.
use pculator.Base.{◌+◌, ◌*◌, ◌≡◌, refl, some, arith}
use pculator.Cpu.Flags.{byte, word, Flags, flag_adc}
use pculator.Cpu.Flags.Spec.{AddFlags, flag_adc_lem}
use pculator.Cpu.Alu.{Outcome, op_add, op_adc}
use pculator.Cpu.Alu.Chain.{joined, wide_add}
use pculator.Cpu.Divide.{Divides, op_div, op_div_lem}
use pculator.Cpu.Shift.{
  Shifted, op_grp2, grp2_rol, turns, rol_step, rotate_count, rotated, left_overflow,
}
use pculator.Cpu.Shift.ThroughCarry.{op_grp2-through_carry}

abbrev before : Flags
before = record { zf = 0; sf = 0; pf = 0; cf = 1; of = 0; af = 0 }

flag_adc_lem_example : AddFlags byte 0x7F 0x01 1 (flag_adc byte 0x7F 0x01 1 before)
flag_adc_lem_example =
    flag_adc_lem byte 0x7F 0x01 1 before (omega arith) (omega arith) (omega arith)

-- 0x7F + 1 + 1 leaves the signed range.
signed_overflow : (flag_adc byte 0x7F 0x01 1 before).of ≡ 1
unfolding flag_adc
signed_overflow = refl

wide_add_example :
    let low : Outcome = op_add byte 0xFF 0x01 before in
    let high : Outcome = op_adc byte 0x12 0x34 (low.flags) in
    high.flags.cf * (256 * 256) + joined byte (high.res) (low.res)
    ≡ joined byte 0x12 0xFF + joined byte 0x34 0x01
wide_add_example =
    wide_add byte 0xFF 0x01 0x12 0x34 before (omega arith) (omega arith) (omega arith) (omega arith)

op_div_lem_example : Divides byte 1000 7 (op_div byte 1000 7)
op_div_lem_example = op_div_lem byte 1000 7 (omega arith)

-- 1000 / 7 is 142, remainder 6.
division : op_div byte 1000 7 ≡ some (record { high = 6; low = 142 })
unfolding op_div
division = refl

rotated_left : (grp2_rol byte 0xB1 3 before).result ≡ 0x8D
unfolding grp2_rol turns rol_step rotate_count rotated left_overflow
rotated_left = refl

op_grp2-through_carry_example :
    let y : Shifted = op_grp2 word 2 0xB1C2 13 before in
    let z : Shifted = op_grp2 word 3 (y.result) 13 (y.flags) in
    (z.result ≡ 0xB1C2) × (z.flags.cf ≡ 1)
op_grp2-through_carry_example =
    op_grp2-through_carry word 0xB1C2 13 before (omega arith) (omega arith)
