-- ===== src/Cpu/Shift.antt =====
-- op_grp2_8, op_grp2_16 and op_grp2_32 of src/cpu/cpu.c: the shifts and rotations.
pub mod Steps
pub mod Rotate
pub mod Register
pub mod ThroughCarry
pub mod Plain
use pculator.Base.{
  ℕ, zero, suc, ◌+◌, ◌-◌, ◌*◌, ◌/◌, ◌%◌, ◌^◌, Bool, ◌==◌, ◌&&◌, ◌||◌, if◌then◌else◌, bit_and,
  bit_or, bit_xor, has, ◌<<<◌, ◌>>>◌,
}
use pculator.Cpu.Flags.{
  Width, byte, word, dword, bits, Flags, flag, cast, double_width, sign, flag_szp,
}

-- The variable `s`, of twice the width, and the carry flag.
pub record Shifting : Type 0 where
  pub s : ℕ
  pub carry : ℕ

-- One turn of each loop. The C variable has twice the width.
unfoldable pub rol_step : Width → Shifting → Shifting
rol_step w x =
    let cf = flag (has (x.s) (sign w)) in
    record { s = bit_or ((x.s <<< 1) % double_width w) cf; carry = cf }

unfoldable pub ror_step : Width → Shifting → Shifting
ror_step w x =
    let cf = bit_and (x.s) 1 in record { s = bit_or (x.s >>> 1) (cf <<< (bits w - 1)); carry = cf }

unfoldable pub rcl_step : Width → Shifting → Shifting
rcl_step w x = record {
  s = bit_or ((x.s <<< 1) % double_width w) (x.carry);
  carry = flag (has (x.s) (sign w));
}

unfoldable pub rcr_step : Width → Shifting → Shifting
rcr_step w x = record { s = bit_or (x.s >>> 1) (x.carry <<< (bits w - 1)); carry = bit_and (x.s) 1 }

unfoldable pub shl_step : Width → Shifting → Shifting
shl_step w x = record {
  s = bit_and (x.s <<< 1) (2 ^ bits w - 1);
  carry = flag (has (x.s) (sign w));
}

unfoldable pub shr_step : Width → Shifting → Shifting
shr_step w x = record { s = x.s >>> 1; carry = bit_and (x.s) 1 }

unfoldable pub sar_step : Width → Shifting → Shifting
sar_step w x = record { s = bit_or (x.s >>> 1) (bit_and (x.s) (sign w)); carry = bit_and (x.s) 1 }

-- `for (shift = 1; shift <= cnt; shift++)`.
unfoldable pub turns : (Shifting → Shifting) → ℕ → Shifting → Shifting
turns step zero x = x
turns step (suc cnt) x = turns step cnt (step x)

-- The count of ROL and ROR within the width, of RCL and RCR within the width and the carry. At 32
-- bits the code leaves the count, which is below 32.
unfoldable pub rotate_count : Width → ℕ → ℕ
rotate_count byte cnt = bit_and cnt 7
rotate_count word cnt = bit_and cnt 0x0F
rotate_count dword cnt = cnt

unfoldable pub through_carry_count : Width → ℕ → ℕ
through_carry_count byte cnt = cnt % 9
through_carry_count word cnt = cnt % 17
through_carry_count dword cnt = cnt

-- The result, cut to the width, and the flags.
pub record Shifted : Type 0 where
  pub result : ℕ
  pub flags : Flags

-- The top bit of `s`, as in `(s >> 7) & 1`, and the overflow flag of a shift to the left.
top : Width → ℕ → ℕ
top w s = bit_and (s >>> (bits w - 1)) 1

unfoldable pub left_overflow : Width → Shifting → ℕ
unfolding top
left_overflow w x = bit_xor (x.carry) (top w (x.s))

-- `(s >> 7) ^ ((s >> 6) & 1)`.
pub right_overflow : Width → Shifting → ℕ
right_overflow w x = bit_xor (x.s >>> (bits w - 1)) (bit_and (x.s >>> (bits w - 2)) 1)

-- A rotation writes the overflow flag only if it turns once.
unfoldable pub rotated : (w : Width) (cnt overflow : ℕ) (x : Shifting) (f : Flags) → Shifted
rotated w cnt overflow x f = record {
  result = cast w (x.s);
  flags = record f { cf = x.carry; of = if cnt == 1 then overflow else f.of };
}

unfoldable pub grp2_rol : Width → ℕ → ℕ → Flags → Shifted
unfolding rotate_count turns rol_step rotated left_overflow
grp2_rol w oper cnt f =
    let n = rotate_count w cnt in
    let x = turns (rol_step w) n (record { s = oper; carry = f.cf }) in
    if n == 0
    then record { result = cast w oper; flags = f }
    else rotated w n (left_overflow w x) x f

unfoldable pub grp2_ror : Width → ℕ → ℕ → Flags → Shifted
unfolding rotate_count turns ror_step rotated right_overflow
grp2_ror w oper cnt f =
    let n = rotate_count w cnt in
    let x = turns (ror_step w) n (record { s = oper; carry = f.cf }) in
    if n == 0
    then record { result = cast w oper; flags = f }
    else rotated w n (right_overflow w x) x f

unfoldable pub grp2_rcl : Width → ℕ → ℕ → Flags → Shifted
unfolding through_carry_count turns rcl_step rotated left_overflow
grp2_rcl w oper cnt f =
    let n = through_carry_count w cnt in
    let x = turns (rcl_step w) n (record { s = oper; carry = f.cf }) in
    if n == 0
    then record { result = cast w oper; flags = f }
    else rotated w n (left_overflow w x) x f

unfoldable pub grp2_rcr : Width → ℕ → ℕ → Flags → Shifted
unfolding through_carry_count turns rcr_step rotated right_overflow
grp2_rcr w oper cnt f =
    let n = through_carry_count w cnt in
    let x = turns (rcr_step w) n (record { s = oper; carry = f.cf }) in
    if n == 0
    then record { result = cast w oper; flags = f }
    else rotated w n (right_overflow w x) x f

unfoldable pub grp2_shl : Width → ℕ → ℕ → Flags → Shifted
unfolding turns shl_step left_overflow flag_szp
grp2_shl w oper cnt f =
    let x = turns (shl_step w) cnt (record { s = oper; carry = f.cf }) in
    record {
      result = cast w (x.s);
      flags = record (flag_szp w (cast w (x.s)) f) {
        cf = x.carry;
        of = if cnt == 1 then left_overflow w x else f.of;
      };
    }

unfoldable pub grp2_shr : Width → ℕ → ℕ → Flags → Shifted
unfolding turns shr_step flag_szp
grp2_shr w oper cnt f =
    let x = turns (shr_step w) cnt (record { s = oper; carry = f.cf }) in
    record {
      result = cast w (x.s);
      flags = record (flag_szp w (cast w (x.s)) f) {
        cf = x.carry;
        of = flag ((cnt == 1) && has oper (sign w));
      };
    }

unfoldable pub grp2_sar : Width → ℕ → ℕ → Flags → Shifted
unfolding turns sar_step flag_szp
grp2_sar w oper cnt f =
    let x = turns (sar_step w) cnt (record { s = oper; carry = f.cf }) in
    record {
      result = cast w (x.s);
      flags = record (flag_szp w (cast w (x.s)) f) { cf = x.carry; of = 0 };
    }

-- `switch (cpu->reg)`, a number below 8.
by_reg : Width → ℕ → ℕ → ℕ → Flags → Shifted
by_reg w reg oper cnt f =
    if reg == 0
    then grp2_rol w oper cnt f
    else if reg == 1
    then grp2_ror w oper cnt f
    else if reg == 2
    then grp2_rcl w oper cnt f
    else if reg == 3
    then grp2_rcr w oper cnt f
    else if reg == 4 || reg == 6
    then grp2_shl w oper cnt f
    else if reg == 5
    then grp2_shr w oper cnt f
    else grp2_sar w oper cnt f

unfoldable pub op_grp2 : Width → ℕ → ℕ → ℕ → Flags → Shifted
unfolding by_reg
op_grp2 w reg oper cnt f =
    let n = bit_and cnt 0x1F in
    if n == 0 then record { result = cast w oper; flags = f } else by_reg w reg oper n f

-- The three functions of the code.
abbrev pub op_grp2_8 : ℕ → ℕ → ℕ → Flags → Shifted
op_grp2_8 reg oper1b cnt f = op_grp2 byte reg oper1b cnt f

abbrev pub op_grp2_16 : ℕ → ℕ → ℕ → Flags → Shifted
op_grp2_16 reg oper1 cnt f = op_grp2 word reg oper1 cnt f

abbrev pub op_grp2_32 : ℕ → ℕ → ℕ → Flags → Shifted
op_grp2_32 reg oper1_32 cnt f = op_grp2 dword reg oper1_32 cnt f
