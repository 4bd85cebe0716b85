-- ===== src/Cpu/Flags/Subtract.antt =====
-- The flags after a subtraction, as arithmetic.
use pculator.Base.{
  ℕ, ◌+◌, ◌-◌, ◌/◌, ◌%◌, ◌^◌, ◌<◌, ◌≤◌, ◌≡◌, ap, subst, ◌∙◌, ◌&&◌, ◌||◌, ◌==◌, ◌!=◌, ltb, leb,
  arith, has, bit_and-shifted, bit_and_mask,
}
use pculator.Cpu.Flags.{
  Width, byte, word, dword, bits, Flags, flag, cast, double_width, sign, high, flag_szp, flag_sbb,
  flag_sub,
}
use pculator.Cpu.Flags.Spec.{biased, Describes, SubFlags, szp, half_carry, overflows, cast-lt}

-- What the code subtracts at twice the width, and its low half.
borrowed :
    (w : Width) (v1 v2 c : ℕ)
    → v1 < 2 ^ bits w
    → v2 < 2 ^ bits w
    → c ≤ 1
    → cast w ((v1 + double_width w - (v2 + c) % double_width w) % double_width w)
      ≡ cast w (v1 + 2 ^ bits w - v2 - c)
borrowed byte v1 v2 c p q r = ground arith
borrowed word v1 v2 c p q r = ground arith
borrowed dword v1 v2 c p q r = ground arith

-- `dst & high` asks whether the subtraction borrowed.
borrows :
    (w : Width) (v1 v2 c : ℕ)
    → v1 < 2 ^ bits w
    → v2 < 2 ^ bits w
    → c ≤ 1
    → has ((v1 + double_width w - (v2 + c) % double_width w) % double_width w) (high w)
      ≡ ltb v1 (v2 + c)
borrows byte v1 v2 c p q r =
    let d : ℕ = (v1 + 2 ^ 16 - (v2 + c) % 2 ^ 16) % 2 ^ 16 in
    ground (arith, bit_and-shifted 8 d 255, bit_and_mask 8 (d / 2 ^ 8))
borrows word v1 v2 c p q r =
    let d : ℕ = (v1 + 2 ^ 32 - (v2 + c) % 2 ^ 32) % 2 ^ 32 in
    ground (arith, bit_and-shifted 16 d 65535, bit_and_mask 16 (d / 2 ^ 16))
borrows dword v1 v2 c p q r =
    let d : ℕ = (v1 + 2 ^ 64 - (v2 + c) % 2 ^ 64) % 2 ^ 64 in
    ground (arith, bit_and-shifted 32 d 4294967295, bit_and_mask 32 (d / 2 ^ 32))

-- The operands differ in sign, and the result differs from the first, exactly if the signed
-- difference leaves the range.
sub_overflow :
    (w : Width) (v1 v2 c : ℕ)
    → v1 < 2 ^ bits w
    → v2 < 2 ^ bits w
    → c ≤ 1
    → ((v1 + double_width w - (v2 + c) % double_width w) % double_width w / sign w % 2
          != v1 / sign w % 2
        && v1 / sign w % 2 != v2 / sign w % 2)
      ≡ (ltb (biased w v1 + sign w) (biased w v2 + c)
          || leb (biased w v2 + c + sign w) (biased w v1))
sub_overflow byte v1 v2 c p q r = ground arith
sub_overflow word v1 v2 c p q r = ground arith
sub_overflow dword v1 v2 c p q r = ground arith

half_difference :
    (w : Width) (v1 v2 c : ℕ)
    → v1 < 2 ^ bits w
    → v2 < 2 ^ bits w
    → c ≤ 1
    → ((v1 / 16 + v2 / 16 + (v1 + double_width w - (v2 + c) % double_width w) % double_width w / 16)
          % 2
        == 1)
      ≡ ltb (v1 % 16) (v2 % 16 + c)
half_difference byte v1 v2 c p q r = ground arith
half_difference word v1 v2 c p q r = ground arith
half_difference dword v1 v2 c p q r = ground arith

-- After a subtraction with borrow, of operands within the width, the flags say what they stand for, at each width: zero, sign and
-- parity of the result, the borrow into the width and into the low four bits, and whether the
-- signed difference leaves the signed range.
pub flag_sbb_lem :
    (w : Width) (v1 v2 c : ℕ) (f : Flags)
    → v1 < 2 ^ bits w
    → v2 < 2 ^ bits w
    → c ≤ 1
    → SubFlags w v1 v2 c (flag_sbb w v1 v2 c f)
unfolding flag_sbb
flag_sbb_lem w v1 v2 c f p q r =
    let d : ℕ = (v1 + double_width w - (v2 + c) % double_width w) % double_width w in
    let z : Describes w (cast w d) (flag_szp w (cast w d) f) = szp w (cast w d) f (cast-lt w d) in
    let z2 : Describes w (cast w (v1 + 2 ^ bits w - v2 - c)) (flag_szp w (cast w d) f) =
      subst (λ (r : ℕ). Describes w r (flag_szp w (cast w d) f)) (borrowed w v1 v2 c p q r) z in
    record {
      describes = record {
        zero_flag = z2.zero_flag;
        sign_flag = z2.sign_flag;
        parity_flag = z2.parity_flag;
      };
      borrow = ap flag (borrows w v1 v2 c p q r);
      adjust = ap flag (half_carry v1 v2 d ∙ half_difference w v1 v2 c p q r);
      overflow = ap flag (overflows (bits w - 1) d v1 v1 v2 ∙ sub_overflow w v1 v2 c p q r);
    }

small_operand : (w : Width) (v : ℕ) → v < 2 ^ bits w → (v + 0) % double_width w ≡ v
small_operand byte v p = omega arith
small_operand word v p = omega arith
small_operand dword v p = omega arith

flag_sub-eq-flag_sbb :
    (w : Width) (v1 v2 : ℕ) (f : Flags)
    → v2 < 2 ^ bits w
    → flag_sub w v1 v2 f ≡ flag_sbb w v1 v2 0 f
unfolding flag_sub flag_sbb
flag_sub-eq-flag_sbb w v1 v2 f q = rw (small_operand w v2 q)

-- After a subtraction or comparison without borrow, of operands within the width, the flags say what
-- they stand for, at each width: zero, sign and parity of the result, the borrow into the width and
-- into the low four bits, and whether the signed difference leaves the signed range.
pub flag_sub_lem :
    (w : Width) (v1 v2 : ℕ) (f : Flags)
    → v1 < 2 ^ bits w
    → v2 < 2 ^ bits w
    → SubFlags w v1 v2 0 (flag_sub w v1 v2 f)
flag_sub_lem w v1 v2 f p q =
    rw (flag_sub-eq-flag_sbb w v1 v2 f q) (flag_sbb_lem w v1 v2 0 f p q (omega arith))
