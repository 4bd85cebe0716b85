-- ===== src/Cpu/Alu/Chain.antt =====
-- The carry flag joins two operations of one width into one of twice the width.
use pculator.Base.{ℕ, ◌+◌, ◌-◌, ◌*◌, ◌^◌, ◌<◌, ◌≤◌, ◌≡◌, Bool, true, false, ltb, leb, arith}
use pculator.Cpu.Flags.{Width, byte, word, dword, bits, Flags, flag, cast, flag_add, flag_sub}
use pculator.Cpu.Flags.Spec.{flag_add_lem, flag_adc_lem}
use pculator.Cpu.Flags.Subtract.{flag_sub_lem, flag_sbb_lem}
use pculator.Cpu.Alu.{Outcome, op_add, op_adc, op_sub, op_sbb}

-- The two halves of a number of twice the width.
abbrev pub joined : Width → ℕ → ℕ → ℕ
joined w hi lo = hi * 2 ^ bits w + lo

flag-≤ : (n : ℕ) (b : Bool) → n ≡ flag b → n ≤ 1
flag-≤ n true e = omega arith
flag-≤ n false e = omega arith

carried :
    (w : Width) (l m h k c0 c1 : ℕ)
    → l < 2 ^ bits w
    → m < 2 ^ bits w
    → h < 2 ^ bits w
    → k < 2 ^ bits w
    → c0 ≡ flag (leb (2 ^ bits w) (l + m + 0))
    → c1 ≡ flag (leb (2 ^ bits w) (h + k + c0))
    → c1 * (2 ^ bits w * 2 ^ bits w) + joined w (cast w (h + k + c0)) (cast w (l + m))
      ≡ joined w h l + joined w k m
carried byte l m h k c0 c1 a b c d e f = ground arith
carried word l m h k c0 c1 a b c d e f = ground arith
carried dword l m h k c0 c1 a b c d e f = ground arith

borrowed :
    (w : Width) (l m h k c0 c1 : ℕ)
    → l < 2 ^ bits w
    → m < 2 ^ bits w
    → h < 2 ^ bits w
    → k < 2 ^ bits w
    → c0 ≡ flag (ltb l (m + 0))
    → c1 ≡ flag (ltb h (k + c0))
    → joined w (cast w (h + 2 * 2 ^ bits w - (k + c0))) (cast w (l + 2 ^ bits w - m)) + joined w k m
      ≡ c1 * (2 ^ bits w * 2 ^ bits w) + joined w h l
borrowed byte l m h k c0 c1 a b c d e f = ground arith
borrowed word l m h k c0 c1 a b c d e f = ground arith
borrowed dword l m h k c0 c1 a b c d e f = ground arith

-- For operands within the width: adding the low halves, and then the high halves with the carry flag that leaves, is the addition at
-- twice the width: the last carry and the two results make up the sum of the joined numbers.
pub wide_add :
    (w : Width) (l m h k : ℕ) (f : Flags)
    → l < 2 ^ bits w
    → m < 2 ^ bits w
    → h < 2 ^ bits w
    → k < 2 ^ bits w
    → let low : Outcome = op_add w l m f in
      let high : Outcome = op_adc w h k (low.flags) in
      high.flags.cf * (2 ^ bits w * 2 ^ bits w) + joined w (high.res) (low.res)
      ≡ joined w h l + joined w k m
unfolding op_add op_adc
wide_add w l m h k f a b c d =
    let low : Flags = flag_add w l m f in
    let e : low.cf ≡ flag (leb (2 ^ bits w) (l + m + 0)) = (flag_add_lem w l m f a b).carry in
    carried w l m h k (low.cf) _ a b c d e
      (flag_adc_lem w h k (low.cf) low c d (flag-≤ (low.cf) _ e)).carry

-- For operands within the width: subtracting the low halves, and then the high halves with the borrow that leaves, is the subtraction
-- at twice the width: the results and the subtrahend add up to the minuend and the last borrow.
pub wide_sub :
    (w : Width) (l m h k : ℕ) (f : Flags)
    → l < 2 ^ bits w
    → m < 2 ^ bits w
    → h < 2 ^ bits w
    → k < 2 ^ bits w
    → let low : Outcome = op_sub w l m f in
      let high : Outcome = op_sbb w h k (low.flags) in
      joined w (high.res) (low.res) + joined w k m
      ≡ high.flags.cf * (2 ^ bits w * 2 ^ bits w) + joined w h l
unfolding op_sub op_sbb
wide_sub w l m h k f a b c d =
    let low : Flags = flag_sub w l m f in
    let e : low.cf ≡ flag (ltb l (m + 0)) = (flag_sub_lem w l m f a b).borrow in
    borrowed w l m h k (low.cf) _ a b c d e
      (flag_sbb_lem w h k (low.cf) low c d (flag-≤ (low.cf) _ e)).borrow
