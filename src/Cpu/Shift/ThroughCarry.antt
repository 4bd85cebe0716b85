-- ===== src/Cpu/Shift/ThroughCarry.antt =====
-- The rotations through the carry flag of src/cpu/cpu.c: one register of the width and a bit.
use native.Mathlib.Nat.{mod-lt, mod-mod, mod-eq_of_lt}
use pculator.Base.{
  ℕ, zero, suc, ◌+◌, ◌*◌, ◌%◌, ◌^◌, ◌<◌, ◌≤◌, ◌≡◌, refl, sym, ap, ◌∙◌, ◌==◌, if◌then◌else◌, arith,
  bit_and, inl, inr, Bool-cases, eq_of_bits,
}
use pculator.Cpu.Flags.{Width, byte, word, dword, bits, Flags, flag, cast}
use pculator.Cpu.Flags.Spec.{cast-lt}
use pculator.Cpu.Shift.{
  Shifting, rcl_step, rcr_step, turns, through_carry_count, Shifted, rotated, left_overflow,
  right_overflow, grp2_rcl, grp2_rcr, op_grp2,
}
use pculator.Cpu.Shift.Rotate.{count_fits, start}
use pculator.Cpu.Shift.Register.{
  Whole, register, left_in, rcl_turns, rcr_turns, early_register, rcl_small, rcr-Whole_step, places,
  carry_flag,
}

through_carry_count_lem :
    (w : Width) (cnt : ℕ) → cnt < 32 → through_carry_count w cnt ≡ cnt % (bits w + 1)
unfolding through_carry_count
through_carry_count_lem byte cnt h = refl
through_carry_count_lem word cnt h = refl
through_carry_count_lem dword cnt h = omega arith

-- RCL by a count below 32 puts the bit `cnt` places below, around the carry flag and the width
-- together, at place `i`; the carry flag is the place above the width.
rcl_lem :
    (w : Width) (oper cnt : ℕ) (f : Flags) (i : ℕ)
    → f.cf ≤ 1
    → cnt < 32
    → i < bits w + 1
    → left_in w (grp2_rcl w oper cnt f) i
      ≡ register w (start oper f) ((i + cnt % (bits w + 1) * bits w) % (bits w + 1))
unfolding grp2_rcl start
rcl_lem w oper cnt f i c p h =
    let n : ℕ = through_carry_count w cnt in
    let x : Shifting = turns (rcl_step w) n (start oper f) in
    early_register w (rcl_step w) n (left_overflow w x) oper f i h
    ∙ rcl_turns w n (start oper f) i c h
    ∙ ap (λ (m : ℕ). register w (start oper f) ((i + m * bits w) % (bits w + 1)))
        (through_carry_count_lem w cnt p)

rcr_lem :
    (w : Width) (oper cnt : ℕ) (f : Flags) (i : ℕ)
    → oper < 2 ^ bits w
    → f.cf ≤ 1
    → cnt < 32
    → i < bits w + 1
    → left_in w (grp2_rcr w oper cnt f) i
      ≡ register w (start oper f) ((i + cnt % (bits w + 1) * 1) % (bits w + 1))
unfolding grp2_rcr start
rcr_lem w oper cnt f i q c p h =
    let n : ℕ = through_carry_count w cnt in
    let x : Shifting = turns (rcr_step w) n (start oper f) in
    early_register w (rcr_step w) n (right_overflow w x) oper f i h
    ∙ rcr_turns w n (start oper f) i (record { narrow = q; one = c }) h
    ∙ ap (λ (m : ℕ). register w (start oper f) ((i + m * 1) % (bits w + 1)))
        (through_carry_count_lem w cnt p)

around_back :
    (w : Width) (i cnt : ℕ)
    → i < bits w + 1
    → ((i + cnt % (bits w + 1) * 1) % (bits w + 1) + cnt % (bits w + 1) * bits w) % (bits w + 1) ≡ i
around_back byte i cnt h = omega arith
around_back word i cnt h = omega arith
around_back dword i cnt h = omega arith

turns_small : (w : Width) (n : ℕ) (x : Shifting) → x.carry ≤ 1 → (turns (rcl_step w) n x).carry ≤ 1
unfolding turns
turns_small w zero x h = h
turns_small w (suc n) x h = turns_small w n (rcl_step w x) (rcl_small w x h)

turns-Whole : (w : Width) (n : ℕ) (x : Shifting) → Whole w x → Whole w (turns (rcr_step w) n x)
unfolding turns
turns-Whole w zero x h = h
turns-Whole w (suc n) x h = turns-Whole w n (rcr_step w x) (rcr-Whole_step w x h)

-- What an instruction leaves.
outcome : Shifted → Shifting
outcome y = record { s = y.result; carry = y.flags.cf }

early-Whole :
    (w : Width) (step : Shifting → Shifting) (n overflow oper : ℕ) (f : Flags)
    → (turns step n (start oper f)).carry ≤ 1
    → f.cf ≤ 1
    → let given : Shifted =
        if n == 0
        then record { result = cast w oper; flags = f }
        else rotated w n overflow (turns step n (start oper f)) f in
      Whole w (outcome given)
unfolding rotated outcome
early-Whole w step n overflow oper f h c = elim (Bool-cases (n == 0)) [
  | inl e ↦ rw e (record { narrow = cast-lt w oper; one = c })
  | inr e ↦ rw e (record { narrow = cast-lt w ((turns step n (start oper f)).s); one = h })
]

rcl-Whole :
    (w : Width) (oper cnt : ℕ) (f : Flags) → f.cf ≤ 1 → Whole w (outcome (grp2_rcl w oper cnt f))
unfolding grp2_rcl start
rcl-Whole w oper cnt f c =
    let n : ℕ = through_carry_count w cnt in
    let x : Shifting = turns (rcl_step w) n (start oper f) in
    early-Whole w (rcl_step w) n (left_overflow w x) oper f (turns_small w n (start oper f) c) c

rcr-Whole :
    (w : Width) (oper cnt : ℕ) (f : Flags)
    → oper < 2 ^ bits w
    → f.cf ≤ 1
    → Whole w (outcome (grp2_rcr w oper cnt f))
unfolding grp2_rcr start
rcr-Whole w oper cnt f q c =
    let n : ℕ = through_carry_count w cnt in
    let x : Shifting = turns (rcr_step w) n (start oper f) in
    let ok : Whole w x = turns-Whole w n (start oper f) (record { narrow = q; one = c }) in
    early-Whole w (rcr_step w) n (right_overflow w x) oper f (ok.one) c

-- The register after RCL and RCR by the same count.
rcr-rcl :
    (w : Width) (oper cnt : ℕ) (f : Flags) (i : ℕ)
    → f.cf ≤ 1
    → cnt < 32
    → i < bits w + 1
    → let y : Shifted = grp2_rcl w oper cnt f in
      left_in w (grp2_rcr w (y.result) cnt (y.flags)) i ≡ register w (start oper f) i
unfolding left_in start outcome
rcr-rcl w oper cnt f i c p h =
    let y : Shifted = grp2_rcl w oper cnt f in
    let ok : Whole w (outcome y) = rcl-Whole w oper cnt f c in
    let j : ℕ = (i + cnt % (bits w + 1) * 1) % (bits w + 1) in
    rcr_lem w (y.result) cnt (y.flags) i (ok.narrow) (ok.one) p h
    ∙ rcl_lem w oper cnt f j c p (mod-lt (i + cnt % (bits w + 1) * 1) (places w))
    ∙ ap (register w (start oper f)) (around_back w i cnt h)

-- Two whole registers with the same places are equal.
register_ext :
    (w : Width) (x y : Shifting)
    → Whole w x
    → Whole w y
    → ((i : ℕ) → i < bits w + 1 → register w x i ≡ register w y i)
    → (x.s ≡ y.s) × (x.carry ≡ y.carry)
unfolding register
register_ext w x y p q same = (
  eq_of_bits (bits w) (x.s) (y.s) (p.narrow) (q.narrow)
      (λ i h. ground (arith, same i (omega arith))),
  carry_flag (x.carry) (p.one)
      ∙ ap flag (ground (arith, same (bits w) (omega arith)))
      ∙ sym (carry_flag (y.carry) (q.one)),
)

restored :
    (w : Width) (oper cnt : ℕ) (f : Flags)
    → oper < 2 ^ bits w
    → f.cf ≤ 1
    → cnt < 32
    → let y : Shifted = grp2_rcl w oper cnt f in
      let z : Shifted = grp2_rcr w (y.result) cnt (y.flags) in
      (z.result ≡ oper) × (z.flags.cf ≡ f.cf)
unfolding outcome start left_in
restored w oper cnt f h c p =
    let y : Shifted = grp2_rcl w oper cnt f in
    let ok : Whole w (outcome y) = rcl-Whole w oper cnt f c in
    register_ext w (outcome (grp2_rcr w (y.result) cnt (y.flags))) (start oper f)
      (rcr-Whole w (y.result) cnt (y.flags) (ok.narrow) (ok.one)) (record { narrow = h; one = c })
      (λ i b. rcr-rcl w oper cnt f i c p b)

-- Rotating right through the carry flag (`reg` 3) by any count undoes rotating left through it
-- (`reg` 2) by the same count, at each width: operand and carry flag are as before, if the operand is
-- within the width and the flag is 0 or 1.
pub op_grp2-through_carry :
    (w : Width) (oper cnt : ℕ) (f : Flags)
    → oper < 2 ^ bits w
    → f.cf ≤ 1
    → let y : Shifted = op_grp2 w 2 oper cnt f in
      let z : Shifted = op_grp2 w 3 (y.result) cnt (y.flags) in
      (z.result ≡ oper) × (z.flags.cf ≡ f.cf)
unfolding op_grp2
op_grp2-through_carry w oper cnt f h c = elim (Bool-cases (bit_and cnt 0x1F == 0)) [
  | inl e ↦ rw e (mod-mod oper (2 ^ bits w) ∙ mod-eq_of_lt h, refl)
  | inr e ↦ rw e (restored w oper (bit_and cnt 0x1F) f h c (count_fits cnt))
]
