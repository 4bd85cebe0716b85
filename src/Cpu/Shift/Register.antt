-- ===== src/Cpu/Shift/Register.antt =====
-- The turns of RCL and RCR in src/cpu/cpu.c: they move a register of the width and one bit more.
use pculator.Base.{
  ℕ, zero, suc, ◌+◌, ◌-◌, ◌*◌, ◌%◌, ◌^◌, ◌<◌, ◌≤◌, ◌≡◌, refl, sym, ap, ◌∙◌, Bool, true, false, ◌==◌,
  if◌then◌else◌, arith, bit, has, ◌>>>◌, ◌<<<◌, inl, inr, Bool-cases, bit_or-lt, subst,
}
use pculator.Cpu.Flags.{Width, bits, Flags, flag, cast, sign}
use pculator.Cpu.Shift.{Shifting, rcl_step, rcr_step, turns, Shifted, rotated}
use pculator.Cpu.Shift.Rotate.{half_fits, top_fits, some_turns, positive, bit-cast, start}
use pculator.Cpu.Shift.Steps.{
  turns_move, left_bits, right_bits, sign-bit, low_bit, around_left, around_right,
}

-- The register: the bits of `s` below the width, and the carry flag above them.
unfoldable pub register : Width → Shifting → ℕ → Bool
register w x i = if i == bits w then x.carry == 1 else bit (x.s) i

pub record Whole (w : Width) (x : Shifting) : Type 0 where
  pub narrow : x.s < 2 ^ bits w
  pub one : x.carry ≤ 1

pub carry_flag : (c : ℕ) → c ≤ 1 → c ≡ flag (c == 1)
carry_flag c h = ground arith

flag_set : (b : Bool) → (flag b == 1) ≡ b
flag_set true = ground arith
flag_set false = ground arith

pub below_top : (w : Width) (i : ℕ) → i < bits w + 1 → (i == bits w) ≡ false → i < bits w
below_top w i h e = ground arith

rcl_places :
    (w : Width) (x : Shifting) (i : ℕ)
    → x.carry ≤ 1
    → i < bits w + 1
    → register w (rcl_step w x) i
      ≡ (if i == 0 then register w x (bits w + 1 - 1) else register w x (i - 1))
unfolding register rcl_step
rcl_places w x i ok h = ground (
  arith,
  positive w,
  flag_set (has (x.s) (sign w)),
  sign-bit w (x.s),
  carry_flag (x.carry) ok,
  left_bits w (x.s) i (x.carry == 1),
)

rcl_move :
    (w : Width) (x : Shifting) (i : ℕ)
    → x.carry ≤ 1
    → i < bits w + 1
    → register w (rcl_step w x) i ≡ register w x ((i + (bits w + 1 - 1)) % (bits w + 1))
rcl_move w x i ok h = rcl_places w x i ok h ∙ around_left (bits w + 1) (register w x) i h

rcr_places :
    (w : Width) (x : Shifting) (i : ℕ)
    → Whole w x
    → i < bits w + 1
    → register w (rcr_step w x) i
      ≡ (if i == bits w + 1 - 1 then register w x 0 else register w x (i + 1))
unfolding register rcr_step
rcr_places w x i ok h = ground (
  arith,
  positive w,
  low_bit (x.s),
  flag_set (bit (x.s) 0),
  carry_flag (x.carry) (ok.one),
  right_bits w (x.s) i (x.carry == 1) (ok.narrow),
)

flag_small : (b : Bool) → flag b ≤ 1
flag_small true = omega arith
flag_small false = omega arith

pub rcr-Whole_step : (w : Width) (x : Shifting) → Whole w x → Whole w (rcr_step w x)
unfolding rcr_step
rcr-Whole_step w x ok = record {
  narrow =
      bit_or-lt (bits w) (x.s >>> 1) (x.carry <<< (bits w - 1)) (half_fits w (x.s) (ok.narrow)) (
        subst (λ (c : ℕ). c <<< (bits w - 1) < 2 ^ bits w) (sym (carry_flag (x.carry) (ok.one)))
          (top_fits w (x.carry == 1)));
  one = subst (λ (c : ℕ). c ≤ 1) (sym (low_bit (x.s))) (flag_small (bit (x.s) 0));
}

pub rcl_small : (w : Width) (x : Shifting) → x.carry ≤ 1 → (rcl_step w x).carry ≤ 1
unfolding rcl_step
rcl_small w x ok = flag_small (has (x.s) (sign w))

pub places : (w : Width) → 0 < bits w + 1
places w = omega (arith, positive w)

pub rcl_turns :
    (w : Width) (n : ℕ) (x : Shifting) (i : ℕ)
    → x.carry ≤ 1
    → i < bits w + 1
    → register w (turns (rcl_step w) n x) i ≡ register w x ((i + n * bits w) % (bits w + 1))
rcl_turns w n x i ok h =
    turns_move (rcl_step w) (register w) (λ y. y.carry ≤ 1) (bits w + 1) (bits w + 1 - 1) (places w)
      (rcl_small w) (rcl_move w) n x i ok h
    ∙ ap (λ (d : ℕ). register w x ((i + n * d) % (bits w + 1))) (omega arith)

pub rcr_turns :
    (w : Width) (n : ℕ) (x : Shifting) (i : ℕ)
    → Whole w x
    → i < bits w + 1
    → register w (turns (rcr_step w) n x) i ≡ register w x ((i + n * 1) % (bits w + 1))
rcr_turns w n x i ok h =
    turns_move (rcr_step w) (register w) (Whole w) (bits w + 1) 1 (places w) (rcr-Whole_step w)
      (λ y j g b. rcr_places w y j g b ∙ around_right (bits w + 1) (register w y) j b) n x i ok h

-- What an instruction leaves, as a register.
unfoldable pub left_in : Width → Shifted → ℕ → Bool
unfolding register
left_in w y = register w (record { s = y.result; carry = y.flags.cf })

cut_register :
    (w : Width) (s c i : ℕ)
    → i < bits w + 1
    → register w (record { s = cast w s; carry = c }) i ≡ register w (record { s = s; carry = c }) i
unfolding register
cut_register w s c i h = elim (Bool-cases (i == bits w)) [
  | inl e ↦ rw e refl
  | inr e ↦ rw e (bit-cast w s i (below_top w i h e))
]

pub early_register :
    (w : Width) (step : Shifting → Shifting) (n overflow oper : ℕ) (f : Flags) (i : ℕ)
    → i < bits w + 1
    → let given : Shifted =
        if n == 0
        then record { result = cast w oper; flags = f }
        else rotated w n overflow (turns step n (start oper f)) f in
      left_in w given i ≡ register w (turns step n (start oper f)) i
unfolding turns rotated start left_in register
early_register w step zero overflow oper f i h = cut_register w oper (f.cf) i h
early_register w step (suc n) overflow oper f i h = rw some_turns (
    cut_register w ((turns step n (step (start oper f))).s)
      ((turns step n (step (start oper f))).carry) i h)
