-- ===== src/Cpu/Shift/Rotate.antt =====
-- The rotations of src/cpu/cpu.c, bit by bit.
use native.Mathlib.Nat.{mod-lt, mod-mod, mod-eq_of_lt}
use pculator.Base.{
  ℕ, zero, suc, ◌+◌, ◌-◌, ◌*◌, ◌%◌, ◌^◌, ◌<◌, ◌≡◌, refl, sym, ap, ◌∙◌, Bool, false, ◌==◌,
  if◌then◌else◌, arith, bit, bit_and, bit_or, has, bit_and_mask, bit-mod_pow, ◌>>>◌, ◌<<<◌, inl,
  inr, Bool-cases, bit_or-lt, eq_of_bits, subst,
}
use pculator.Cpu.Flags.{Width, byte, word, dword, bits, Flags, flag, cast, sign}
use pculator.Cpu.Flags.Spec.{cast-lt}
use pculator.Cpu.Shift.{
  Shifting, rol_step, ror_step, turns, rotate_count, Shifted, rotated, left_overflow,
  right_overflow, grp2_rol, grp2_ror, op_grp2,
}
use pculator.Cpu.Shift.Steps.{
  turns_move, left_bits, right_bits, sign-bit, low_bit, around_left, around_right,
}

-- ROL takes any `s`: only its low bits are read. ROR needs it within the width.
data Anything : Type 0 where
  anything : Anything

Narrow : Width → Shifting → Type 0
Narrow w x = x.s < 2 ^ bits w

rol_move :
    (w : Width) (x : Shifting) (i : ℕ)
    → i < bits w
    → bit ((rol_step w x).s) i ≡ bit (x.s) ((i + (bits w - 1)) % bits w)
unfolding rol_step
rol_move w x i h =
    left_bits w (x.s) i (has (x.s) (sign w)) h
    ∙ ap (λ (b : Bool). if i == 0 then b else bit (x.s) (i - 1)) (sign-bit w (x.s))
    ∙ around_left (bits w) (bit (x.s)) i h

ror_move :
    (w : Width) (x : Shifting) (i : ℕ)
    → Narrow w x
    → i < bits w
    → bit ((ror_step w x).s) i ≡ bit (x.s) ((i + 1) % bits w)
unfolding ror_step Narrow
ror_move w x i ok h =
    ap (λ (c : ℕ). bit (bit_or (x.s >>> 1) (c <<< (bits w - 1))) i) (low_bit (x.s))
    ∙ right_bits w (x.s) i (bit (x.s) 0) ok h
    ∙ around_right (bits w) (bit (x.s)) i h

pub half_fits : (w : Width) (s : ℕ) → s < 2 ^ bits w → s >>> 1 < 2 ^ bits w
half_fits byte s h = omega arith
half_fits word s h = omega arith
half_fits dword s h = omega arith

pub top_fits : (w : Width) (b : Bool) → flag b <<< (bits w - 1) < 2 ^ bits w
top_fits byte b = ground arith
top_fits word b = ground arith
top_fits dword b = ground arith

ror-Narrow : (w : Width) (x : Shifting) → Narrow w x → Narrow w (ror_step w x)
unfolding ror_step Narrow
ror-Narrow w x h =
    bit_or-lt (bits w) (x.s >>> 1) (bit_and (x.s) 1 <<< (bits w - 1)) (half_fits w (x.s) h) (
      subst (λ (c : ℕ). c <<< (bits w - 1) < 2 ^ bits w) (sym (low_bit (x.s)))
        (top_fits w (bit (x.s) 0)))

pub positive : (w : Width) → 0 < bits w
positive byte = omega arith
positive word = omega arith
positive dword = omega arith

rol_turns :
    (w : Width) (n : ℕ) (x : Shifting) (i : ℕ)
    → i < bits w
    → bit ((turns (rol_step w) n x).s) i ≡ bit (x.s) ((i + n * (bits w - 1)) % bits w)
rol_turns w n x i h =
    turns_move (rol_step w) (λ y. bit (y.s)) (λ y. Anything) (bits w) (bits w - 1) (positive w)
      (λ y ok. anything) (λ y j ok g. rol_move w y j g) n x i anything h

ror_turns :
    (w : Width) (n : ℕ) (x : Shifting) (i : ℕ)
    → Narrow w x
    → i < bits w
    → bit ((turns (ror_step w) n x).s) i ≡ bit (x.s) ((i + n * 1) % bits w)
ror_turns w n x i ok h =
    turns_move (ror_step w) (λ y. bit (y.s)) (Narrow w) (bits w) 1 (positive w) (ror-Narrow w)
      (ror_move w) n x i ok h

rotate_count_lem : (w : Width) (cnt : ℕ) → cnt < 32 → rotate_count w cnt ≡ cnt % bits w
unfolding rotate_count
rotate_count_lem byte cnt h = bit_and_mask 3 cnt
rotate_count_lem word cnt h = bit_and_mask 4 cnt
rotate_count_lem dword cnt h = omega arith

pub bit-cast : (w : Width) (s i : ℕ) → i < bits w → bit (cast w s) i ≡ bit s i
bit-cast w s i h = bit-mod_pow (bits w) s i ∙ ground arith

pub some_turns : (n : ℕ) → (suc n == 0) ≡ false
some_turns n = ground arith

-- No turn is needed where the code returns early.
pub early :
    (w : Width) (step : Shifting → Shifting) (n overflow : ℕ) (x : Shifting) (f : Flags)
    → let given : Shifted =
        if n == 0
        then record { result = cast w (x.s); flags = f }
        else rotated w n overflow (turns step n x) f in
      given.result ≡ cast w ((turns step n x).s)
unfolding turns rotated
early w step zero overflow x f = refl
early w step (suc n) overflow x f = rw some_turns refl

around_down :
    (w : Width) (i cnt : ℕ)
    → i < bits w
    → (i + cnt % bits w * (bits w - 1)) % bits w ≡ (i + bits w - cnt % bits w) % bits w
around_down byte i cnt h = omega arith
around_down word i cnt h = omega arith
around_down dword i cnt h = omega arith

around_up :
    (w : Width) (i cnt : ℕ) → i < bits w → (i + cnt % bits w * 1) % bits w ≡ (i + cnt) % bits w
around_up byte i cnt h = omega arith
around_up word i cnt h = omega arith
around_up dword i cnt h = omega arith

unfoldable pub start : ℕ → Flags → Shifting
start oper f = record { s = oper; carry = f.cf }

-- ROL by a count below 32 puts bit `i - cnt` of the operand, counted around the width, at place `i`.
pub grp2_rol_lem :
    (w : Width) (oper cnt : ℕ) (f : Flags) (i : ℕ)
    → cnt < 32
    → i < bits w
    → bit ((grp2_rol w oper cnt f).result) i ≡ bit oper ((i + bits w - cnt % bits w) % bits w)
unfolding grp2_rol start
grp2_rol_lem w oper cnt f i p h =
    let n : ℕ = rotate_count w cnt in
    let x : Shifting = turns (rol_step w) n (start oper f) in
    ap (λ (m : ℕ). bit m i) (early w (rol_step w) n (left_overflow w x) (start oper f) f)
    ∙ bit-cast w (x.s) i h
    ∙ rol_turns w n (start oper f) i h
    ∙ ap (λ (m : ℕ). bit oper ((i + m * (bits w - 1)) % bits w)) (rotate_count_lem w cnt p)
    ∙ ap (bit oper) (around_down w i cnt h)

-- ROR of an operand within the width by a count below 32 puts bit `i + cnt` of the operand, counted around the width, at place `i`.
pub grp2_ror_lem :
    (w : Width) (oper cnt : ℕ) (f : Flags) (i : ℕ)
    → oper < 2 ^ bits w
    → cnt < 32
    → i < bits w
    → bit ((grp2_ror w oper cnt f).result) i ≡ bit oper ((i + cnt) % bits w)
unfolding grp2_ror start Narrow
grp2_ror_lem w oper cnt f i q p h =
    let n : ℕ = rotate_count w cnt in
    let x : Shifting = turns (ror_step w) n (start oper f) in
    ap (λ (m : ℕ). bit m i) (early w (ror_step w) n (right_overflow w x) (start oper f) f)
    ∙ bit-cast w (x.s) i h
    ∙ ror_turns w n (start oper f) i q h
    ∙ ap (λ (m : ℕ). bit oper ((i + m * 1) % bits w)) (rotate_count_lem w cnt p)
    ∙ ap (bit oper) (around_up w i cnt h)

around_back :
    (w : Width) (i cnt : ℕ) → i < bits w → ((i + cnt) % bits w + bits w - cnt % bits w) % bits w ≡ i
around_back byte i cnt h = omega arith
around_back word i cnt h = omega arith
around_back dword i cnt h = omega arith

rol-lt : (w : Width) (oper cnt : ℕ) (f : Flags) → (grp2_rol w oper cnt f).result < 2 ^ bits w
unfolding grp2_rol start
rol-lt w oper cnt f =
    let n : ℕ = rotate_count w cnt in
    let x : Shifting = turns (rol_step w) n (start oper f) in
    subst (λ (m : ℕ). m < 2 ^ bits w)
      (sym (early w (rol_step w) n (left_overflow w x) (start oper f) f)) (cast-lt w (x.s))

ror-lt : (w : Width) (oper cnt : ℕ) (f : Flags) → (grp2_ror w oper cnt f).result < 2 ^ bits w
unfolding grp2_ror start
ror-lt w oper cnt f =
    let n : ℕ = rotate_count w cnt in
    let x : Shifting = turns (ror_step w) n (start oper f) in
    subst (λ (m : ℕ). m < 2 ^ bits w)
      (sym (early w (ror_step w) n (right_overflow w x) (start oper f) f)) (cast-lt w (x.s))

around-lt : (w : Width) (i : ℕ) → i % bits w < bits w
around-lt w i = mod-lt i (positive w)

-- A rotation to the right undoes one to the left, whatever the flags are before each.
pub ror-rol :
    (w : Width) (oper cnt : ℕ) (f g : Flags)
    → oper < 2 ^ bits w
    → cnt < 32
    → (grp2_ror w ((grp2_rol w oper cnt f).result) cnt g).result ≡ oper
ror-rol w oper cnt f g q p =
    let m : ℕ = (grp2_rol w oper cnt f).result in
    eq_of_bits (bits w) _ oper (ror-lt w m cnt g) q (λ i h.
      grp2_ror_lem w m cnt g i (rol-lt w oper cnt f) p h
      ∙ grp2_rol_lem w oper cnt f ((i + cnt) % bits w) p (around-lt w (i + cnt))
      ∙ ap (bit oper) (around_back w i cnt h))

pub count_fits : (cnt : ℕ) → bit_and cnt 0x1F < 32
count_fits cnt = subst (λ (m : ℕ). m < 32) (sym (bit_and_mask 5 cnt)) (mod-lt cnt (omega arith))

-- On an operand within the width, rotating right (`reg` 1) by any count undoes rotating left (`reg` 0) by the same count.
pub op_grp2-rotations :
    (w : Width) (oper cnt : ℕ) (f g : Flags)
    → oper < 2 ^ bits w
    → (op_grp2 w 1 ((op_grp2 w 0 oper cnt f).result) cnt g).result ≡ oper
unfolding op_grp2
op_grp2-rotations w oper cnt f g h = elim (Bool-cases (bit_and cnt 0x1F == 0)) [
  | inl e ↦ rw e (mod-mod oper (2 ^ bits w) ∙ mod-eq_of_lt h)
  | inr e ↦ rw e (ror-rol w oper (bit_and cnt 0x1F) f g h (count_fits cnt))
]
