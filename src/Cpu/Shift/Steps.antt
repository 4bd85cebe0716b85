-- ===== src/Cpu/Shift/Steps.antt =====
-- One turn of each loop of src/cpu/cpu.c: the bits of the number and the carry flag.
use native.Mathlib.Nat.{
  mod-add-mod, mod-lt, one-mul, suc-mul, add-zero, zero-mul, add-mod_right, mod-eq_of_lt, mod_self,
  zero-add,
}
use pculator.Base.{
  bit-double, ℕ, zero, suc, ◌+◌, ◌-◌, ◌*◌, ◌%◌, ◌^◌, ◌<◌, ◌≡◌, refl, sym, ap, ◌∙◌, Bool, true,
  false, ◌&&◌, ◌==◌, ltb, if◌then◌else◌, arith, bit, bit_and, bit_or, has, bit-bit_or, bit_div,
  has-pow, bit-pow, bit-zero, bit-mod_pow, ◌>>>◌, ◌<<<◌, inl, inr, Bool-cases, bit_and-pow,
}
use pculator.Cpu.Flags.{Width, byte, word, dword, bits, flag, sign, double_width}
use pculator.Cpu.Shift.{Shifting, turns}

bit-flag : (b : Bool) (i : ℕ) → bit (flag b) i ≡ (b && (i == 0))
bit-flag true i = bit-pow 0 i
bit-flag false i = bit-zero i

-- One place down, around a register of `m` bits.
before : (m i : ℕ) → 0 < i → i < m → (i + (m - 1)) % m ≡ i - 1
before m i p q = ap (λ (n : ℕ). n % m) same ∙ add-mod_right (i - 1) m ∙ mod-eq_of_lt (omega arith)
  where
    same : i + (m - 1) ≡ i - 1 + m
    same = omega arith

-- One place up.
after : (m i : ℕ) → i < m → (i + 1) % m ≡ (if i == m - 1 then 0 else i + 1)
after m i q = elim (Bool-cases (i == m - 1)) [
  | inl e ↦ rw e (ap (λ (n : ℕ). n % m) (last e) ∙ mod_self m)
  | inr e ↦ rw e (mod-eq_of_lt (ground arith))
]
  where
    last : (i == m - 1) ≡ true → i + 1 ≡ m
    last e = ground arith

-- A number whose bits a turn moves by `d` places has them moved by `n * d` after `n` turns.
pub turns_move :
    (step : Shifting → Shifting) (view : Shifting → ℕ → Bool) (Fits : Shifting → Type 0) (m d : ℕ)
    → 0 < m
    → ((x : Shifting) → Fits x → Fits (step x))
    → ((x : Shifting) (i : ℕ) → Fits x → i < m → view (step x) i ≡ view x ((i + d) % m))
    → (n : ℕ) (x : Shifting) (i : ℕ) → Fits x
    → i < m
    → view (turns step n x) i ≡ view x ((i + n * d) % m)
unfolding turns
turns_move step view Fits m d pos keep move zero x i ok h =
    ap (view x) (sym (ap (λ (k : ℕ). k % m) (rw zero-mul (add-zero i)) ∙ mod-eq_of_lt h))
turns_move step view Fits m d pos keep move (suc n) x i ok h =
    turns_move step view Fits m d pos keep move n (step x) i (keep x ok) h
    ∙ move x ((i + n * d) % m) ok (mod-lt (i + n * d) pos)
    ∙ ap (view x) (mod-add-mod (i + n * d) m d ∙ ap (λ (k : ℕ). k % m) (rw suc-mul (omega arith)))

within : (w : Width) (i : ℕ) → i < bits w → ltb i (2 * bits w) ≡ true
within byte i h = ground arith
within word i h = ground arith
within dword i h = ground arith

-- A turn to the left with `b` coming in.
pub left_bits :
    (w : Width) (s i : ℕ) (b : Bool)
    → i < bits w
    → bit (bit_or ((s <<< 1) % double_width w) (flag b)) i ≡ (if i == 0 then b else bit s (i - 1))
left_bits w s i b h = ground (
  arith,
  bit-bit_or ((s <<< 1) % double_width w) (flag b) i,
  bit-mod_pow (2 * bits w) (s * 2) i,
  within w i h,
  bit-double s i,
  bit-flag b i,
)

-- A shift by the width less one.
raised : (w : Width) (b : Bool) (i : ℕ) → bit (flag b <<< (bits w - 1)) i ≡ (b && (i == bits w - 1))
raised w true i = ap (λ (n : ℕ). bit n i) (one-mul (2 ^ (bits w - 1))) ∙ bit-pow (bits w - 1) i
raised w false i = ap (λ (n : ℕ). bit n i) (zero-mul (2 ^ (bits w - 1))) ∙ bit-zero i

above : (w : Width) (s : ℕ) → s < 2 ^ bits w → bit s (bits w) ≡ false
above byte s h = ground (arith, bit_div s 8)
above word s h = ground (arith, bit_div s 16)
above dword s h = ground (arith, bit_div s 32)

bit-half : (s i : ℕ) → bit (s >>> 1) i ≡ bit s (suc i)
unfolding bit
bit-half s i = refl

-- A turn to the right with `b` coming in.
pub right_bits :
    (w : Width) (s i : ℕ) (b : Bool)
    → s < 2 ^ bits w
    → i < bits w
    → bit (bit_or (s >>> 1) (flag b <<< (bits w - 1))) i
      ≡ (if i == bits w - 1 then b else bit s (i + 1))
right_bits w s i b p h = elim (Bool-cases (i == bits w - 1)) [
  | inl e ↦ ground (
    arith,
    bit-bit_or (s >>> 1) (flag b <<< (bits w - 1)) i,
    bit-half s i,
    raised w b i,
    ap (bit s) (next e),
    above w s p,
  )
  | inr e ↦ ground (
    arith,
    bit-bit_or (s >>> 1) (flag b <<< (bits w - 1)) i,
    bit-half s i,
    raised w b i,
    ap (bit s) plus,
  )
]
  where
    next : (i == bits w - 1) ≡ true → suc i ≡ bits w
    next e = ground arith

    plus : suc i ≡ i + 1
    plus = omega arith

pub sign-bit : (w : Width) (s : ℕ) → has s (sign w) ≡ bit s (bits w - 1)
sign-bit w s = has-pow s (bits w - 1)

pub low_bit : (s : ℕ) → bit_and s 1 ≡ flag (bit s 0)
low_bit s = bit_and-pow s 0

-- Around a register, a place below and a place above.
pub around_left :
    (m : ℕ) (view : ℕ → Bool) (i : ℕ)
    → i < m
    → (if i == 0 then view (m - 1) else view (i - 1)) ≡ view ((i + (m - 1)) % m)
around_left m view zero h = sym (ap view (mod-eq_of_lt (omega arith)) ∙ ap view (zero-add (m - 1)))
around_left m view (suc i) h = ground (arith, ap view (before m (suc i) (omega arith) h))

pub around_right :
    (m : ℕ) (view : ℕ → Bool) (i : ℕ)
    → i < m
    → (if i == m - 1 then view 0 else view (i + 1)) ≡ view ((i + 1) % m)
around_right m view i h = elim (Bool-cases (i == m - 1)) [
  | inl e ↦ rw e (sym (ap view (after m i h) ∙ rw e refl))
  | inr e ↦ rw e (sym (ap view (after m i h) ∙ rw e refl))
]
