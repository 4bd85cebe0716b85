-- ===== src/Cpu/Shift/Plain.antt =====
-- SHL and SHR of src/cpu/cpu.c, as a product and a quotient.
use native.Mathlib.Nat.{
  mod-mod, mod-eq_of_lt, mul-one, div-one, pow-suc, mul_assoc, div-div-eq-div-mul, div-le_self,
  lt_of_le_of_lt,
}
use pculator.Base.{
  ℕ, zero, suc, ◌-◌, ◌*◌, ◌/◌, ◌%◌, ◌^◌, ◌<◌, ◌≡◌, refl, sym, ap, ◌∙◌, false, ◌==◌, arith, bit,
  bit_and_mask, bit-mod_pow, bit-shift,
}
use pculator.Cpu.Flags.{Width, byte, word, dword, bits, Flags, flag, cast, flag_szp}
use pculator.Cpu.Flags.Spec.{cast-lt, szp, Describes}
use pculator.Cpu.Shift.{Shifting, shl_step, shr_step, turns, Shifted, grp2_shl, grp2_shr, op_grp2}
use pculator.Cpu.Shift.Rotate.{start, positive}
use pculator.Cpu.Shift.Steps.{sign-bit, low_bit}

turns_last :
    (step : Shifting → Shifting) (n : ℕ) (x : Shifting)
    → turns step (suc n) x ≡ step (turns step n x)
unfolding turns
turns_last step zero x = refl
turns_last step (suc n) x = turns_last step n (step x)

doubled : (w : Width) (n : ℕ) → n % 2 ^ bits w * 2 % 2 ^ bits w ≡ n * 2 % 2 ^ bits w
doubled byte n = omega arith
doubled word n = omega arith
doubled dword n = omega arith

shl_turns :
    (w : Width) (n : ℕ) (x : Shifting)
    → x.s < 2 ^ bits w
    → (turns (shl_step w) n x).s ≡ x.s * 2 ^ n % 2 ^ bits w
unfolding turns shl_step
shl_turns w zero x h = sym (ap (λ (m : ℕ). m % 2 ^ bits w) (mul-one (x.s)) ∙ mod-eq_of_lt h)
shl_turns w (suc n) x h =
    ap (λ (y : Shifting). y.s) (turns_last (shl_step w) n x)
    ∙ bit_and_mask (bits w) ((turns (shl_step w) n x).s * 2)
    ∙ ap (λ (m : ℕ). m * 2 % 2 ^ bits w) (shl_turns w n x h)
    ∙ doubled w (x.s * 2 ^ n)
    ∙ ap (λ (m : ℕ). m % 2 ^ bits w)
        (mul_assoc (x.s) (2 ^ n) 2 ∙ ap (λ (m : ℕ). x.s * m) (sym (pow-suc 2 n)))

shr_turns : (w : Width) (n : ℕ) (x : Shifting) → (turns (shr_step w) n x).s ≡ x.s / 2 ^ n
unfolding turns shr_step
shr_turns w zero x = sym (div-one (x.s))
shr_turns w (suc n) x =
    ap (λ (y : Shifting). y.s) (turns_last (shr_step w) n x)
    ∙ ap (λ (m : ℕ). m / 2) (shr_turns w n x)
    ∙ div-div-eq-div-mul (x.s) (2 ^ n) 2
    ∙ ap (λ (m : ℕ). x.s / m) (sym (pow-suc 2 n))

-- The bit that the last turn drops.
shl_carry :
    (w : Width) (n : ℕ) (x : Shifting)
    → x.s < 2 ^ bits w
    → (turns (shl_step w) (suc n) x).carry ≡ flag (bit (x.s * 2 ^ n) (bits w - 1))
unfolding shl_step
shl_carry w n x h =
    ap (λ (y : Shifting). y.carry) (turns_last (shl_step w) n x)
    ∙ ap flag (
        sign-bit w ((turns (shl_step w) n x).s)
        ∙ ap (λ (m : ℕ). bit m (bits w - 1)) (shl_turns w n x h)
        ∙ bit-mod_pow (bits w) (x.s * 2 ^ n) (bits w - 1)
        ∙ ground (arith, positive w))

shr_carry :
    (w : Width) (n : ℕ) (x : Shifting) → (turns (shr_step w) (suc n) x).carry ≡ flag (bit (x.s) n)
unfolding shr_step
shr_carry w n x =
    ap (λ (y : Shifting). y.carry) (turns_last (shr_step w) n x)
    ∙ low_bit ((turns (shr_step w) n x).s)
    ∙ ap flag (ap (λ (m : ℕ). bit m 0) (shr_turns w n x) ∙ bit-shift (x.s) n)

some_count : (n : ℕ) → (suc n == 0) ≡ false
some_count n = ground arith

-- SHL (`reg` 4) of an operand within the width by a count that is `n + 1` modulo 32 multiplies by 2 ^ (n + 1) within the width; the
-- carry flag is the last bit to leave the width, and the other flags describe the result.
pub op_grp2-shl :
    (w : Width) (oper cnt n : ℕ) (f : Flags)
    → oper < 2 ^ bits w
    → cnt % 32 ≡ suc n
    → let y : Shifted = op_grp2 w 4 oper cnt f in
      (y.result ≡ oper * 2 ^ suc n % 2 ^ bits w)
      × (y.flags.cf ≡ flag (bit (oper * 2 ^ n) (bits w - 1)))
      × Describes w (y.result) (y.flags)
unfolding op_grp2 grp2_shl start
op_grp2-shl w oper cnt n f h e =
    rw (bit_and_mask 5 cnt, e, some_count n)
      (let x : Shifting = turns (shl_step w) (suc n) (start oper f) in
        let z : Describes w (cast w (x.s)) (flag_szp w (cast w (x.s)) f) =
          szp w (cast w (x.s)) f (cast-lt w (x.s)) in
        (
          ap (cast w) (shl_turns w (suc n) (start oper f) h)
              ∙ mod-mod (oper * 2 ^ suc n) (2 ^ bits w),
          shl_carry w n (start oper f) h,
          record { zero_flag = z.zero_flag; sign_flag = z.sign_flag; parity_flag = z.parity_flag },
        ))

quotient_fits : (w : Width) (n m : ℕ) → n < 2 ^ bits w → n / m < 2 ^ bits w
quotient_fits w n m h = lt_of_le_of_lt (div-le_self n m) h

-- SHR (`reg` 5) of an operand within the width by a count that is `n + 1` modulo 32 divides by 2 ^ (n + 1); the carry flag is the last
-- bit dropped, and the other flags describe the result.
pub op_grp2-shr :
    (w : Width) (oper cnt n : ℕ) (f : Flags)
    → oper < 2 ^ bits w
    → cnt % 32 ≡ suc n
    → let y : Shifted = op_grp2 w 5 oper cnt f in
      (y.result ≡ oper / 2 ^ suc n)
      × (y.flags.cf ≡ flag (bit oper n))
      × Describes w (y.result) (y.flags)
unfolding op_grp2 grp2_shr start
op_grp2-shr w oper cnt n f h e =
    rw (bit_and_mask 5 cnt, e, some_count n)
      (let x : Shifting = turns (shr_step w) (suc n) (start oper f) in
        let z : Describes w (cast w (x.s)) (flag_szp w (cast w (x.s)) f) =
          szp w (cast w (x.s)) f (cast-lt w (x.s)) in
        (
          ap (cast w) (shr_turns w (suc n) (start oper f))
              ∙ mod-eq_of_lt (quotient_fits w oper (2 ^ suc n) h),
          shr_carry w n (start oper f),
          record { zero_flag = z.zero_flag; sign_flag = z.sign_flag; parity_flag = z.parity_flag },
        ))
