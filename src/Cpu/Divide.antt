-- ===== src/Cpu/Divide.antt =====
-- op_div8, op_div16 and op_div32 of src/cpu/cpu.c, and the unsigned multiplication and the negation
-- of op_grp3_8, op_grp3_16 and op_grp3_32.
use native.Mathlib.Nat.{
  mul_comm, mod-lt, mod-eq_of_lt, div-lt_iff_lt-mul, le-div_iff_mul-le, div-add-mod, lt_trans,
  mul-lt-mul_of_pos_left, mul-lt-mul_of_pos_right, mul-div_right, mul-mod_right,
}
use pculator.Base.{
  ℕ, ◌+◌, ◌-◌, ◌*◌, ◌/◌, ◌%◌, ◌^◌, ◌<◌, ◌≤◌, ◌≡◌, refl, ap, ◌∙◌, subst, true, false, ◌==◌, ◌!=◌,
  ltb, leb, if◌then◌else◌, inl, inr, Option, none, some, arith, Bool-cases,
}
use pculator.Cpu.Flags.Spec.{Describes, SubFlags}
use pculator.Cpu.Flags.Subtract.{flag_sub_lem}
use pculator.Cpu.Flags.{Width, byte, word, dword, bits, Flags, flag, cast, flag_sub}

-- AH and AL, DX and AX, or EDX and EAX: the remainder and the quotient, or the two halves of a
-- product.
pub record Halves : Type 0 where
  pub high : ℕ
  pub low : ℕ

-- `none` is the divide error, `exception(cpu, 0, 0)`, after which the registers are as before.
unfoldable pub op_div : Width → ℕ → ℕ → Option Halves
op_div w valdiv divisor =
    if divisor == 0
    then none
    else if ltb (2 ^ bits w - 1) (valdiv / divisor)
    then none
    else some (record { high = cast w (valdiv % divisor); low = cast w (valdiv / divisor) })

-- MUL: the product in two registers, and whether the upper one is needed.
pub record Product : Type 0 where
  pub halves : Halves
  pub flags : Flags

unfoldable pub op_mul : Width → ℕ → ℕ → Flags → Product
op_mul w oper accumulator f =
    let product = oper * accumulator in
    let high = cast w (product / 2 ^ bits w) in
    record {
      halves = record { high = high; low = cast w product };
      flags = record f { cf = flag (high != 0); of = flag (high != 0) };
    }

-- NEG.
pub record Negated : Type 0 where
  pub res : ℕ
  pub flags : Flags

unfoldable pub op_neg : Width → ℕ → Flags → Negated
op_neg w oper f =
    let res = cast w (2 ^ bits w - 1 - oper + 1) in
    record { res = res; flags = record (flag_sub w 0 oper f) { cf = flag (res != 0) } }

-- A quotient below `b` and the divisor change places.
quotient_swap : (n a b : ℕ) → 0 < a → 0 < b → n / a < b → n / b < a
quotient_swap n a b p q h =
    (div-lt_iff_lt-mul q).1 (subst (λ (m : ℕ). n < m) (mul_comm b a) ((div-lt_iff_lt-mul p).0 h))

quotient_swap_le : (n a b : ℕ) → 0 < a → 0 < b → b ≤ n / a → a ≤ n / b
quotient_swap_le n a b p q h =
    (le-div_iff_mul-le q).1 (subst (λ (m : ℕ). m ≤ n) (mul_comm b a) ((le-div_iff_mul-le p).0 h))

full : (w : Width) → 0 < 2 ^ bits w
full byte = omega arith
full word = omega arith
full dword = omega arith

nonzero : (d : ℕ) → (d == 0) ≡ false → 0 < d
nonzero d e = ground arith

none_below : (d : ℕ) → (d == 0) ≡ true → (m : ℕ) → d ≤ m
none_below d e m = ground arith

overflowed : (w : Width) (q : ℕ) → ltb (2 ^ bits w - 1) q ≡ true → 2 ^ bits w ≤ q
overflowed w q e = ground (arith, full w)

contained : (w : Width) (q : ℕ) → ltb (2 ^ bits w - 1) q ≡ false → q < 2 ^ bits w
contained w q e = ground (arith, full w)

-- What a division must give: an error exactly if the divisor is not above the upper half of the
-- dividend, as the quotient then has no room; else quotient and remainder of the dividend.
unfoldable pub Divides : Width → ℕ → ℕ → Option Halves → Type 0
Divides w valdiv divisor none = divisor ≤ valdiv / 2 ^ bits w
Divides w valdiv divisor (some x) =
    (valdiv / 2 ^ bits w < divisor)
    × (x.low * divisor + x.high ≡ valdiv)
    × (x.high < divisor)
    × (x.low < 2 ^ bits w)

-- For a divisor within the width, a division ends in the divide error exactly if the divisor is not
-- above the upper half of the dividend; else it gives the quotient, within the width, and a
-- remainder below the divisor.
pub op_div_lem :
    (w : Width) (valdiv divisor : ℕ)
    → divisor < 2 ^ bits w
    → Divides w valdiv divisor (op_div w valdiv divisor)
unfolding op_div Divides
op_div_lem w n d h = elim (Bool-cases (d == 0)) [
  | inl e ↦ rw e (none_below d e (n / 2 ^ bits w))
  | inr e ↦ rw e (
      let pos : 0 < d = nonzero d e in
      elim (Bool-cases (ltb (2 ^ bits w - 1) (n / d))) [
        | inl g ↦ rw g (quotient_swap_le n d (2 ^ bits w) pos (full w) (overflowed w (n / d) g))
        | inr g ↦ rw g (
            let small : n / d < 2 ^ bits w = contained w (n / d) g in
            let left : n % d < d = mod-lt n pos in
            (
              quotient_swap n d (2 ^ bits w) pos (full w) small,
              rw (mod-eq_of_lt small, mod-eq_of_lt (lt_trans left h))
                  (ap (λ (m : ℕ). m + n % d) (mul_comm (n / d) d) ∙ div-add-mod n d),
              rw (mod-eq_of_lt (lt_trans left h)) left,
              rw (mod-eq_of_lt small) small,
            ))
      ])
]

negated :
    (w : Width) (v : ℕ)
    → v < 2 ^ bits w
    → cast w (2 ^ bits w - 1 - v + 1) ≡ cast w (0 + 2 ^ bits w - v - 0)
negated byte v h = omega arith
negated word v h = omega arith
negated dword v h = omega arith

negated_borrow :
    (w : Width) (v : ℕ)
    → v < 2 ^ bits w
    → flag (cast w (2 ^ bits w - 1 - v + 1) != 0) ≡ flag (ltb 0 (v + 0))
negated_borrow byte v h = ground arith
negated_borrow word v h = ground arith
negated_borrow dword v h = ground arith

-- NEG of an operand within the width is the subtraction from 0, at each width: the result, and every flag, the carry flag that the
-- code sets by hand among them.
pub op_neg_lem :
    (w : Width) (oper : ℕ) (f : Flags)
    → oper < 2 ^ bits w
    → ((op_neg w oper f).res ≡ cast w (0 + 2 ^ bits w - oper - 0))
      × SubFlags w 0 oper 0 ((op_neg w oper f).flags)
unfolding op_neg
op_neg_lem w oper f h =
    let x : SubFlags w 0 oper 0 (flag_sub w 0 oper f) = flag_sub_lem w 0 oper f (full w) h in
    let d : Describes w (cast w (0 + 2 ^ bits w - oper - 0)) (flag_sub w 0 oper f) = x.describes in
    (
      negated w oper h,
      record {
        describes = record {
          zero_flag = d.zero_flag;
          sign_flag = d.sign_flag;
          parity_flag = d.parity_flag;
        };
        borrow = negated_borrow w oper h;
        adjust = x.adjust;
        overflow = x.overflow;
      },
    )

product_lt :
    (w : Width) (a b : ℕ)
    → a < 2 ^ bits w
    → b < 2 ^ bits w
    → 0 < a
    → a * b / 2 ^ bits w < 2 ^ bits w
product_lt w a b p q r =
    (div-lt_iff_lt-mul (full w)).1
      (lt_trans (mul-lt-mul_of_pos_left q r) (mul-lt-mul_of_pos_right p (full w)))

upper_used : (w : Width) (n : ℕ) → flag (n / 2 ^ bits w != 0) ≡ flag (leb (2 ^ bits w) n)
upper_used byte n = ground arith
upper_used word n = ground arith
upper_used dword n = ground arith

exact_quotient :
    (w : Width) (a q r : ℕ)
    → 0 < a
    → q < 2 ^ bits w
    → r ≡ 0
    → let given : Option Halves =
        if a == 0
        then none
        else if ltb (2 ^ bits w - 1) q
        then none
        else some (record { high = cast w r; low = cast w q }) in
      given ≡ some (record { high = 0; low = q })
exact_quotient byte a q r p h e = ground arith
exact_quotient word a q r p h e = ground arith
exact_quotient dword a q r p h e = ground arith

-- For factors within the width, the first not 0: MUL puts the product into two registers and sets carry and overflow exactly if the lower one cannot
-- hold it; and dividing these registers by the first factor gives the second one and no remainder.
pub op_mul-op_div :
    (w : Width) (a b : ℕ) (f : Flags)
    → a < 2 ^ bits w
    → b < 2 ^ bits w
    → 0 < a
    → let x : Halves = (op_mul w a b f).halves in
      let g : Flags = (op_mul w a b f).flags in
      (x.high * 2 ^ bits w + x.low ≡ a * b)
      × (g.cf ≡ flag (leb (2 ^ bits w) (a * b)))
      × (g.of ≡ g.cf)
      × (op_div w (x.high * 2 ^ bits w + x.low) a ≡ some (record { high = 0; low = b }))
unfolding op_mul op_div
op_mul-op_div w a b f p q r =
    let high : cast w (a * b / 2 ^ bits w) ≡ a * b / 2 ^ bits w =
      mod-eq_of_lt (product_lt w a b p q r) in
    let whole : cast w (a * b / 2 ^ bits w) * 2 ^ bits w + cast w (a * b) ≡ a * b =
      ap (λ (m : ℕ). m * 2 ^ bits w + cast w (a * b)) high
      ∙ ap (λ (m : ℕ). m + a * b % 2 ^ bits w) (mul_comm (a * b / 2 ^ bits w) (2 ^ bits w))
      ∙ div-add-mod (a * b) (2 ^ bits w) in
    (
      whole,
      ap (λ (m : ℕ). flag (m != 0)) high ∙ upper_used w (a * b),
      refl,
      rw (whole, mul-div_right b r) (exact_quotient w a b (a * b % a) r q (mul-mod_right a b)),
    )
