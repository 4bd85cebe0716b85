-- ===== src/Cpu/Segment/Registers/Iret.antt =====
-- `cpu_restore_iret_flags` of src/cpu/cpuhelper.h: what an `iret` may change of the flags.
use pculator.Base.{
  ℕ, suc, ◌+◌, ◌-◌, ◌^◌, ◌≡◌, ◌≤◌, ◌<◌, refl, ap, ◌∙◌, Bool, false, not, ◌&&◌, ◌||◌, ◌==◌, leb,
  if◌then◌else◌, bit_or, arith, bit, ◌<<<◌, not32, bit-bit_or, bit-bit_and, bit-complement,
  bit-shift_left, zero, bit-zero, bit-one_shift, ◌%◌, bit-mod_pow,
}
use pculator.Cpu.Segment.{Eflags}
use pculator.Cpu.Segment.Registers.{makeflagsword, merge}

-- The fields hold what their widths allow.
pub record IsFlags (x : Eflags) : Type 0 where
  pub cf : x.cf ≤ 1
  pub pf : x.pf ≤ 1
  pub af : x.af ≤ 1
  pub zf : x.zf ≤ 1
  pub sf : x.sf ≤ 1
  pub tf : x.tf ≤ 1
  pub ifl : x.ifl ≤ 1
  pub df : x.df ≤ 1
  pub of : x.of ≤ 1
  pub iopl : x.iopl < 4
  pub nt : x.nt ≤ 1
  pub rf : x.rf ≤ 1
  pub v86f : x.v86f ≤ 1
  pub acf : x.acf ≤ 1
  pub idf : x.idf ≤ 1

-- A field of one bit, at its place in the word.
placed : (f k i : ℕ) → f ≤ 1 → bit (f <<< k) i ≡ ((i == k) && (f == 1))
placed zero k i h = ap (λ (n : ℕ). bit n i) (omega arith) ∙ bit-zero i ∙ ground arith
placed (suc zero) k i h = bit-one_shift k i ∙ ground arith
placed (suc (suc f)) k i h = absurd (omega arith)

or_bit : {p q : Bool} (a b i : ℕ) → bit a i ≡ p → bit b i ≡ q → bit (bit_or a b) i ≡ (p || q)
or_bit a b i e f = bit-bit_or a b i ∙ rw (e, f) refl

-- A field in the word at bit `i`, where its place is `k`.
abbrev at : (i k f : ℕ) → Bool
at i k f = (i == k) && (f == 1)

-- A bit of the word, of the bits of the fields.
pub bit-makeflagsword :
    (x : Eflags) (i : ℕ)
    → IsFlags x
    → bit (makeflagsword x) i ≡ (
        (((((((((((((((bit 2 i || at i 0 x.cf) || at i 2 x.pf) || at i 4 x.af) || at i 6 x.zf)
                              || at i 7 x.sf)
                            || at i 8 x.tf)
                          || at i 9 x.ifl)
                        || at i 10 x.df)
                      || at i 11 x.of)
                    || (leb 12 i && bit x.iopl (i - 12)))
                  || at i 14 x.nt)
                || at i 16 x.rf)
              || at i 17 x.v86f)
            || at i 18 x.acf)
          || at i 11 x.of)
        || at i 21 x.idf)
unfolding makeflagsword
bit-makeflagsword x i h =
    or_bit _ _ i
      (or_bit _ _ i
        (or_bit _ _ i
          (or_bit _ _ i
            (or_bit _ _ i
              (or_bit _ _ i
                (or_bit _ _ i
                  (or_bit _ _ i
                    (or_bit _ _ i
                      (or_bit _ _ i
                        (or_bit _ _ i
                          (or_bit _ _ i
                            (or_bit _ _ i
                              (or_bit _ _ i
                                (or_bit _ _ i
                                  (or_bit _ _ i refl
                                    (ap (λ (n : ℕ). bit n i) (omega arith) ∙ placed x.cf 0 i h.cf))
                                  (placed x.pf 2 i h.pf))
                                (placed x.af 4 i h.af))
                              (placed x.zf 6 i h.zf))
                            (placed x.sf 7 i h.sf))
                          (placed x.tf 8 i h.tf))
                        (placed x.ifl 9 i h.ifl))
                      (placed x.df 10 i h.df))
                    (placed x.of 11 i h.of))
                  (bit-shift_left x.iopl 12 i))
                (placed x.nt 14 i h.nt))
              (placed x.rf 16 i h.rf))
            (placed x.v86f 17 i h.v86f))
          (placed x.acf 18 i h.acf))
        (placed x.of 11 i h.of))
      (placed x.idf 21 i h.idf)

bit_of_iopl : (x i : ℕ) → x < 4 → 2 ≤ i → bit x i ≡ false
bit_of_iopl x i h small =
    ap (λ (n : ℕ). bit n i) (omega arith) ∙ bit-mod_pow 2 x i ∙ ground (arith, small)

pub v86f-makeflagsword : (x : Eflags) → IsFlags x → bit (makeflagsword x) 17 ≡ (x.v86f == 1)
unfolding bit
v86f-makeflagsword x h =
    bit-makeflagsword x 17 h ∙ ground (arith, bit_of_iopl x.iopl 5 h.iopl (omega arith))

pub rf-makeflagsword : (x : Eflags) → IsFlags x → bit (makeflagsword x) 16 ≡ (x.rf == 1)
unfolding bit
rf-makeflagsword x h =
    bit-makeflagsword x 16 h ∙ ground (arith, bit_of_iopl x.iopl 4 h.iopl (omega arith))

pub ifl-makeflagsword : (x : Eflags) → IsFlags x → bit (makeflagsword x) 9 ≡ (x.ifl == 1)
unfolding bit
ifl-makeflagsword x h = bit-makeflagsword x 9 h ∙ ground arith

pub iopl-makeflagsword :
    (x : Eflags) (i : ℕ) → IsFlags x → i < 2 → bit (makeflagsword x) (12 + i) ≡ bit x.iopl i
unfolding bit
iopl-makeflagsword x zero h small = bit-makeflagsword x 12 h ∙ ground arith
iopl-makeflagsword x (suc zero) h small = bit-makeflagsword x 13 h ∙ ground arith
iopl-makeflagsword x (suc (suc i)) h small = absurd (omega arith)

pub bit-merge :
    (mask old new i : ℕ)
    → mask < 2 ^ 32
    → i < 32
    → bit (merge mask old new) i ≡ (if bit mask i then bit new i else bit old i)
unfolding merge
bit-merge mask old new i m h =
    or_bit _ _ i (bit-bit_and old (not32 mask) i ∙ ap (λ b. bit old i && b) inverse)
      (bit-bit_and new mask i)
    ∙ ground arith
  where
    same : mask % 4294967296 ≡ mask
    same = omega arith

    inverse : bit (not32 mask) i ≡ not (bit mask i)
    inverse =
        ap (λ (n : ℕ). bit (4294967295 - n) i) same ∙ bit-complement 32 mask i m ∙ ground (arith, h)
