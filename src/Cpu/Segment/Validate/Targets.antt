-- ===== src/Cpu/Segment/Validate/Targets.antt =====
-- The targets of calls, of src/cpu/cpuhelper.h: through a gate, and direct.
use pculator.Base.{
  ℕ, ◌≡◌, ◌≤◌, refl, ◌⊎◌, inl, inr, true, false, ◌||◌, some, ◌!=◌, ltb, if◌then◌else◌, Bool-cases,
  bit_and, arith,
}
use pculator.Cpu.Segment.{
  Bus, Processor, SegDesc, desc_is_present, desc_is_code, desc_is_conforming_code, read_segdesc,
  normalize_selector,
}
use pculator.Cpu.Segment.Validate.{
  CodeTarget, validate_gate_target_code, validate_direct_call_target, gate_target, direct_target,
}
use pculator.Cpu.Segment.Validate.Verdicts.{
  Sound, Settled, IsProtection, settle-Settled, checked-Sound, code-Sound,
}

-- A descriptor that a gate may lead to.
pub record MayEnter (cpl selector : ℕ) (d : SegDesc) (target : CodeTarget) : Type 0 where
  pub code : desc_is_code d ≡ true
  pub present : desc_is_present d ≡ true
  pub inward : target.target_cpl ≤ cpl
  pub privilege : d.dpl ≤ target.target_cpl
  pub level : target.target_cpl ≡ (if desc_is_conforming_code d then cpl else d.dpl)
  pub outer : target.outer ≡ (if ltb target.target_cpl cpl then 1 else 0)
  pub selector_level : target.selector ≡ normalize_selector selector target.target_cpl

-- A descriptor that code at level `cpl` may call without a gate.
pub record MayCall (cpl selector : ℕ) (d : SegDesc) (target : CodeTarget) : Type 0 where
  pub code : desc_is_code d ≡ true
  pub present : desc_is_present d ≡ true
  pub unchanged : target.target_cpl ≡ cpl
  pub inside : target.outer ≡ 0
  pub selector_level : target.selector ≡ normalize_selector selector cpl
  pub exact : desc_is_conforming_code d ≡ false → (d.dpl ≡ cpl) × (bit_and selector 3 ≤ cpl)
  pub conforming : d.dpl ≤ cpl ⊎ d.dpl ≤ bit_and selector 3

pub IsEntry : {S : Type 0} → Bus S → ℕ → Processor S → CodeTarget → Type 0
IsEntry b selector p target =
    (d : SegDesc) × ((read_segdesc b selector p).0 ≡ some d) × MayEnter p.cpl selector d target

pub IsCall : {S : Type 0} → Bus S → ℕ → Processor S → CodeTarget → Type 0
IsCall b selector p target =
    (d : SegDesc) × ((read_segdesc b selector p).0 ≡ some d) × MayCall p.cpl selector d target

gate_target-Sound :
    {S : Type 0} (b : Bus S) (selector : ℕ) (p : Processor S) (d : SegDesc)
    → (read_segdesc b selector p).0 ≡ some d
    → desc_is_code d ≡ true
    → desc_is_present d ≡ true
    → Sound (IsEntry b selector p) IsProtection selector (gate_target p.cpl selector d)
unfolding gate_target Sound IsProtection IsEntry
gate_target-Sound b selector p d found is_code is_present = elim (Bool-cases (ltb p.cpl d.dpl)) [
  | inl e ↦ rw e (inl refl, inr refl)
  | inr e ↦ rw e (elim (Bool-cases (desc_is_conforming_code d)) [
    | inl f ↦ rw f (
      d,
      found,
      record {
        code = is_code;
        present = is_present;
        inward = ground arith;
        privilege = ground (arith, e);
        level = rw f refl;
        outer = ground arith;
        selector_level = refl;
      },
    )
    | inr f ↦ rw f (
      d,
      found,
      record {
        code = is_code;
        present = is_present;
        inward = ground (arith, e);
        privilege = ground arith;
        level = rw f refl;
        outer = refl;
        selector_level = refl;
      },
    )
  ])
]

-- A gate leads inward or stays. Either the code segment is accepted: the descriptor in the table is
-- present code, no less privileged than the current level, the target level is that of the
-- descriptor, or the current one for conforming code, it is never less privileged than the current
-- one, the stack changes exactly when the level does, and the selector is given the target level.
-- Or the call is refused, with a general protection or a not-present exception whose error code is
-- 0 or the selector without its requested level.
pub validate_gate_target_code_lem :
    {S : Type 0} (b : Bus S) (selector : ℕ) (p : Processor S)
    → Settled b
        (IsEntry b selector p)
        IsProtection
        selector
        (validate_gate_target_code b selector p)
unfolding validate_gate_target_code IsProtection
validate_gate_target_code_lem b selector p =
    settle-Settled b (IsEntry b selector p) IsProtection selector _ (
      checked-Sound b (IsEntry b selector p) IsProtection selector 13 _ p (inl refl) (λ d found.
        code-Sound b (IsEntry b selector p) IsProtection selector 11 _ d (inl refl) (inr refl)
          (gate_target-Sound b selector p d found)))

direct_target-Sound :
    {S : Type 0} (b : Bus S) (selector : ℕ) (p : Processor S) (d : SegDesc)
    → (read_segdesc b selector p).0 ≡ some d
    → desc_is_code d ≡ true
    → desc_is_present d ≡ true
    → Sound (IsCall b selector p) IsProtection selector (direct_target p.cpl selector d)
unfolding direct_target Sound IsProtection IsCall
direct_target-Sound b selector p d found is_code is_present =
    elim (Bool-cases (desc_is_conforming_code d)) [
      | inl e ↦
          rw e
            (elim (Bool-cases
              (ltb (if ltb p.cpl (bit_and selector 3) then bit_and selector 3 else p.cpl) d.dpl)) [
                | inl f ↦ rw f (inl refl, inr refl)
                | inr f ↦ rw f (
                  d,
                  found,
                  record {
                    code = is_code;
                    present = is_present;
                    unchanged = refl;
                    inside = refl;
                    selector_level = refl;
                    exact = λ g. ground (arith, e, g);
                    conforming = ground (arith, f);
                  },
                )
              ])
      | inr e ↦ rw e (elim (Bool-cases (d.dpl != p.cpl || ltb p.cpl (bit_and selector 3))) [
        | inl f ↦ rw f (inl refl, inr refl)
        | inr f ↦ rw f (
          d,
          found,
          record {
            code = is_code;
            present = is_present;
            unchanged = refl;
            inside = refl;
            selector_level = refl;
            exact = λ _. (ground (arith, f), ground (arith, f));
            conforming = inl (ground (arith, f));
          },
        )
      ])
    ]

-- A direct call never changes the level. Either the code segment is accepted: the descriptor in the
-- table is present code, the level, the stack and the level in the selector are those of the caller,
-- code that is not conforming is of exactly the level of the caller and was not requested at a
-- weaker one, and conforming code is no less privileged than the weaker of the two. Or the call is
-- refused, with a general protection or a not-present exception whose error code is 0 or the
-- selector without its requested level.
pub validate_direct_call_target_lem :
    {S : Type 0} (b : Bus S) (selector : ℕ) (p : Processor S)
    → Settled b
        (IsCall b selector p)
        IsProtection
        selector
        (validate_direct_call_target b selector p)
unfolding validate_direct_call_target IsProtection
validate_direct_call_target_lem b selector p =
    settle-Settled b (IsCall b selector p) IsProtection selector _ (
      checked-Sound b (IsCall b selector p) IsProtection selector 13 _ p (inl refl) (λ d found.
        code-Sound b (IsCall b selector p) IsProtection selector 11 _ d (inl refl) (inr refl)
          (direct_target-Sound b selector p d found)))
