-- ===== src/Cpu/Segment/Validate/Return.antt =====
-- `cpu_validate_return_cs` of src/cpu/cpuhelper.h: a far return or an `iret` to a code segment.
use pculator.Base.{
  ℕ, ◌≡◌, ◌≤◌, refl, inl, inr, true, false, ◌||◌, some, ◌!=◌, ltb, if◌then◌else◌, Bool-cases,
  bit_and, arith,
}
use pculator.Cpu.Segment.{
  Bus, Processor, SegDesc, desc_is_present, desc_is_code, desc_is_conforming_code, read_segdesc,
}
use pculator.Cpu.Segment.Validate.{ReturnCs, validate_return_cs, return_target}
use pculator.Cpu.Segment.Validate.Verdicts.{
  Sound, Settled, IsProtection, settle-Settled, checked-Sound, code-Sound,
}

-- A descriptor that a processor at level `cpl` may return to, and what the code records of it.
pub record MayReturn (cpl selector : ℕ) (d : SegDesc) (info : ReturnCs) : Type 0 where
  pub code : desc_is_code d ≡ true
  pub present : desc_is_present d ≡ true
  pub kept : info.selector ≡ selector
  pub level : info.target_cpl ≡ bit_and selector 3
  pub outward : cpl ≤ info.target_cpl
  pub outer : info.outer ≡ (if ltb cpl info.target_cpl then 1 else 0)
  pub privilege : d.dpl ≤ info.target_cpl
  pub exact : desc_is_conforming_code d ≡ false → d.dpl ≡ info.target_cpl

pub IsReturn : {S : Type 0} → Bus S → ℕ → Processor S → ReturnCs → Type 0
IsReturn b selector p info =
    (d : SegDesc) × ((read_segdesc b selector p).0 ≡ some d) × MayReturn p.cpl selector d info

-- The verdict on one descriptor.
return_target-Sound :
    {S : Type 0} (b : Bus S) (selector : ℕ) (p : Processor S) (d : SegDesc)
    → (read_segdesc b selector p).0 ≡ some d
    → desc_is_code d ≡ true
    → desc_is_present d ≡ true
    → Sound (IsReturn b selector p) IsProtection selector (return_target p.cpl selector d)
unfolding return_target Sound IsProtection IsReturn
return_target-Sound b selector p d found is_code is_present =
    elim (Bool-cases (desc_is_conforming_code d)) [
      | inl e ↦ rw e (elim (Bool-cases (bit_and selector 3 != p.cpl || ltb p.cpl d.dpl)) [
        | inl f ↦ rw f (inl refl, inr refl)
        | inr f ↦ rw f (
          d,
          found,
          record {
            code = is_code;
            present = is_present;
            kept = refl;
            level = ground (arith, f);
            outward = ground arith;
            outer = ground arith;
            privilege = ground (arith, f);
            exact = λ g. ground (arith, e, g);
          },
        )
      ])
      | inr e ↦ rw e (elim (Bool-cases (ltb (bit_and selector 3) p.cpl)) [
        | inl f ↦ rw f (inl refl, inr refl)
        | inr f ↦ rw f (elim (Bool-cases (d.dpl != bit_and selector 3)) [
          | inl g ↦ rw g (inl refl, inr refl)
          | inr g ↦ rw g (
            d,
            found,
            record {
              code = is_code;
              present = is_present;
              kept = refl;
              level = refl;
              outward = ground (arith, f);
              outer = refl;
              privilege = ground (arith, g);
              exact = λ _. ground (arith, g);
            },
          )
        ])
      ])
    ]

-- A return never gains privilege. Either the code segment is accepted: the descriptor in the table is
-- present code, the target level is the requested level of the selector and not below the current
-- one, it is no more privileged than the descriptor, with equality unless the code is conforming,
-- and the return is marked as one to an outer level exactly when the level changes. Or the return is
-- refused, with a general protection or a not-present exception whose error code is 0 or the
-- selector without its requested level.
pub validate_return_cs_lem :
    {S : Type 0} (b : Bus S) (selector : ℕ) (p : Processor S)
    → Settled b (IsReturn b selector p) IsProtection selector (validate_return_cs b selector p)
unfolding validate_return_cs IsProtection
validate_return_cs_lem b selector p =
    settle-Settled b (IsReturn b selector p) IsProtection selector _ (
      checked-Sound b (IsReturn b selector p) IsProtection selector 13 _ p (inl refl) (λ d found.
        code-Sound b (IsReturn b selector p) IsProtection selector 11 _ d (inl refl) (inr refl)
          (return_target-Sound b selector p d found)))
