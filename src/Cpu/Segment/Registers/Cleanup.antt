-- ===== src/Cpu/Segment/Registers/Cleanup.antt =====
-- `cpu_cleanup_outer_return_segments` of src/cpu/cpuhelper.h: the data segments after a return to a less
-- privileged level.
use pculator.Base.{
  ℕ, ◌≡◌, ◌≢◌, refl, sym, ap, ◌∙◌, ◌⊎◌, inl, inr, subst, true, false, Option, none, some,
  some-injective, ◌==◌, Bool-cases, arith, update_self, update_ne,
}
use pculator.Cpu.Segment.{
  Bus, Processor, SegDesc, reges, regcs, regss, regds, regfs, reggs, selector_offset, read_segdesc,
}
use pculator.Cpu.Segment.Registers.{
  null_seg, segment_usable_at_cpl, usable_in, desc_usable, cleanup, cleanup_outer_return_segments,
}
use pculator.Cpu.Segment.Registers.Reading.{
  usable-SameRegisters, IsOpen, desc_usable-IsOpen, IsOpen-desc_usable,
}

-- A selector that code at `target_cpl` may keep, with the tables as they are in `q`: it is null, or
-- names an open descriptor.
pub IsKept : {S : Type 0} → Bus S → (target_cpl : ℕ) → Processor S → (selector : ℕ) → Type 0
IsKept b target_cpl q selector =
    (selector_offset selector ≡ 0)
    ⊎ ((d : SegDesc) × ((read_segdesc b selector q).0 ≡ some d) × IsOpen target_cpl selector d)

-- What a selector has become: what it was, if it may be kept, and else the null selector.
pub Cleaned : {S : Type 0} → Bus S → (target_cpl : ℕ) → Processor S → (before after : ℕ) → Type 0
Cleaned b target_cpl q before after =
    ((after ≡ before) × IsKept b target_cpl q before)
    ⊎ ((after ≡ 0) × ¬ (IsKept b target_cpl q before))

module _ {S : Type 0} (b : Bus S) (target_cpl : ℕ) where
  usable-IsKept :
      (selector : ℕ) (p : Processor S)
      → let usable = (segment_usable_at_cpl b selector target_cpl p).0 in
        (usable ≡ true → IsKept b target_cpl p selector)
        × (usable ≡ false → ¬ (IsKept b target_cpl p selector))
  unfolding segment_usable_at_cpl usable_in IsKept
  usable-IsKept selector p = elim (Bool-cases (selector_offset selector == 0)) [
    | inl e ↦ rw e (λ h. inl (ground (arith, e)), λ h. absurd (ground (arith, h)))
    | inr e ↦ rw e (of_read (λ zero_now. ground (arith, e, zero_now)) (read_segdesc b selector p))
  ]
    where
      of_read :
          selector_offset selector ≢ 0
          → (r : Option SegDesc × Processor S)
          → let usable = (usable_in selector target_cpl r).0 in
            let keeps : Type 0 =
              (selector_offset selector ≡ 0)
              ⊎ ((d : SegDesc) × (r.0 ≡ some d) × IsOpen target_cpl selector d) in
            (usable ≡ true → keeps) × (usable ≡ false → ¬ keeps)
      of_read real (none, q) = (
        λ h. absurd (ground (arith, h)),
        λ h kept. elim kept [
          | inl zero_now ↦ real zero_now
          | inr (d, seen, ok) ↦ ground (arith, seen)
        ],
      )
      of_read real (some d, q) = (
        λ h. inr (d, refl, desc_usable-IsOpen selector target_cpl d h),
        λ h kept. elim kept [
          | inl zero_now ↦ real zero_now
          | inr (e, seen, ok) ↦
              let fit = IsOpen-desc_usable selector target_cpl e ok in
              let same : d ≡ e = some-injective _ _ seen in
              let fit' : desc_usable selector target_cpl d ≡ true =
                subst (λ x. desc_usable selector target_cpl x ≡ true) (sym same) fit in
              ground (arith, h, fit')
        ],
      )

  cleanup-Cleaned :
      (reg : ℕ) (p : Processor S)
      → Cleaned b target_cpl p (p.segregs reg) ((cleanup b target_cpl reg p).segregs reg)
  unfolding cleanup null_seg Cleaned
  cleanup-Cleaned reg p =
      let q = (segment_usable_at_cpl b (p.segregs reg) target_cpl p).1 in
      let same = usable-SameRegisters b (p.segregs reg) target_cpl p in
      let (kept, dropped) = usable-IsKept (p.segregs reg) p in
      elim (Bool-cases ((segment_usable_at_cpl b (p.segregs reg) target_cpl p).0)) [
        | inl e ↦ rw e (inl (ap (λ (f : ℕ → ℕ). f reg) same.segregs, kept e))
        | inr e ↦ rw e (inr (update_self q.segregs reg 0, dropped e))
      ]

  cleanup-other :
      (reg other : ℕ) (p : Processor S)
      → other ≢ reg
      → (cleanup b target_cpl reg p).segregs other ≡ p.segregs other
  unfolding cleanup null_seg
  cleanup-other reg other p apart =
      let q = (segment_usable_at_cpl b (p.segregs reg) target_cpl p).1 in
      let same = usable-SameRegisters b (p.segregs reg) target_cpl p in
      elim (Bool-cases ((segment_usable_at_cpl b (p.segregs reg) target_cpl p).0)) [
        | inr e ↦
            rw e (update_ne q.segregs reg other 0 apart ∙ ap (λ (f : ℕ → ℕ). f other) same.segregs)
        | inl e ↦ rw e (ap (λ (f : ℕ → ℕ). f other) same.segregs)
      ]

  cleanup-cpl : (reg : ℕ) (p : Processor S) → (cleanup b target_cpl reg p).cpl ≡ p.cpl
  unfolding cleanup null_seg
  cleanup-cpl reg p =
      let same = usable-SameRegisters b (p.segregs reg) target_cpl p in
      elim (Bool-cases ((segment_usable_at_cpl b (p.segregs reg) target_cpl p).0)) [
        | inr e ↦ rw e same.cpl
        | inl e ↦ rw e same.cpl
      ]

carry :
    {S : Type 0} (b : Bus S) (target_cpl : ℕ) (q : Processor S) (before after before' after' : ℕ)
    → Cleaned b target_cpl q before after
    → before ≡ before'
    → after' ≡ after
    → Cleaned b target_cpl q before' after'
carry b target_cpl q before after before' after' h e f =
    subst (λ x. Cleaned b target_cpl q before' x) (sym f)
      (subst (λ x. Cleaned b target_cpl q x after) e h)

-- The descriptor tables of `p` are at the same place in `q`, and of the same length.
pub record SameTables {S : Type 0} (p q : Processor S) : Type 0 where
  pub gdtr : q.gdtr ≡ p.gdtr
  pub gdtl : q.gdtl ≡ p.gdtl
  pub ldtr : q.ldtr ≡ p.ldtr
  pub ldtl : q.ldtl ≡ p.ldtl

module _ {S : Type 0} (b : Bus S) (target_cpl : ℕ) where
  cleanup-SameTables : (reg : ℕ) (p : Processor S) → SameTables p (cleanup b target_cpl reg p)
  unfolding cleanup null_seg
  cleanup-SameTables reg p =
      let same = usable-SameRegisters b (p.segregs reg) target_cpl p in
      elim (Bool-cases ((segment_usable_at_cpl b (p.segregs reg) target_cpl p).0)) [
        | inr e ↦
            rw e (record { gdtr = same.gdtr; gdtl = same.gdtl; ldtr = same.ldtr; ldtl = same.ldtl })
        | inl e ↦
            rw e (record { gdtr = same.gdtr; gdtl = same.gdtl; ldtr = same.ldtr; ldtl = same.ldtl })
      ]

  SameTables-chain : {p q r : Processor S} → SameTables p q → SameTables q r → SameTables p r
  SameTables-chain f g = record {
    gdtr = g.gdtr ∙ f.gdtr;
    gdtl = g.gdtl ∙ f.gdtl;
    ldtr = g.ldtr ∙ f.ldtr;
    ldtl = g.ldtl ∙ f.ldtl;
  }

-- The registers after the return: ES is looked at in `p`, and each of the others in the state that
-- the one before it leaves.
pub record OuterReturn {S : Type 0} (b : Bus S) (target_cpl : ℕ) (p r : Processor S) : Type 0 where
  pub after_es : Processor S
  pub after_ds : Processor S
  pub after_fs : Processor S
  pub steps :
      (after_es ≡ cleanup b target_cpl reges p)
      × (after_ds ≡ cleanup b target_cpl regds after_es)
      × (after_fs ≡ cleanup b target_cpl regfs after_ds)
  pub tables : SameTables p after_es × SameTables p after_ds × SameTables p after_fs
  pub es : Cleaned b target_cpl p (p.segregs reges) (r.segregs reges)
  pub ds : Cleaned b target_cpl after_es (p.segregs regds) (r.segregs regds)
  pub fs : Cleaned b target_cpl after_ds (p.segregs regfs) (r.segregs regfs)
  pub gs : Cleaned b target_cpl after_fs (p.segregs reggs) (r.segregs reggs)
  pub cs : r.segregs regcs ≡ p.segregs regcs
  pub ss : r.segregs regss ≡ p.segregs regss
  pub cpl : r.cpl ≡ p.cpl

-- After a return to the level `target_cpl`, no data segment register gives access beyond that level:
-- each of ES, DS, FS and GS keeps what it held if that is null or its descriptor is present, not of
-- the system, readable where it is code, and, unless it is conforming code, no more privileged than
-- the level and the one that the selector asks for; and otherwise it holds the null selector. The
-- descriptor is the one that the tables of the processor give when the register is looked at: ES
-- first, then DS, FS and GS, each in the state after the one before, with the tables at the same
-- place throughout. CS, SS and the current level stay as they were.
pub cleanup_outer_return_segments_lem :
    {S : Type 0} (b : Bus S) (target_cpl : ℕ) (p : Processor S)
    → OuterReturn b target_cpl p (cleanup_outer_return_segments b target_cpl p)
unfolding cleanup_outer_return_segments
cleanup_outer_return_segments_lem b target_cpl p =
    let p1 = cleanup b target_cpl reges p in
    let p2 = cleanup b target_cpl regds p1 in
    let p3 = cleanup b target_cpl regfs p2 in
    let first = λ (i : ℕ) (h : i ≢ reges). cleanup-other b target_cpl reges i p h in
    let second = λ (i : ℕ) (h : i ≢ regds). cleanup-other b target_cpl regds i p1 h in
    let third = λ (i : ℕ) (h : i ≢ regfs). cleanup-other b target_cpl regfs i p2 h in
    let fourth = λ (i : ℕ) (h : i ≢ reggs). cleanup-other b target_cpl reggs i p3 h in
    let tables1 = cleanup-SameTables b target_cpl reges p in
    let tables2 =
      SameTables-chain b target_cpl tables1 (cleanup-SameTables b target_cpl regds p1) in
    let tables3 =
      SameTables-chain b target_cpl tables2 (cleanup-SameTables b target_cpl regfs p2) in
    record {
      after_es = p1;
      after_ds = p2;
      after_fs = p3;
      steps = (refl, refl, refl);
      tables = (tables1, tables2, tables3);
      es = carry b target_cpl p _ _ _ _ (cleanup-Cleaned b target_cpl reges p) refl (
          fourth reges (λ e. ground (arith, e))
          ∙ third reges (λ e. ground (arith, e))
          ∙ second reges (λ e. ground (arith, e)));
      ds =
          carry b target_cpl p1 _ _ _ _ (cleanup-Cleaned b target_cpl regds p1)
            (first regds (λ e. ground (arith, e)))
            (fourth regds (λ e. ground (arith, e)) ∙ third regds (λ e. ground (arith, e)));
      fs =
          carry b target_cpl p2 _ _ _ _ (cleanup-Cleaned b target_cpl regfs p2)
            (second regfs (λ e. ground (arith, e)) ∙ first regfs (λ e. ground (arith, e)))
            (fourth regfs (λ e. ground (arith, e)));
      gs =
          carry b target_cpl p3 _ _ _ _ (cleanup-Cleaned b target_cpl reggs p3)
            (third reggs (λ e. ground (arith, e))
              ∙ second reggs (λ e. ground (arith, e))
              ∙ first reggs (λ e. ground (arith, e)))
            refl;
      cs =
          fourth regcs (λ e. ground (arith, e))
          ∙ third regcs (λ e. ground (arith, e))
          ∙ second regcs (λ e. ground (arith, e))
          ∙ first regcs (λ e. ground (arith, e));
      ss =
          fourth regss (λ e. ground (arith, e))
          ∙ third regss (λ e. ground (arith, e))
          ∙ second regss (λ e. ground (arith, e))
          ∙ first regss (λ e. ground (arith, e));
      cpl =
          cleanup-cpl b target_cpl reggs p3
          ∙ cleanup-cpl b target_cpl regfs p2
          ∙ cleanup-cpl b target_cpl regds p1
          ∙ cleanup-cpl b target_cpl reges p;
    }
