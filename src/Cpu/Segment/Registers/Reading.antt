-- ===== src/Cpu/Segment/Registers/Reading.antt =====
-- What reading a descriptor leaves alone: every register of src/cpu/cpuhelper.h's processor but the
-- state of memory.
use pculator.Base.{
  ℕ, ◌+◌, ◌≡◌, ◌≢◌, ◌≤◌, ◌⊎◌, bit_and, refl, ◌∙◌, inl, inr, subst, true, false, Option, none, some,
  ◌==◌, ltb, if◌then◌else◌, Bool-cases, arith,
}
use pculator.Cpu.Segment.{
  Bus, Processor, SegDesc, desc_is_present, desc_is_code, desc_is_conforming_code,
  desc_is_readable_code, selector_offset, read_segdesc, load_segdesc, selector_table_limit,
  read_byte,
}
use pculator.Cpu.Segment.Registers.{real_segments, segment_usable_at_cpl, usable_in, desc_usable}

-- The same processor, but for the state of memory and of the exception.
pub record SameRegisters {S : Type 0} (p q : Processor S) : Type 0 where
  pub segregs : q.segregs ≡ p.segregs
  pub segcache : q.segcache ≡ p.segcache
  pub segis32 : q.segis32 ≡ p.segis32
  pub seglimit : q.seglimit ≡ p.seglimit
  pub cpl : q.cpl ≡ p.cpl
  pub protected_mode : q.protected_mode ≡ p.protected_mode
  pub eflags : q.eflags ≡ p.eflags
  pub gdtr : q.gdtr ≡ p.gdtr
  pub gdtl : q.gdtl ≡ p.gdtl
  pub ldtr : q.ldtr ≡ p.ldtr
  pub ldtl : q.ldtl ≡ p.ldtl

-- A segment that code at `target_cpl` may read through.
pub record IsOpen (target_cpl selector : ℕ) (d : SegDesc) : Type 0 where
  pub present : desc_is_present d ≡ true
  pub segment : bit_and d.access 0x10 ≢ 0
  pub readable : desc_is_code d ≡ true → desc_is_readable_code d ≡ true
  pub level :
      (desc_is_conforming_code d ≡ true) ⊎ ((target_cpl ≤ d.dpl) × (bit_and selector 3 ≤ d.dpl))

pub desc_usable-IsOpen :
    (selector target_cpl : ℕ) (d : SegDesc)
    → desc_usable selector target_cpl d ≡ true
    → IsOpen target_cpl selector d
unfolding desc_usable
desc_usable-IsOpen selector target_cpl d h = record {
  present = ground (arith, h);
  segment = λ e. ground (arith, h, e);
  readable = λ e. ground (arith, h, e);
  level = elim (Bool-cases (desc_is_conforming_code d)) [
    | inl e ↦ inl e
    | inr e ↦ inr (ground (arith, h, e), ground (arith, h, e))
  ];
}

pub IsOpen-desc_usable :
    (selector target_cpl : ℕ) (d : SegDesc)
    → IsOpen target_cpl selector d
    → desc_usable selector target_cpl d ≡ true
unfolding desc_usable desc_is_conforming_code
IsOpen-desc_usable selector target_cpl d h = elim h.level [
  | inl e ↦ ground (arith, h.present, h.segment, h.readable, e)
  | inr e ↦ ground (arith, h.present, h.segment, h.readable, e)
]

module _ {S : Type 0} (b : Bus S) where
  pub read_segdesc-SameRegisters :
      (selector : ℕ) (p : Processor S) → SameRegisters p (read_segdesc b selector p).1
  unfolding read_segdesc load_segdesc read_byte
  read_segdesc-SameRegisters selector p =
      elim (Bool-cases (ltb (selector_table_limit p selector) (selector_offset selector + 7))) [
        | inl e ↦ rw e (record {
          segregs = refl;
          segcache = refl;
          segis32 = refl;
          seglimit = refl;
          cpl = refl;
          protected_mode = refl;
          eflags = refl;
          gdtr = refl;
          gdtl = refl;
          ldtr = refl;
          ldtl = refl;
        })
        | inr e ↦ rw e (record {
          segregs = refl;
          segcache = refl;
          segis32 = refl;
          seglimit = refl;
          cpl = refl;
          protected_mode = refl;
          eflags = refl;
          gdtr = refl;
          gdtl = refl;
          ldtr = refl;
          ldtl = refl;
        })
      ]

  pub chain : {p q r : Processor S} → SameRegisters p q → SameRegisters q r → SameRegisters p r
  chain f g = record {
    segregs = g.segregs ∙ f.segregs;
    segcache = g.segcache ∙ f.segcache;
    segis32 = g.segis32 ∙ f.segis32;
    seglimit = g.seglimit ∙ f.seglimit;
    cpl = g.cpl ∙ f.cpl;
    protected_mode = g.protected_mode ∙ f.protected_mode;
    eflags = g.eflags ∙ f.eflags;
    gdtr = g.gdtr ∙ f.gdtr;
    gdtl = g.gdtl ∙ f.gdtl;
    ldtr = g.ldtr ∙ f.ldtr;
    ldtl = g.ldtl ∙ f.ldtl;
  }

  pub usable-SameRegisters :
      (selector target_cpl : ℕ) (p : Processor S)
      → SameRegisters p (segment_usable_at_cpl b selector target_cpl p).1
  unfolding segment_usable_at_cpl usable_in
  usable-SameRegisters selector target_cpl p = elim (Bool-cases (selector_offset selector == 0)) [
    | inl e ↦ rw e (record {
      segregs = refl;
      segcache = refl;
      segis32 = refl;
      seglimit = refl;
      cpl = refl;
      protected_mode = refl;
      eflags = refl;
      gdtr = refl;
      gdtl = refl;
      ldtr = refl;
      ldtl = refl;
    })
    | inr e ↦ rw e (of_read (read_segdesc b selector p) (read_segdesc-SameRegisters selector p))
  ]
    where
      of_read :
          (r : Option SegDesc × Processor S)
          → SameRegisters p r.1
          → SameRegisters p (usable_in selector target_cpl r).1
      of_read (none, q) same = same
      of_read (some d, q) same = same

  pub usable-read :
      (selector target_cpl : ℕ) (p : Processor S)
      → selector_offset selector ≢ 0
      → (segment_usable_at_cpl b selector target_cpl p).0 ≡ true
      → (e : SegDesc) × ((read_segdesc b selector p).0 ≡ some e)
        × (desc_usable selector target_cpl e ≡ true)
  unfolding segment_usable_at_cpl usable_in
  usable-read selector target_cpl p real h =
      let e : (selector_offset selector == 0) ≡ false = ground (arith, real) in
      of_read (read_segdesc b selector p) (
        subst
          (λ x.
            (if x then (true, p) else usable_in selector target_cpl (read_segdesc b selector p)).0
            ≡ true)
          e h)
    where
      of_read :
          (r : Option SegDesc × Processor S)
          → (usable_in selector target_cpl r).0 ≡ true
          → (e : SegDesc) × (r.0 ≡ some e) × (desc_usable selector target_cpl e ≡ true)
      of_read (none, q) h = absurd (ground (arith, h))
      of_read (some d, q) h = (d, refl, h)

  pub real_segments-same :
      (p q : Processor S) → SameRegisters p q → real_segments p ≡ false → real_segments q ≡ false
  unfolding real_segments
  real_segments-same p q same mode = rw (same.protected_mode, same.eflags) mode
