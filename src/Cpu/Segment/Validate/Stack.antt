-- ===== src/Cpu/Segment/Validate/Stack.antt =====
-- `cpu_validate_stack_selector` and `cpu_fetch_tss_stack` of src/cpu/cpuhelper.h: the stack of the
-- level that control goes to.
use pculator.Base.{
  ℕ, ◌+◌, ◌*◌, ◌≡◌, ◌≤◌, refl, ◌⊎◌, inl, inr, true, ◌||◌, Option, none, some, ◌!=◌, ltb, Bool-cases,
  bit_and, arith,
}
use pculator.Cpu.Segment.{
  Bus, Processor, SegDesc, desc_is_present, desc_is_writable_data, read_segdesc, read_long,
  read_word, raise,
}
use pculator.Cpu.Segment.Validate.{validate_stack_selector, fetch_tss_stack, stack_verdict}
use pculator.Cpu.Segment.Validate.Verdicts.{
  Sound, Settled, granted, faulted, settle-Settled, checked-Sound,
}

-- A descriptor that may hold the stack of a level.
pub record HoldsStack (target_cpl selector : ℕ) (d : SegDesc) : Type 0 where
  pub writable : desc_is_writable_data d ≡ true
  pub present : desc_is_present d ≡ true
  pub requested : bit_and selector 3 ≡ target_cpl
  pub level : d.dpl ≡ target_cpl

pub IsStack : {S : Type 0} → Bus S → ℕ → ℕ → Processor S → SegDesc → Type 0
IsStack b selector target_cpl p d =
    ((read_segdesc b selector p).0 ≡ some d) × HoldsStack target_cpl selector d

pub IsEither : ℕ → ℕ → ℕ → Type 0
IsEither x y vector = (vector ≡ x) ⊎ (vector ≡ y)

module _ {S : Type 0} (b : Bus S) (selector target_cpl invalid missing : ℕ) (p : Processor S) where
  stack_verdict-Sound :
      (d : SegDesc)
      → (read_segdesc b selector p).0 ≡ some d
      → Sound
          (IsStack b selector target_cpl p)
          (IsEither invalid missing)
          selector
          (stack_verdict invalid missing selector target_cpl d)
  unfolding stack_verdict Sound IsEither IsStack
  stack_verdict-Sound d found = elim (Bool-cases (desc_is_writable_data d)) [
    | inr e ↦ rw e (inl refl, inr refl)
    | inl e ↦ rw e (elim (Bool-cases (desc_is_present d)) [
      | inr f ↦ rw f (inr refl, inr refl)
      | inl f ↦ rw f (elim (Bool-cases (bit_and selector 3 != target_cpl || d.dpl != target_cpl)) [
        | inl g ↦ rw g (inl refl, inr refl)
        | inr g ↦ rw g (
          found,
          record {
            writable = e;
            present = f;
            requested = ground (arith, g);
            level = ground (arith, g);
          },
        )
      ])
    ])
  ]

  -- A stack is accepted for a level only where the selector asks for exactly that level, and the
  -- descriptor in the table is present, writable data of exactly that level. Otherwise one of the two
  -- exceptions of the caller is raised, with 0 or the selector without its requested level as
  -- error code.
  pub validate_stack_selector_lem :
      Settled b
        (IsStack b selector target_cpl p)
        (IsEither invalid missing)
        selector
        (validate_stack_selector b selector target_cpl invalid missing p)
  unfolding validate_stack_selector IsEither
  validate_stack_selector_lem =
      settle-Settled b (IsStack b selector target_cpl p) (IsEither invalid missing) selector _ (
        checked-Sound b (IsStack b selector target_cpl p) (IsEither invalid missing) selector
          invalid _ p (inl refl) stack_verdict-Sound)

-- The entry of a level in the task state segment: a pointer, and two bytes of selector behind it.
abbrev pub stack_pointer : {S : Type 0} → Bus S → (target_cpl : ℕ) → Processor S → ℕ × Processor S
stack_pointer b target_cpl p = read_long b (p.trbase + 4 + target_cpl * 8) p

abbrev pub stack_selector : {S : Type 0} → Bus S → (target_cpl : ℕ) → Processor S → ℕ × Processor S
stack_selector b target_cpl p =
    read_word b (p.trbase + 8 + target_cpl * 8) (stack_pointer b target_cpl p).1

-- What becomes of the request for the stack of a level. The descriptor of the stack is read right
-- after the two words of the entry.
pub data Fetched {S : Type 0} (b : Bus S) (target_cpl : ℕ) (p : Processor S)
    (r : Option (ℕ × ℕ) × Processor S) : Type 0 where
  fetched :
      (new_ss new_esp : ℕ) (d : SegDesc)
      → r.0 ≡ some (new_ss, new_esp)
      → target_cpl ≤ 2
      → 10 + target_cpl * 8 ≤ p.trlimit
      → new_esp ≡ (stack_pointer b target_cpl p).0
      → new_ss ≡ (stack_selector b target_cpl p).0
      → IsStack b new_ss target_cpl (stack_selector b target_cpl p).1 d
      → Fetched b target_cpl p r
  stack_fault :
      (vector error : ℕ) (q : Processor S)
      → IsEither 10 12 vector
      → r ≡ (none, raise b vector error q)
      → Fetched b target_cpl p r

-- The stack of an inner level comes from the task state segment. Either the level is 0, 1 or 2, its
-- entry lies within the limit of the segment, the pointer is the long word 4 + 8 * level bytes into the
-- segment and the selector the word 8 + 8 * level bytes into it, and that selector asks for exactly
-- the level and names, in the tables as they are read right after the entry, present, writable data of
-- exactly the level. Or an invalid task or a stack exception is raised, and there is no new stack.
pub fetch_tss_stack_lem :
    {S : Type 0} (b : Bus S) (target_cpl : ℕ) (p : Processor S)
    → Fetched b target_cpl p (fetch_tss_stack b target_cpl p)
unfolding fetch_tss_stack IsEither
fetch_tss_stack_lem b target_cpl p = elim (Bool-cases (ltb 2 target_cpl)) [
  | inl e ↦ rw e (stack_fault 10 p.tr_selector p (inl refl) refl)
  | inr e ↦ rw e (elim (Bool-cases (ltb p.trlimit (10 + target_cpl * 8))) [
    | inl f ↦ rw f (stack_fault 10 p.tr_selector p (inl refl) refl)
    | inr f ↦ rw f (
        let ss = (stack_selector b target_cpl p).0 in
        let r = (stack_selector b target_cpl p).1 in
        elim (validate_stack_selector_lem b ss target_cpl 10 12 r) [
          | granted d found good ↦
              fetched ss (stack_pointer b target_cpl p).0 d (rw found refl) (ground (arith, e))
                (ground (arith, f)) refl refl good
          | faulted vector error t known code same ↦ stack_fault vector error t known (rw same refl)
        ])
  ])
]
