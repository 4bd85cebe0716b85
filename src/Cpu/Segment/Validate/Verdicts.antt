-- ===== src/Cpu/Segment/Validate/Verdicts.antt =====
-- What every check of src/cpu/cpuhelper.h has in common: the outcome of a check, from its verdicts on
-- a descriptor.
use pculator.Base.{ℕ, ◌≡◌, refl, ◌⊎◌, inl, inr, true, Option, none, some, ◌==◌, Bool-cases}
use pculator.Cpu.Segment.{
  Bus, Processor, SegDesc, selector_offset, selector_error_code, desc_is_present, desc_is_code,
  read_segdesc, raise,
}
use pculator.Cpu.Segment.Validate.{
  Verdict, refused, accepted, and_then, judged, checked, settle, code_verdict,
}

-- A verdict accepts only what is good, and refuses with one of the vectors and the error code of the
-- selector, which is 0 for a null selector.
unfoldable pub Sound : {A : Type 0} → (A → Type 0) → (ℕ → Type 0) → ℕ → Verdict A → Type 0
Sound IsGood IsVector selector (accepted a) = IsGood a
Sound IsGood IsVector selector (refused vector error) =
    IsVector vector × ((error ≡ 0) ⊎ (error ≡ selector_error_code selector))

-- What a check does: it accepts something good, or it raises an exception and returns nothing.
pub data Settled {S A : Type 0} (b : Bus S) (IsGood : A → Type 0) (IsVector : ℕ → Type 0)
    (selector : ℕ) (r : Option A × Processor S) : Type 0 where
  granted : (a : A) → r.0 ≡ some a → IsGood a → Settled b IsGood IsVector selector r
  faulted :
      (vector error : ℕ) (p : Processor S)
      → IsVector vector
      → (error ≡ 0) ⊎ (error ≡ selector_error_code selector)
      → r ≡ (none, raise b vector error p)
      → Settled b IsGood IsVector selector r

-- The vectors of a check that hands control over: general protection, and a segment not present.
unfoldable pub IsProtection : ℕ → Type 0
IsProtection vector = (vector ≡ 13) ⊎ (vector ≡ 11)

module _ {S A : Type 0} (b : Bus S) (IsGood : A → Type 0) (IsVector : ℕ → Type 0)
    (selector : ℕ) where
  pub settle-Settled :
      (r : Verdict A × Processor S)
      → Sound IsGood IsVector selector r.0
      → Settled b IsGood IsVector selector (settle b r)
  unfolding settle Sound
  settle-Settled (accepted a, p) good = granted a refl good
  settle-Settled (refused vector error, p) (known, code) = faulted vector error p known code refl

  pub checked-Sound :
      (invalid : ℕ) (judge : SegDesc → Verdict A) (p : Processor S)
      → IsVector invalid
      → ((d : SegDesc)
          → (read_segdesc b selector p).0 ≡ some d
          → Sound IsGood IsVector selector (judge d))
      → Sound IsGood IsVector selector (checked b invalid selector judge p).0
  unfolding checked judged Sound
  checked-Sound invalid judge p known sound = elim (Bool-cases (selector_offset selector == 0)) [
    | inl e ↦ rw e (known, inl refl)
    | inr e ↦ rw e (from_read (read_segdesc b selector p) sound)
  ]
    where
      from_read :
          (r : Option SegDesc × Processor S)
          → ((d : SegDesc) → r.0 ≡ some d → Sound IsGood IsVector selector (judge d))
          → Sound IsGood IsVector selector (judged invalid selector judge r).0
      from_read (none, q) sound = (known, inr refl)
      from_read (some d, q) sound = sound d refl

  -- The checks of a code segment.
  pub code-Sound :
      (missing : ℕ) (next : SegDesc → Verdict A) (d : SegDesc)
      → IsVector 13
      → IsVector missing
      → (desc_is_code d ≡ true → desc_is_present d ≡ true → Sound IsGood IsVector selector (next d))
      → Sound IsGood IsVector selector (and_then (code_verdict missing selector d) next)
  unfolding and_then code_verdict Sound
  code-Sound missing next d known absent sound = elim (Bool-cases (desc_is_code d)) [
    | inr e ↦ rw e (known, inr refl)
    | inl e ↦ elim (Bool-cases (desc_is_present d)) [
      | inr f ↦ rw (e, f) (absent, inr refl)
      | inl f ↦ rw (e, f) (sound e f)
    ]
  ]
