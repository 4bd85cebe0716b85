-- ===== src/Memory/Paging/Permission.antt =====
-- The flags of a translation in src/memory.c and the accesses they grant.
use pculator.Base.{
  ℕ, ◌^◌, ◌≡◌, refl, ap, ◌∙◌, Bool, true, false, not, ◌&&◌, ◌||◌, ◌==◌, ==_self, if◌then◌else◌,
  bit_or, has, bit-bit_or, bit-pow, has-pow,
}
use pculator.Memory.Paging.{Cpu, MemAccess, access_is_write, page_access_is_allowed}
use pculator.Memory.Paging.Walk.{walk_flags}

pub has-bit_or :
    (flags k j : ℕ) → has (bit_or flags (2 ^ j)) (2 ^ k) ≡ (has flags (2 ^ k) || k == j)
has-bit_or flags k j =
    rw (has-pow (bit_or flags (2 ^ j)) k, has-pow flags k, bit-bit_or flags (2 ^ j) k, bit-pow j k)
      refl

-- The flags of a walk: user (2), write (4) and dirty (8).
abbrev flags_of : Bool → Bool → Bool → ℕ
flags_of user write dirty =
    bit_or (bit_or (if user then 0x02 else 0) (if write then 0x04 else 0))
      (if dirty then 0x08 else 0)

has-flags_of :
    (user write dirty : Bool)
    → (has (flags_of user write dirty) 2 ≡ user)
      × (has (flags_of user write dirty) 4 ≡ write)
      × (has (flags_of user write dirty) 8 ≡ dirty)
has-flags_of true true true = (refl, refl, refl)
has-flags_of true true false = (refl, refl, refl)
has-flags_of true false true = (refl, refl, refl)
has-flags_of true false false = (refl, refl, refl)
has-flags_of false true true = (refl, refl, refl)
has-flags_of false true false = (refl, refl, refl)
has-flags_of false false true = (refl, refl, refl)
has-flags_of false false false = (refl, refl, refl)

pub has-walk_flags :
    (dentry tentry : ℕ)
    → (has (walk_flags dentry tentry) 2 ≡ (has dentry 4 && has tentry 4))
      × (has (walk_flags dentry tentry) 4 ≡ (has dentry 2 && has tentry 2))
      × (has (walk_flags dentry tentry) 8 ≡ has tentry 0x40)
unfolding walk_flags
has-walk_flags dentry tentry =
    has-flags_of (has dentry 4 && has tentry 4) (has dentry 2 && has tentry 2) (has tentry 0x40)

-- The flags allow the access, and an access that writes finds the dirty flag set.
unfoldable pub Grants : Cpu → MemAccess → ℕ → Type 0
unfolding page_access_is_allowed
Grants c access flags =
    (page_access_is_allowed c access (has flags 2) (has flags 4) ≡ true)
    × ((access_is_write access && not (has flags 8)) ≡ false)

or_same : (b : Bool) → (b || false) ≡ b
or_same true = refl
or_same false = refl

or_same_true : (b : Bool) → (b || true) ≡ true
or_same_true true = refl
or_same_true false = refl

none_left_out : (b : Bool) → (b && not true) ≡ false
none_left_out true = refl
none_left_out false = refl

-- A flag that is set does not change another one.
has_other :
    (flags k j : ℕ) → (k == j) ≡ false → has (bit_or flags (2 ^ j)) (2 ^ k) ≡ has flags (2 ^ k)
has_other flags k j h =
    has-bit_or flags k j ∙ ap (λ b. has flags (2 ^ k) || b) h ∙ or_same (has flags (2 ^ k))

has_same : (flags k : ℕ) → has (bit_or flags (2 ^ k)) (2 ^ k) ≡ true
has_same flags k =
    has-bit_or flags k k
    ∙ ap (λ b. has flags (2 ^ k) || b) (==_self k)
    ∙ or_same_true (has flags (2 ^ k))

-- Setting the dirty flag and the valid flag.
pub Grants-dirty :
    (c : Cpu) (access : MemAccess) (flags : ℕ)
    → page_access_is_allowed c access (has flags 2) (has flags 4) ≡ true
    → Grants c access (bit_or flags 0x08)
unfolding Grants
Grants-dirty c access flags h = (
  ap (λ (p : Bool × Bool). page_access_is_allowed c access p.0 p.1)
        (ap (λ b. (b, has (bit_or flags 8) 4)) (has_other flags 1 3 refl)
          ∙ ap (λ b. (has flags 2, b)) (has_other flags 2 3 refl))
      ∙ h,
  ap (λ b. access_is_write access && not b) (has_same flags 3)
      ∙ none_left_out (access_is_write access),
)

pub Grants-valid :
    (c : Cpu) (access : MemAccess) (flags : ℕ)
    → Grants c access flags
    → Grants c access (bit_or flags 0x01)
unfolding Grants
Grants-valid c access flags (h, e) = (
  ap (λ (p : Bool × Bool). page_access_is_allowed c access p.0 p.1)
        (ap (λ b. (b, has (bit_or flags 1) 4)) (has_other flags 1 0 refl)
          ∙ ap (λ b. (has flags 2, b)) (has_other flags 2 0 refl))
      ∙ h,
  ap (λ b. access_is_write access && not b) (has_other flags 3 0 refl) ∙ e,
)

pub has_valid : (flags : ℕ) → has (bit_or flags 0x01) 1 ≡ true
has_valid flags = has_same flags 0

pub has_valid-dirty : (flags : ℕ) → has (bit_or flags 0x08) 1 ≡ has flags 1
has_valid-dirty flags = has_other flags 0 3 refl
