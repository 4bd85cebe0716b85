-- ===== src/Pic/Priority.antt =====
-- Which request `i8259_nextintr` of src/chipset/i8259.c acknowledges.
use pculator.Base.{
  ℕ, zero, suc, ◌+◌, ◌<◌, ◌≡◌, refl, Bool, true, false, ◌&&◌, ◌||◌, not, ◌==◌, arith, bit, bit_and,
  bit_or, ==_iff, u8, not8, ◌<<<◌, inl, inr, Bool-cases, bit-clear, bit-bit_or, bit-u8,
  bit-one_shift, has_one-shift, bit-and_not8,
}
use pculator.Pic.{Pic, nextintr, next_from}

-- Line `i` is requested and not masked.
abbrev pub is_pending : Pic → ℕ → Bool
is_pending p i = bit p.irr i && not (bit p.imr i)

-- What acknowledging line `i` does to the registers, bit by bit.
pub record MovesToService (p q : Pic) (i : ℕ) : Type 0 where
  pub requested : (k : ℕ) → k < 8 → bit q.irr k ≡ (bit p.irr k && not (k == i))
  pub in_service : (k : ℕ) → k < 8 → bit q.isr k ≡ (bit p.isr k || (k == i))
  pub mask_kept : q.imr ≡ p.imr

pub data Acknowledged (p : Pic) : ℕ → Pic → Type 0 where
  idle : (irq : ℕ) → irq ≡ 0xFF → ((i : ℕ) → i < 8 → is_pending p i ≡ false) → Acknowledged p irq p
  taken :
      (i : ℕ) (q : Pic)
      → i < 8
      → is_pending p i ≡ true
      → ((j : ℕ) → j < i → is_pending p j ≡ false)
      → MovesToService p q i
      → Acknowledged p i q

service :
    (p : Pic) (i : ℕ)
    → i < 8
    → MovesToService p
        (record p { irr = bit_and p.irr (not8 (1 <<< i)); isr = bit_or p.isr (u8 (1 <<< i)) })
        i
service p i h = record {
  requested = λ k l. bit-clear p.irr i k l;
  in_service = λ k l.
      ground (arith, bit-bit_or p.isr (u8 (1 <<< i)) k, bit-u8 (1 <<< i) k, bit-one_shift i k);
  mask_kept = refl;
}

extend :
    (p : Pic) (i : ℕ)
    → ((j : ℕ) → j < i → is_pending p j ≡ false)
    → is_pending p i ≡ false
    → (j : ℕ) → j < i + 1
    → is_pending p j ≡ false
extend p i below here j h = elim (Bool-cases (j == i)) [
  | inl e ↦ rw ((==_iff j i).0 e) here
  | inr e ↦ below j (ground arith)
]

next_from-Acknowledged :
    (p : Pic) (n i : ℕ)
    → i + n ≡ 8
    → ((j : ℕ) → j < i → is_pending p j ≡ false)
    → let (irq, q) = next_from n i (bit_and p.irr (not8 p.imr)) p in Acknowledged p irq q
unfolding next_from
next_from-Acknowledged p zero i e below = idle 0xFF refl (λ j h. below j (omega arith))
next_from-Acknowledged p (suc n) i e below = elim (Bool-cases (is_pending p i)) [
  | inl h ↦
      rw (has_one-shift, bit-and_not8 p.irr p.imr i (omega arith), h)
        (taken i _ (omega arith) h below (service p i (omega arith)))
  | inr h ↦
      rw (has_one-shift, bit-and_not8 p.irr p.imr i (omega arith), h)
        (next_from-Acknowledged p n (i + 1) (omega arith) (extend p i below h))
]

-- The line that is acknowledged is the lowest one that is requested and not masked: its bit moves
-- from the request register to the service register, and the mask and the other bits stay. With
-- no such line the result is 0xFF and nothing changes.
pub nextintr-Acknowledged : (p : Pic) → let (irq, q) = nextintr p in Acknowledged p irq q
unfolding nextintr
nextintr-Acknowledged p = next_from-Acknowledged p 8 0 refl (λ j h. absurd (omega arith))
