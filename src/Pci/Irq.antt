-- ===== src/Pci/Irq.antt =====
-- Raising, lowering and routing the interrupt pins of src/pci.c.
use pculator.Base.{
  ℕ, ◌+◌, ◌-◌, ◌≤◌, ◌<◌, ◌≡◌, refl, ap, true, false, ◌&&◌, ◌||◌, ◌==◌, ◌!=◌, ltb, leb,
  if◌then◌else◌, arith, u8, inl, inr, Bool-cases,
}
use pculator.Pic.{Pics}
use pculator.Pci.{
  Pci, Sys, max_slots, irq_disabled, level, bad_pin, slot_route_pin, set_state, set_refcount, drive,
  update_irq_line, raise_irq, lower_irq,
}
use pculator.Pci.Counting.{
  Counted, total-le, total-set_state, total-set_refcount, asserts-old, asserts-new,
}

good_pin :
    (slot intpin : ℕ)
    → bad_pin slot intpin ≡ false
    → (slot < max_slots) × (intpin - 1 < 4) × (intpin - 1 + 1 ≡ intpin)
good_pin slot intpin h = ground arith

module _ {D : Type 0} where
  pub pci-update_irq_line : (r : ℕ) (s : Sys D) → (update_irq_line r s).pci ≡ s.pci
  unfolding update_irq_line
  pci-update_irq_line r s = ground arith

  -- A good pin is routed to one of the four lines.
  pub slot_route_pin_range :
      (p : Pci D) (slot intpin : ℕ)
      → bad_pin slot intpin ≡ false
      → (1 ≤ slot_route_pin p slot intpin) × (slot_route_pin p slot intpin ≤ 4)
  unfolding slot_route_pin
  slot_route_pin_range p slot intpin h = ground arith

  refcount-set :
      (p : Pci D) (i k r : ℕ)
      → (set_refcount i k p).route_refcount r ≡ (if r == i then k else p.route_refcount r)
  unfolding set_refcount
  refcount-set p i k r = refl

  refcount-set_state :
      (p : Pci D) (slot i v r : ℕ) → (set_state slot i v p).route_refcount r ≡ p.route_refcount r
  unfolding set_state
  refcount-set_state p slot i v r = refl

  -- What both changes of a pin do to the counts, given the new state `v` and the new count `k`.
  module _ (p : Pci D) (slot intpin v k : ℕ) (good : bad_pin slot intpin ≡ false)
      (c : Counted p) where
    abbrev route : ℕ
    route = slot_route_pin p slot intpin

    abbrev q : Pci D
    q = set_refcount (route - 1) k (set_state slot (intpin - 1) v p)

    abbrev was : ℕ
    was = if (p.slot slot).irq_state (intpin - 1) != 0 then 1 else 0

    recount : (k + was ≡ p.route_refcount (route - 1) + (if v != 0 then 1 else 0)) → Counted q
    recount h r l =
        let (s4, i4, same) = good_pin slot intpin good in
        ground (
          arith,
          refcount-set (set_state slot (intpin - 1) v p) (route - 1) k r,
          refcount-set_state p slot (intpin - 1) v r,
          total-set_refcount (set_state slot (intpin - 1) v p) (route - 1) k r,
          total-set_state p slot (intpin - 1) v r s4 i4,
          asserts-old p slot (intpin - 1) r,
          asserts-new p slot (intpin - 1) v r,
          ap (slot_route_pin p slot) same,
          slot_route_pin_range p slot intpin good,
          c r l,
        )

  pub raise_test :
      (slot intpin : ℕ) (p : Pci D)
      → bad_pin slot intpin ≡ false
      → let r = slot_route_pin p slot intpin in (ltb r 1 || ltb 4 r) ≡ false
  raise_test slot intpin p good = ground (arith, slot_route_pin_range p slot intpin good)

  -- If each of the four counts is the number of pins that assert and are routed to its line, it still
  -- is after `pci_raise_irq` with any slot and pin.
  pub raise_irq-Counted :
      (slot intpin : ℕ) (s : Sys D) → Counted s.pci → Counted (raise_irq slot intpin s).pci
  unfolding raise_irq
  raise_irq-Counted slot intpin s c = elim (Bool-cases (bad_pin slot intpin)) [
    | inl bad ↦ rw bad c
    | inr good ↦ elim (Bool-cases ((s.pci.slot slot).irq_state (intpin - 1) != 0)) [
      | inl on ↦ rw (good, on) c
      | inr off ↦
          rw (good, off, raise_test slot intpin s.pci good, pci-update_irq_line)
            (recount s.pci slot intpin 1 _ good c (fits good off))
    ]
  ]
    where
      r : ℕ
      r = slot_route_pin s.pci slot intpin

      fits :
          bad_pin slot intpin ≡ false
          → ((s.pci.slot slot).irq_state (intpin - 1) != 0) ≡ false
          → u8 (s.pci.route_refcount (r - 1) + 1)
              + (if (s.pci.slot slot).irq_state (intpin - 1) != 0 then 1 else 0)
            ≡ s.pci.route_refcount (r - 1) + 1
      fits good off =
          ground
            (arith, c (r - 1), total-le s.pci (r - 1), slot_route_pin_range s.pci slot intpin good)

  -- A pin that asserts is counted.
  pub held :
      (slot intpin : ℕ) (p : Pci D)
      → Counted p
      → bad_pin slot intpin ≡ false
      → ((p.slot slot).irq_state (intpin - 1) == 0) ≡ false
      → let r = slot_route_pin p slot intpin in
        (leb 1 r && leb r 4 && p.route_refcount (r - 1) != 0) ≡ true
  held slot intpin p c good on =
      let r = slot_route_pin p slot intpin in
      let (s4, i4, same) = good_pin slot intpin good in
      ground (
        arith,
        c (r - 1),
        slot_route_pin_range p slot intpin good,
        ap (slot_route_pin p slot) same,
        total-set_state p slot (intpin - 1) 0 (r - 1) s4 i4,
        asserts-old p slot (intpin - 1) (r - 1),
        asserts-new p slot (intpin - 1) 0 (r - 1),
      )

  -- If each of the four counts is the number of pins that assert and are routed to its line, it still
  -- is after `pci_lower_irq` with any slot and pin.
  pub lower_irq-Counted :
      (slot intpin : ℕ) (s : Sys D) → Counted s.pci → Counted (lower_irq slot intpin s).pci
  unfolding lower_irq
  lower_irq-Counted slot intpin s c = elim (Bool-cases (bad_pin slot intpin)) [
    | inl bad ↦ rw bad c
    | inr good ↦ elim (Bool-cases ((s.pci.slot slot).irq_state (intpin - 1) == 0)) [
      | inl off ↦ rw (good, off) c
      | inr on ↦
          rw (good, on, held slot intpin s.pci c good on, pci-update_irq_line)
            (recount s.pci slot intpin 0 _ good c (drops good on))
    ]
  ]
    where
      r : ℕ
      r = slot_route_pin s.pci slot intpin

      drops :
          bad_pin slot intpin ≡ false
          → ((s.pci.slot slot).irq_state (intpin - 1) == 0) ≡ false
          → s.pci.route_refcount (r - 1)
              - 1
              + (if (s.pci.slot slot).irq_state (intpin - 1) != 0 then 1 else 0)
            ≡ s.pci.route_refcount (r - 1) + 0
      drops good on = ground (arith, held slot intpin s.pci c good on)

  -- What `pci_update_irq_line` does, its early returns included.
  abbrev pub line_of : Pci D → ℕ → ℕ → Pics → Pics
  line_of p r active pics =
      if p.route_irq r == irq_disabled then pics else drive p (p.route_irq r) active pics

  pub pics-update_irq_line :
      (r : ℕ) (s : Sys D)
      → r < 4
      → (update_irq_line r s).pics ≡ line_of s.pci r (level (s.pci.route_refcount r)) s.pics
  unfolding update_irq_line
  pics-update_irq_line r s h = ground arith
