-- ===== src/Pci/Reach.antt =====
-- The calls of src/pci.c as steps, from `pci_init` on.
use pculator.Base.{
  ℕ, zero, suc, ◌<◌, ◌≤◌, ◌≡◌, refl, sym, ap, ◌∙◌, Option, ◌||◌, ◌==◌, ltb, leb, arith, Bool-cases,
  inl, inr, ==_iff,
}
use pculator.Pic.{Pics}
use pculator.Pci.{
  Pci, Sys, Function, max_slots, max_functions, init, raise_irq, lower_irq, set_irq_routing,
  register_slot, register_device, reset, release_from, clear_states, set_refcount,
}
use pculator.Pci.Counting.{
  total, total_ext, total_quiet, asserts_same, asserts_quiet, Counted, total-le,
}
use pculator.Pci.Irq.{pci-update_irq_line, raise_irq-Counted, lower_irq-Counted}

module _ {D : Type 0} where
  -- A slot is registered before any of its pins asserts: `pci_register_slot` forgets the pins' state
  -- and leaves the counts.
  abbrev pub IsQuiet : Pci D → ℕ → Type 0
  IsQuiet p slot = (i : ℕ) → i < 4 → (p.slot slot).irq_state i ≡ 0

  pub data Step (s : Sys D) : Sys D → Type 0 where
    raise : (slot intpin : ℕ) → Step s (raise_irq slot intpin s)
    lower : (slot intpin : ℕ) → Step s (lower_irq slot intpin s)
    route : (pin irq : ℕ) → Step s (set_irq_routing pin irq s)
    clear : Step s (reset s)
    add_slot :
        (slot type a b c d : ℕ)
        → IsQuiet s.pci slot
        → Step s (record s { pci = register_slot slot type a b c d s.pci })
    add_device :
        (slot function : ℕ) (f : Function D)
        → Step s (record s { pci = register_device slot function f s.pci })

  pub data Reach (s : Sys D) : Sys D → Type 0 where
    here : Reach s s
    next : {t u : Sys D} → Reach s t → Step t u → Reach s u

  init_quiet :
      (p : Pci D)
      → ((r : ℕ) → r < 4 → p.route_refcount r ≡ 0)
      → ((b i : ℕ) → b < max_slots → i < 4 → (p.slot b).irq_state i ≡ 0)
      → Counted p
  init_quiet p h z r l =
      h r l ∙ sym (total_quiet p r (λ b i x y. asserts_quiet p r b i (z b i x y)))

  init-Counted : (type : ℕ) (m a : Option ℕ) (p : Pci D) → p ≡ init type m a → Counted p
  unfolding init
  init-Counted type m a p e =
      init_quiet p (λ r l. ap (λ (q : Pci D). q.route_refcount r) e)
        (λ b i x y. ap (λ (q : Pci D). (q.slot b).irq_state i) e)

  set_irq_routing-Counted :
      (pin irq : ℕ) (s : Sys D) → Counted s.pci → Counted (set_irq_routing pin irq s).pci
  unfolding set_irq_routing
  set_irq_routing-Counted pin irq s c = elim (Bool-cases (ltb pin 1 || ltb 4 pin)) [
    | inl bad ↦ rw bad c
    | inr good ↦
        rw (good, pci-update_irq_line)
          (λ r l. c r l ∙ total_ext s.pci _ r (λ b i x y. asserts_same s.pci _ r b i refl refl))
  ]

  register_slot-Counted :
      (slot type a b c d : ℕ) (p : Pci D)
      → IsQuiet p slot
      → Counted p
      → Counted (register_slot slot type a b c d p)
  unfolding register_slot
  register_slot-Counted slot type a b c d p quiet h r l = elim (Bool-cases (leb max_slots slot)) [
    | inl bad ↦ rw bad (h r l)
    | inr good ↦ rw good (
        h r l
        ∙ total_ext p _ r (λ s i x y. elim (Bool-cases (s == slot)) [
          | inl e ↦
              asserts_quiet p r s i (rw ((==_iff s slot).0 e) (quiet i y))
              ∙ sym (asserts_quiet _ r s i (rw e))
          | inr e ↦ asserts_same p _ r s i (rw e) (rw e)
        ]))
  ]

  register_device-Counted :
      (slot function : ℕ) (f : Function D) (p : Pci D)
      → Counted p
      → Counted (register_device slot function f p)
  unfolding register_device
  register_device-Counted slot function f p h r l =
      elim (Bool-cases (leb max_slots slot || leb max_functions function)) [
        | inl bad ↦ rw bad (h r l)
        | inr good ↦ rw good (
            h r l
            ∙ total_ext p _ r (λ s i x y. elim (Bool-cases (s == slot)) [
              | inl e ↦
                  asserts_same p _ r s i (rw (e, (==_iff s slot).0 e)) (rw (e, (==_iff s slot).0 e))
              | inr e ↦ asserts_same p _ r s i (rw e) (rw e)
            ]))
      ]

  cleared : (n : ℕ) (p : Pci D) (b i : ℕ) → b < n → ((clear_states n p).slot b).irq_state i ≡ 0
  unfolding clear_states
  cleared zero p b i h = absurd (omega arith)
  cleared (suc n) p b i h = elim (Bool-cases (b == n)) [
    | inl e ↦ rw e
    | inr e ↦ rw e (cleared n p b i (ground arith))
  ]

  refcount-clear_states : (n : ℕ) (p : Pci D) → (clear_states n p).route_refcount ≡ p.route_refcount
  unfolding clear_states
  refcount-clear_states zero p = refl
  refcount-clear_states (suc n) p = refcount-clear_states n p

  released : (s : Sys D) (r : ℕ) → r < 4 → (release_from 4 0 s).pci.route_refcount r ≡ 0
  unfolding release_from set_refcount
  released s r h = ground arith

  reset-Counted : (s : Sys D) → Counted (reset s).pci
  unfolding reset
  reset-Counted s =
      init_quiet _
        (λ r l.
          ap (λ (f : ℕ → ℕ). f r) (refcount-clear_states max_slots (release_from 4 0 s).pci)
          ∙ released s r l)
        (λ b i x y. cleared max_slots (release_from 4 0 s).pci b i x)

  -- Every call keeps the counts right.
  Step-Counted : {s t : Sys D} → Counted s.pci → Step s t → Counted t.pci
  Step-Counted {s} c (raise slot intpin) = raise_irq-Counted slot intpin s c
  Step-Counted {s} c (lower slot intpin) = lower_irq-Counted slot intpin s c
  Step-Counted {s} c (route pin irq) = set_irq_routing-Counted pin irq s c
  Step-Counted {s} c clear = reset-Counted s
  Step-Counted {s} h (add_slot slot type a b c d quiet) =
      register_slot-Counted slot type a b c d s.pci quiet h
  Step-Counted {s} h (add_device slot function f) = register_device-Counted slot function f s.pci h

  Reach-Counted_from : {s t : Sys D} → Counted s.pci → Reach s t → Counted t.pci
  Reach-Counted_from c here = c
  Reach-Counted_from c (next r st) = Step-Counted (Reach-Counted_from c r) st

  -- After `pci_init` and any sequence of calls that registers a slot only while its pins are quiet,
  -- each of the four counts is the number of pins that assert and are routed to its line, and at most
  -- 128, so that the byte that holds it never wraps.
  pub Reach-Counted :
      (type : ℕ) (m a : Option ℕ) (pics : Pics) (d : D) (t : Sys D) (r : ℕ)
      → Reach (record { pci = init type m a; pics = pics; dev = d }) t
      → r < 4
      → (t.pci.route_refcount r ≡ total t.pci r) × (t.pci.route_refcount r ≤ 128)
  Reach-Counted type m a pics d t r reach h =
      let e : t.pci.route_refcount r ≡ total t.pci r =
        Reach-Counted_from (init-Counted type m a (init type m a) refl) reach r h in
      (e, omega (arith, total-le t.pci r))
