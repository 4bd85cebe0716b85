-- ===== src/Cpu/Interrupt.antt =====
-- cpu_interruptCheck of src/cpu/cpu.c: the processor takes the next interrupt from the controllers.
use pculator.Base.{
  ℕ, zero, suc, ◌+◌, ◌≡◌, ◌≢◌, refl, sym, ap, ◌∙◌, true, false, not, ◌&&◌, ◌==◌, ◌!=◌,
  if◌then◌else◌, arith, Option, none, some, inl, inr, Bool-cases, update, update_self, update_ne,
  bit_and, u8, not8, ◌<<<◌, has, ◌>>>◌, bit,
}
use pculator.Pic.{Pic, Pics, has_pending, nextintr, next_from}
use pculator.Pic.Priority.{Acknowledged, idle, taken, nextintr-Acknowledged}
use pculator.Pic.Cascade.{IsLinked, IsCascaded}

-- What the check returns: `none` for 0, and the vector that is handed to `cpu_intcall` for 1, after
-- `hltstate` has been cleared.
pub record Check : Type 0 where
  pub vector : Option ℕ
  pub pics : Pics

-- The slave's turn, after the master `a` has acknowledged line 2.
unfoldable pub check_slave : ℕ → ℕ → Pics → Check
check_slave a b s =
    if has_pending (s b) != 0
    then (let (irqnum, q) = nextintr (s b) in
        record { vector = some (u8 (irqnum + q.intoffset)); pics = update s b q })
    else record {
      vector = none;
      pics = update s a (record (s a) { isr = bit_and (s a).isr (not8 (1 <<< 2)) });
    }

unfoldable pub acknowledged : ℕ → ℕ → ℕ → Pics → Check
acknowledged a slave irqnum s =
    let own : Check = record { vector = some (u8 (irqnum + (s a).intoffset)); pics = s } in
    if irqnum == 2 && slave == 0
    then elim (s a).slave as (λ _. Check) [ none ↦ own | some b ↦ check_slave a b s ]
    else own

-- `slave` is not 0 where the caller asks a slave itself.
unfoldable pub interrupt_check : (trap_toggle ifl : ℕ) → ℕ → ℕ → Pics → Check
interrupt_check trap_toggle ifl a slave s =
    if trap_toggle == 0 && ifl != 0 && has_pending (s a) != 0
    then (let (irqnum, q) = nextintr (s a) in acknowledged a slave irqnum (update s a q))
    else record { vector = none; pics = s }

-- The check at a pair of controllers, once the master has been asked.
kept_slave : (p : Pic) (n i tmpirr : ℕ) → let (irq, q) = next_from n i tmpirr p in q.slave ≡ p.slave
unfolding next_from
kept_slave p zero i tmpirr = refl
kept_slave p (suc n) i tmpirr = elim (Bool-cases (has (tmpirr >>> i) 1)) [
  | inl e ↦ rw e refl
  | inr e ↦ rw e (kept_slave p n (i + 1) tmpirr)
]

IsCascaded-at :
    (t : Pics) (m a : ℕ) (x y : Pic)
    → t m ≡ x
    → t a ≡ y
    → bit x.irr 2 ≡ (not (bit x.isr 2) && (has_pending y != 0))
    → IsCascaded t m a
IsCascaded-at t m a x y e g h = rw (e, g) h

after_slave :
    (s : Pics) (m a : ℕ)
    → m ≢ a
    → bit (s m).irr 2 ≡ false
    → bit (s m).isr 2 ≡ true
    → IsCascaded (check_slave m a s).pics m a
unfolding check_slave
after_slave s m a apart asked served = elim (Bool-cases (has_pending (s a) != 0)) [
  | inl e ↦ rw e (
      let q : Pic = (nextintr (s a)).1 in
      IsCascaded-at (update s a q) m a (s m) q (update_ne s a m q apart) (update_self s a q)
        (ground arith))
  | inr e ↦ rw e (
      let p : Pic = record (s m) { isr = bit_and (s m).isr (not8 (1 <<< 2)) } in
      IsCascaded-at (update s m p) m a p (s a) (update_self s m p)
        (update_ne s m a p (λ g. apart (sym g))) (ground arith))
]

after_master :
    (s : Pics) (m a irq : ℕ) (q : Pic)
    → Acknowledged (s m) irq q
    → q.slave ≡ (s m).slave
    → IsLinked s m a
    → IsCascaded s m a
    → IsCascaded (acknowledged m 0 irq (update s m q)).pics m a
unfolding acknowledged
after_master s m a irq q (idle _ e none_pending) same linked ok =
    elim (Bool-cases (irq == 2 && 0 == 0)) [
      | inl g ↦ absurd (ground arith)
      | inr g ↦ rw g (
          IsCascaded-at (update s m (s m)) m a (s m) (s a) (update_self s m (s m))
            (update_ne s m a (s m) (λ w. linked.apart (sym w))) ok)
    ]
after_master s m a irq q (taken _ _ h pending below moves) same linked ok =
    elim (Bool-cases (irq == 2 && 0 == 0)) [
      | inl g ↦
          rw (g, update_self s m q, same ∙ linked.down)
            (after_slave (update s m q) m a linked.apart
              (ap (λ (p : Pic). bit p.irr 2) (update_self s m q)
                ∙ ground (arith, moves.requested 2 (omega arith)))
              (ap (λ (p : Pic). bit p.isr 2) (update_self s m q)
                ∙ ground (arith, moves.in_service 2 (omega arith))))
      | inr g ↦ rw g (
          IsCascaded-at (update s m q) m a q (s a) (update_self s m q)
            (update_ne s m a q (λ w. linked.apart (sym w)))
            (ground (arith, moves.requested 2 (omega arith), moves.in_service 2 (omega arith))))
    ]

-- If a master and its slave are linked and the master's cascade line is in step with the slave, the
-- line is in step again after the processor's check for an interrupt, whether it takes one of the
-- master, one of the slave or none.
pub interrupt_check-IsCascaded :
    (trap_toggle ifl : ℕ) (s : Pics) (m a : ℕ)
    → IsLinked s m a
    → IsCascaded s m a
    → IsCascaded (interrupt_check trap_toggle ifl m 0 s).pics m a
unfolding interrupt_check nextintr
interrupt_check-IsCascaded trap_toggle ifl s m a linked ok =
    elim (Bool-cases (trap_toggle == 0 && ifl != 0 && has_pending (s m) != 0)) [
      | inl e ↦ rw e (
          after_master s m a _ _ (nextintr-Acknowledged (s m))
            (kept_slave (s m) 8 0 (bit_and (s m).irr (not8 (s m).imr))) linked ok)
      | inr e ↦ rw e ok
    ]
