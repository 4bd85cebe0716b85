-- ===== src/Pci/Level.antt =====
-- The level that src/pci.c drives on an interrupt line.
use pculator.Base.{
  ℕ, ◌-◌, ◌<◌, ◌≤◌, ◌≡◌, refl, sym, ap, ◌∙◌, true, false, ◌==◌, ◌!=◌, leb, some, u8, update, arith,
}
use pculator.Pic.{Pics, setlevelirq}
use pculator.Pic.Cascade.{IsLinked, IsCascaded, OnlyLine, Drives, setlevelirq-slave}
use pculator.Pci.{
  Pci, Sys, level, bad_pin, irq_disabled, drive, slot_route_pin, update_irq_line, lower_irq,
  set_state, set_refcount,
}
use pculator.Pci.Counting.{total, Counted}
use pculator.Pci.Irq.{
  slot_route_pin_range, pci-update_irq_line, line_of, pics-update_irq_line, lower_irq-Counted, held,
}

module _ {D : Type 0} where
  -- After the counts of line `r` change, the line is driven by whether any pin asserts it.
  redriven :
      (r : ℕ) (u : Sys D)
      → r < 4
      → Counted (update_irq_line r u).pci
      → let t = update_irq_line r u in t.pics ≡ line_of t.pci r (level (total t.pci r)) u.pics
  redriven r u h c =
      pics-update_irq_line r u h
      ∙ ap (λ (k : ℕ). line_of u.pci r (level k) u.pics)
          (ap (λ (q : Pci D). q.route_refcount r) (sym (pci-update_irq_line r u)) ∙ c r h)
      ∙ ap (λ (q : Pci D). line_of q r (level (total (update_irq_line r u).pci r)) u.pics)
          (sym (pci-update_irq_line r u))

  -- What lowering a pin of a slot that asserts does to the controllers.
  lower_irq-level :
      (slot intpin : ℕ) (s : Sys D)
      → Counted s.pci
      → bad_pin slot intpin ≡ false
      → ((s.pci.slot slot).irq_state (intpin - 1) == 0) ≡ false
      → let t = lower_irq slot intpin s in
        let r = slot_route_pin s.pci slot intpin - 1 in
        t.pics ≡ line_of t.pci r (level (total t.pci r)) s.pics
  unfolding lower_irq
  lower_irq-level slot intpin s c good on =
      rw (good, on, held slot intpin s.pci c good on)
        (redriven _ _ (omega (arith, slot_route_pin_range s.pci slot intpin good))
          (rw (good, on, held slot intpin s.pci c good on) at (lower_irq-Counted slot intpin s c)))

  lower_irq-pci :
      (slot intpin : ℕ) (s : Sys D)
      → Counted s.pci
      → bad_pin slot intpin ≡ false
      → ((s.pci.slot slot).irq_state (intpin - 1) == 0) ≡ false
      → let t = lower_irq slot intpin s in
        (t.pci.route_irq ≡ s.pci.route_irq) × (t.pci.pic_slave ≡ s.pci.pic_slave)
  unfolding lower_irq set_state set_refcount
  lower_irq-pci slot intpin s c good on =
      rw (good, on, held slot intpin s.pci c good on, pci-update_irq_line) (refl, refl)

  -- A request of the second controller is driven there.
  line_of-slave :
      (p : Pci D) (r a active : ℕ) (pics : Pics)
      → p.pic_slave ≡ some a
      → 8 ≤ p.route_irq r
      → p.route_irq r < 16
      → line_of p r active pics ≡ setlevelirq a (p.route_irq r - 8) active pics
  unfolding drive
  line_of-slave p r a active pics slave low high =
      let used : (p.route_irq r == irq_disabled) ≡ false = ground (arith, high) in
      let second : leb 8 (p.route_irq r) ≡ true = ground (arith, low) in
      let byte : u8 (p.route_irq r - 8) ≡ p.route_irq r - 8 = omega (arith, high) in
      rw (used, drive, second, slave) (ap (λ (n : ℕ). setlevelirq a n active pics) byte)

  -- Cards share an interrupt line. With true counts, for a pin of a slot that asserts and that is
  -- routed to interrupt request 8 to 15: when the pin is lowered, that line of the slave controller, the
  -- request less 8, is raised if another pin of any slot still asserts the route, and else it is
  -- lowered; the slave's other lines and registers stay, the master's line 2 is in step with the
  -- slave, and nothing else of either controller, and no further controller, changes. The slave is linked
  -- to a master.
  pub lower_irq-slave :
      (slot intpin m a : ℕ) (s : Sys D)
      → Counted s.pci
      → bad_pin slot intpin ≡ false
      → ((s.pci.slot slot).irq_state (intpin - 1) == 0) ≡ false
      → s.pci.pic_slave ≡ some a
      → IsLinked s.pics m a
      → 8 ≤ s.pci.route_irq (slot_route_pin s.pci slot intpin - 1)
      → s.pci.route_irq (slot_route_pin s.pci slot intpin - 1) < 16
      → let t = lower_irq slot intpin s in
        let r = slot_route_pin s.pci slot intpin - 1 in
        Drives s.pics t.pics m a (s.pci.route_irq r - 8) (total t.pci r != 0)
        × IsCascaded t.pics m a
        × OnlyLine (update s.pics a (t.pics a)) t.pics m
  lower_irq-slave slot intpin m a s c good on slave linked low high =
      let t = lower_irq slot intpin s in
      let r = slot_route_pin s.pci slot intpin - 1 in
      let (routes, second) = lower_irq-pci slot intpin s c good on in
      let irq : t.pci.route_irq r ≡ s.pci.route_irq r = ap (λ (f : ℕ → ℕ). f r) routes in
      let pics : t.pics ≡ setlevelirq a (s.pci.route_irq r - 8) (level (total t.pci r)) s.pics =
        lower_irq-level slot intpin s c good on
        ∙ line_of-slave t.pci r a (level (total t.pci r)) s.pics (second ∙ slave)
            (omega (arith, irq, low)) (omega (arith, irq, high))
        ∙ ap (λ (n : ℕ). setlevelirq a (n - 8) (level (total t.pci r)) s.pics) irq in
      let test : (level (total t.pci r) != 0) ≡ (total t.pci r != 0) = ground arith in
      let all =
        setlevelirq-slave s.pics m a (s.pci.route_irq r - 8) (level (total t.pci r)) linked in
      let fits = rw test at all in rw pics fits
