-- ===== src/Tests/Pins.antt =====
-- A bus with one card in slot 3, routed to interrupt request 11.
use pculator.Base.{◌==◌, ℕ, ◌-◌, ◌≤◌, ◌≡◌, refl, false, some, update, ◌!=◌, ◌==◌, arith}
use pculator.Pci.{
  Sys, slot_route_pin, register_slot, set_irq_routing, raise_irq, lower_irq, drive, release, init,
  update_irq_line, set_state, set_refcount,
}
use pculator.Pci.Counting.{Counted, total}
use pculator.Pci.Level.{lower_irq-slave}
use pculator.Pic.{setlevelirq, doirq, clearirq, sync_slave, sync_cascade, sync_to, has_pending}
use pculator.Pic.Cascade.{IsLinked, IsCascaded, OnlyLine, Drives}
use pculator.Pci.Reach.{Reach, here, next, raise, route, add_slot, Reach-Counted}
use pculator.Tests.Pics.{pair}

abbrev bare : Sys ℕ
bare = record { pci = init 1 (some 0) (some 1); pics = pair; dev = 0 }

abbrev plugged : Sys ℕ
plugged = record bare { pci = register_slot 3 0 1 2 3 4 bare.pci }

abbrev board : Sys ℕ
board = set_irq_routing 1 11 plugged

abbrev asserting : Sys ℕ
asserting = raise_irq 3 1 board

board-Reach : Reach bare board
unfolding init
board-Reach = next (next here (add_slot 3 0 1 2 3 4 (λ i h. refl))) (route 1 11)

asserting-Reach : Reach bare asserting
asserting-Reach = next board-Reach (raise 3 1)

board-Counted : Counted board.pci
board-Counted r h = (Reach-Counted 1 (some 0) (some 1) pair 0 board r board-Reach h).0

asserting-Counted : Counted asserting.pci
asserting-Counted r h = (Reach-Counted 1 (some 0) (some 1) pair 0 asserting r asserting-Reach h).0

Reach-Counted_example :
    (asserting.pci.route_refcount 0 ≡ total asserting.pci 0)
    × (asserting.pci.route_refcount 0 ≤ 128)
Reach-Counted_example =
    Reach-Counted 1 (some 0) (some 1) pair 0 asserting 0 asserting-Reach (omega arith)

-- One pin asserts.
one_pin : asserting.pci.route_refcount 0 ≡ 1
unfolding raise_irq set_irq_routing update_irq_line register_slot slot_route_pin set_state
    set_refcount init
one_pin = refl

quiet_pin : ((board.pci.slot 3).irq_state 0 != 0) ≡ false
unfolding set_irq_routing update_irq_line register_slot init
quiet_pin = refl

loud_pin : ((asserting.pci.slot 3).irq_state 0 == 0) ≡ false
unfolding raise_irq set_irq_routing update_irq_line register_slot slot_route_pin set_state
    set_refcount init
loud_pin = refl

asserting-pic_slave : asserting.pci.pic_slave ≡ some 1
unfolding raise_irq set_irq_routing update_irq_line register_slot slot_route_pin set_state
    set_refcount init
asserting-pic_slave = refl

routed : asserting.pci.route_irq (slot_route_pin asserting.pci 3 1 - 1) ≡ 11
unfolding raise_irq set_irq_routing update_irq_line register_slot slot_route_pin set_state
    set_refcount init
routed = refl

asserting-IsLinked : IsLinked asserting.pics 0 1
unfolding raise_irq set_irq_routing update_irq_line register_slot slot_route_pin set_state
    set_refcount init drive setlevelirq doirq sync_slave clearirq release sync_cascade sync_to
    has_pending
asserting-IsLinked = record {
  up = refl;
  down = refl;
  top = refl;
  bottom = refl;
  apart = λ e. ground arith;
}

lower_irq-slave_example :
    let t = lower_irq 3 1 asserting in
    let r = slot_route_pin asserting.pci 3 1 - 1 in
    Drives asserting.pics t.pics 0 1 (asserting.pci.route_irq r - 8) (total t.pci r != 0)
    × IsCascaded t.pics 0 1
    × OnlyLine (update asserting.pics 1 (t.pics 1)) t.pics 0
lower_irq-slave_example =
    lower_irq-slave 3 1 0 1 asserting asserting-Counted refl loud_pin asserting-pic_slave
      asserting-IsLinked (omega (arith, routed)) (omega (arith, routed))
