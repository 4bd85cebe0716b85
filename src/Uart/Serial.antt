-- ===== src/Uart/Serial.antt =====
-- The bytes that go through the port of src/chipset/uart.c: loopback mode, and the divisor.
use pculator.Base.{
  ℕ, ◌+◌, ◌*◌, ◌≡◌, ◌≢◌, subst, ◌<◌, refl, sym, inl, inr, true, false, Option, ◌==◌, ◌!=◌,
  Bool-cases, choose, bit_and, bit_or, has, arith, two_bytes,
}
use pculator.Uart.{
  Uart, System, wants_irq, set_uart, update_interrupt_line, change, rxdata, clear_pending, read_rx,
  read_lsr, read_ien, readport, write_ien, write_tx, writeport, wordmask, mcr_loopback,
  irq_rx_enable, pending_rx,
}
use pculator.Uart.Line.{drive-uart}

-- The line changes nothing but itself and the controllers.
record SameUart (u v : Uart) : Type 0 where
  rx : v.rx ≡ u.rx
  rxnew : v.rxnew ≡ u.rxnew
  dlab : v.dlab ≡ u.dlab
  lcr : v.lcr ≡ u.lcr
  divisor : v.divisor ≡ u.divisor

module _ {D : Type 0} where
  change-SameUart : (u : Uart) (s : System D) → SameUart u (change u s).uart
  unfolding change update_interrupt_line set_uart
  change-SameUart u s =
      let P : System D → Type 0 = λ t. SameUart u t.uart in
      let same : SameUart u u = record {
        rx = refl;
        rxnew = refl;
        dlab = refl;
        lcr = refl;
        divisor = refl;
      } in
      let up : System D = record s { uart = record u { irq_line_active = 1 } } in
      let down : System D = record s { uart = record u { irq_line_active = 0 } } in
      choose P (wants_irq u) _ _
        (choose P (u.irq_line_active == 0) _ _
          (subst (λ v. SameUart u v) (sym (drive-uart 1 up))
            (record { rx = refl; rxnew = refl; dlab = refl; lcr = refl; divisor = refl }))
          same)
        (choose P (u.irq_line_active != 0) _ _
          (subst (λ v. SameUart u v) (sym (drive-uart 0 down))
            (record { rx = refl; rxnew = refl; dlab = refl; lcr = refl; divisor = refl }))
          same)

  rxdata-uart :
      (value : ℕ) (s : System D)
      → ((rxdata value s).uart.rx ≡ value)
        × ((rxdata value s).uart.rxnew ≡ 1)
        × ((rxdata value s).uart.dlab ≡ s.uart.dlab)
  unfolding rxdata
  rxdata-uart value s =
      let u : Uart = record s.uart { rx = value; rxnew = 1 } in
      let v : Uart = record u { pendirq = bit_or u.pendirq pending_rx } in
      elim (Bool-cases (has s.uart.ien irq_rx_enable)) [
        | inl e ↦ rw e (let same = change-SameUart v s in (same.rx, same.rxnew, same.dlab))
        | inr e ↦ rw e (let same = change-SameUart u s in (same.rx, same.rxnew, same.dlab))
      ]

  module _ (tx_cb mcr_cb : Option (ℕ → System D → System D)) where
    -- In loopback mode a byte that is written comes back: after it, the line status shows a byte,
    -- the receiver gives the bits that the word length of the port keeps, and the line status then
    -- shows none. The divisor latch is not selected.
    pub loopback :
        (value : ℕ) (s : System D)
        → s.uart.dlab ≡ 0
        → has s.uart.mcr mcr_loopback ≡ true
        → let t = writeport tx_cb mcr_cb 0 value s in
          ((readport 5 t).0 ≡ 0x61)
          × ((readport 0 t).0 ≡ bit_and value (wordmask (bit_and s.uart.lcr 3)))
          × ((readport 5 (readport 0 t).1).0 ≡ 0x60)
    unfolding writeport write_tx readport read_rx read_lsr change wordmask
    loopback value s latch mode =
        let sent = bit_and value (wordmask (bit_and s.uart.lcr 3)) in
        let t = set_uart (record s.uart { tx = sent }) s in
        let r = rxdata sent t in
        let e : (s.uart.dlab == 0) ≡ true = ground (arith, latch) in
        let (byte, full, plain) = rxdata-uart sent t in
        let closed : (r.uart.dlab == 0) ≡ true = ground (arith, plain, latch) in
        let taken = change-SameUart (clear_pending pending_rx (record r.uart { rxnew = 0 })) r in
        rw (e, mode) (rw closed (rw (full, taken.rxnew) (refl, byte, refl)))

    -- The divisor of 16 bits is what was written to it: with the latch selected, its two bytes are
    -- written in turn and read back.
    pub divisor-writeport :
        (low high : ℕ) (s : System D)
        → low < 256
        → high < 256
        → s.uart.dlab ≢ 0
        → let t = writeport tx_cb mcr_cb 1 high (writeport tx_cb mcr_cb 0 low s) in
          (t.uart.divisor ≡ low + high * 256) × ((readport 0 t).0 ≡ low) × ((readport 1 t).0 ≡ high)
    unfolding writeport write_tx write_ien readport read_rx read_ien set_uart
    divisor-writeport low high s l h latch =
        let e : (s.uart.dlab == 0) ≡ false = ground (arith, latch) in
        rw e (
          rw e (
            rw (two_bytes s.uart.divisor low high l)
              (rw e (refl, omega (arith, l), omega (arith, l, h)))))
