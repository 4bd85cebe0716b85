-- ===== src/Uart.antt =====
-- src/chipset/uart.c and uart.h, the 8250 serial port, with the interrupt controllers of
-- src/chipset/i8259.c that it drives. A callback may change anything of the system, the port
-- included; it is a parameter. `ports_cbRegister` and `ports_cbUnregister` are left out, and so are the
-- fields `iir` and `lsr`, which no code reads.
pub mod Line
pub mod Serial
use pculator.Base.{
  ℕ, ◌+◌, Bool, true, false, not, ◌&&◌, Option, none, some, ◌==◌, ◌!=◌, if◌then◌else◌, bit_and,
  bit_or, u8, has, not8, ◌<<<◌, ◌>>>◌,
}
use pculator.Pic.{Pics, setlevelirq}

-- `UART_t`; `i8259` is the address of the controller, where there is one.
pub record Uart : Type 0 where
  pub rx : ℕ
  pub tx : ℕ
  pub rxnew : ℕ
  pub dlab : ℕ
  pub ien : ℕ
  pub lcr : ℕ
  pub mcr : ℕ
  pub msr : ℕ
  pub lastmsr : ℕ
  pub scratch : ℕ
  pub divisor : ℕ
  pub base : ℕ
  pub irq : ℕ
  pub pendirq : ℕ
  pub irq_line_active : ℕ
  pub i8259 : Option ℕ

-- The port, the controllers, and the state `D` of what is attached to the port.
pub record System (D : Type 0) : Type 0 where
  pub uart : Uart
  pub pics : Pics
  pub dev : D

abbrev pub irq_tx_enable : ℕ
irq_tx_enable = 0x02

abbrev pub irq_rx_enable : ℕ
irq_rx_enable = 0x01

abbrev pub pending_rx : ℕ
pending_rx = 0x01

abbrev pub pending_tx : ℕ
pending_tx = 0x02

abbrev pub pending_msr : ℕ
pending_msr = 0x04

abbrev pub pending_lsr : ℕ
pending_lsr = 0x08

abbrev pub mcr_out2 : ℕ
mcr_out2 = 0x08

abbrev pub mcr_loopback : ℕ
mcr_loopback = 0x10

-- `uart_wordmask`.
unfoldable pub wordmask : ℕ → ℕ
wordmask index =
    if index == 0 then 0x1F else if index == 1 then 0x3F else if index == 2 then 0x7F else 0xFF

unfoldable pub wants_irq : Uart → Bool
wants_irq u = u.pendirq != 0 && has u.mcr mcr_out2

unfoldable pub clear_pending : ℕ → Uart → Uart
clear_pending mask u = record u { pendirq = bit_and u.pendirq (not8 mask) }

-- A delta bit of the modem status.
unfoldable pub delta : (mask shown : ℕ) → Uart → ℕ
delta mask shown u = if bit_and u.msr mask != bit_and u.lastmsr mask then shown else 0x00

module _ {D : Type 0} where
  unfoldable pub set_uart : Uart → System D → System D
  set_uart u s = record s { uart = u }

  -- The call of `i8259_setlevelirq`.
  unfoldable pub drive : ℕ → System D → System D
  drive level s = elim s.uart.i8259 [
    | none ↦ s
    | some a ↦ record s { pics = setlevelirq a s.uart.irq level s.pics }
  ]

  unfoldable pub update_interrupt_line : System D → System D
  unfolding wants_irq set_uart
  update_interrupt_line s =
      if wants_irq s.uart
      then (if s.uart.irq_line_active == 0
          then drive 1 (set_uart (record s.uart { irq_line_active = 1 }) s)
          else s)
      else if s.uart.irq_line_active != 0
      then drive 0 (set_uart (record s.uart { irq_line_active = 0 }) s)
      else s

  -- A change of the fields, and the line after it.
  unfoldable pub change : Uart → System D → System D
  unfolding set_uart
  change u s = update_interrupt_line (set_uart u s)

  unfoldable pub rxdata : ℕ → System D → System D
  rxdata value s =
      let u = record s.uart { rx = value; rxnew = 1 } in
      change
        (if has u.ien irq_rx_enable then record u { pendirq = bit_or u.pendirq pending_rx } else u)
        s

  unfoldable pub read_rx : System D → ℕ × System D
  unfolding clear_pending
  read_rx s =
      if s.uart.dlab == 0
      then (s.uart.rx, change (clear_pending pending_rx (record s.uart { rxnew = 0 })) s)
      else (u8 s.uart.divisor, s)

  unfoldable pub read_ien : System D → ℕ × System D
  read_ien s = if s.uart.dlab == 0 then (s.uart.ien, s) else (u8 (s.uart.divisor >>> 8), s)

  unfoldable pub read_iir : System D → ℕ × System D
  unfolding clear_pending
  read_iir s =
      let u = s.uart in
      let ret = if u.pendirq != 0 then 0x00 else 0x01 in
      if has u.pendirq pending_lsr
      then (bit_or ret 0x06, change u s)
      else if has u.pendirq pending_rx
      then (bit_or ret 0x04, change u s)
      else if has u.pendirq pending_tx
      then (bit_or ret 0x02, change (clear_pending pending_tx u) s)
      else (ret, change u s)

  unfoldable pub read_lsr : System D → ℕ × System D
  unfolding clear_pending
  read_lsr s = (
    bit_or 0x60 (if s.uart.rxnew != 0 then 0x01 else 0x00),
    change (clear_pending pending_lsr s.uart) s,
  )

  unfoldable pub read_msr : System D → ℕ × System D
  unfolding clear_pending delta
  read_msr s =
      let u = s.uart in
      (
        bit_or (bit_or (bit_or (bit_and u.msr 0xF0) (delta 0x80 0x08 u)) (delta 0x20 0x02 u))
            (delta 0x10 0x01 u),
        change (clear_pending pending_msr (record u { lastmsr = u.msr })) s,
      )

  unfoldable pub readport : ℕ → System D → ℕ × System D
  readport addr s =
      let port = bit_and addr 7 in
      if port == 0
      then read_rx s
      else if port == 1
      then read_ien s
      else if port == 2
      then read_iir s
      else if port == 3
      then (s.uart.lcr, s)
      else if port == 4
      then (s.uart.mcr, s)
      else if port == 5
      then read_lsr s
      else if port == 6
      then read_msr s
      else (s.uart.scratch, s)

  unfoldable pub write_ien : ℕ → System D → System D
  unfolding set_uart
  write_ien value s =
      let u = s.uart in
      let v = record u { ien = value } in
      if u.dlab == 0
      then change
          (if not (has u.ien irq_rx_enable) && (has value irq_rx_enable && u.rxnew != 0)
            then record v { pendirq = bit_or u.pendirq pending_rx }
            else v)
          s
      else set_uart (record u { divisor = bit_or (bit_and u.divisor 0x00FF) (value <<< 8) }) s

  unfoldable pub remove : System D → System D
  unfolding set_uart drive
  remove s =
      if s.uart.base == 0
      then s
      else let t = if s.uart.irq_line_active != 0 then drive 0 s else s in
        set_uart (record t.uart { base = 0; irq_line_active = 0; pendirq = 0 }) t

  unfoldable pub init : Option ℕ → ℕ → ℕ → System D → System D
  unfolding set_uart
  init i8259 base irq s =
      set_uart
        (record {
          rx = 0;
          tx = 0;
          rxnew = 0;
          dlab = 0;
          ien = 0;
          lcr = 0;
          mcr = 0;
          msr = 0x30;
          lastmsr = 0;
          scratch = 0;
          divisor = 0;
          base = base;
          irq = irq;
          pendirq = 0;
          irq_line_active = 0;
          i8259 = i8259;
        })
        (remove s)

  -- `tx_cb` is what `txCb` does with a byte, and `mcr_cb` what `mcrCb` does; NULL is `none`.
  module _ (tx_cb mcr_cb : Option (ℕ → System D → System D)) where
    unfoldable pub transmitted : System D → System D
    transmitted s =
        change
          (if has s.uart.ien irq_tx_enable
            then record s.uart { pendirq = bit_or s.uart.pendirq pending_tx }
            else s.uart)
          s

    unfoldable pub transmit : ℕ → System D → System D
    transmit value s = elim tx_cb [ none ↦ s | some send ↦ transmitted (send value s) ]

    unfoldable pub write_tx : ℕ → System D → System D
    unfolding set_uart transmit rxdata
    write_tx value s =
        let u = s.uart in
        let sent = bit_and value (wordmask (bit_and u.lcr 3)) in
        let t = set_uart (record u { tx = sent }) s in
        if u.dlab == 0
        then (if has u.mcr mcr_loopback then rxdata sent t else transmit sent t)
        else set_uart (record u { divisor = bit_or (bit_and u.divisor 0xFF00) value }) s

    unfoldable pub write_mcr : ℕ → System D → System D
    unfolding set_uart
    write_mcr value s =
        let t = set_uart (record s.uart { mcr = value }) s in
        elim mcr_cb [
          | none ↦ update_interrupt_line t
          | some notify ↦ update_interrupt_line (notify value t)
        ]

    unfoldable pub writeport : ℕ → ℕ → System D → System D
    unfolding set_uart
    writeport addr value s =
        let port = bit_and addr 7 in
        if port == 0
        then write_tx value s
        else if port == 1
        then write_ien value s
        else if port == 3
        then set_uart (record s.uart { lcr = value; dlab = value >>> 7 }) s
        else if port == 4
        then write_mcr value s
        else if port == 7
        then set_uart (record s.uart { scratch = value }) s
        else s
