-- ===== src/Uart/Line.antt =====
-- The interrupt line of the port of src/chipset/uart.c.
use pculator.Base.{
  ℕ, ◌≡◌, ◌≤◌, refl, sym, ap, ◌∙◌, inl, inr, not, ◌&&◌, Option, none, some, List, [], ◌∷◌, ◌==◌,
  ◌!=◌, if◌then◌else◌, Bool-cases, choose, Option-cases, bit_and, has, arith,
}
use pculator.Pic.{setlevelirq}
use pculator.Uart.{
  Uart, System, wants_irq, set_uart, drive, update_interrupt_line, change, rxdata, clear_pending,
  read_rx, read_ien, read_iir, read_lsr, read_msr, readport, write_ien, remove, init, transmitted,
  transmit, write_tx, write_mcr, writeport, pending_lsr, pending_rx, pending_tx, mcr_loopback,
  irq_rx_enable, irq_tx_enable, wordmask,
}

-- What happens to a port: the processor reads and writes it, a byte arrives, and it is taken away or
-- set up again.
pub data Event : Type 0 where
  read : (addr : ℕ) → Event
  write : (addr value : ℕ) → Event
  arrival : (value : ℕ) → Event
  removal : Event
  setup : (i8259 : Option ℕ) (base irq : ℕ) → Event

module _ {D : Type 0} where
  -- The line is active exactly when an interrupt is pending and OUT2 is set.
  unfoldable pub IsInStep : System D → Type 0
  IsInStep s = s.uart.irq_line_active ≡ (if wants_irq s.uart then 1 else 0)

  -- The line is a flag.
  unfoldable pub IsLine : System D → Type 0
  IsLine s = s.uart.irq_line_active ≤ 1

  pub drive-uart : (level : ℕ) (s : System D) → (drive level s).uart ≡ s.uart
  unfolding drive
  drive-uart level s =
      elim s.uart.i8259
        as (λ o.
          (elim o as (λ _. System D) [
            | none ↦ s
            | some a ↦ record s { pics = setlevelirq a s.uart.irq level s.pics }
          ]).uart
          ≡ s.uart) [ none ↦ refl | some a ↦ refl ]

  pub IsInStep-IsLine : (s : System D) → IsInStep s → IsLine s
  unfolding IsInStep IsLine
  IsInStep-IsLine s h = elim (Bool-cases (wants_irq s.uart)) [
    | inl e ↦ ground (arith, h, e)
    | inr e ↦ ground (arith, h, e)
  ]

  of_uart : (s t : System D) → t.uart ≡ s.uart → IsInStep s → IsInStep t
  unfolding IsInStep
  of_uart s t e h =
      ap (λ (u : Uart). u.irq_line_active) e
      ∙ h
      ∙ ap (λ (u : Uart). if wants_irq u then 1 else 0) (sym e)

  pub update-IsInStep : (s : System D) → IsLine s → IsInStep (update_interrupt_line s)
  unfolding update_interrupt_line set_uart IsInStep IsLine wants_irq
  update-IsInStep s h = elim (Bool-cases (s.uart.pendirq != 0 && has s.uart.mcr 8)) [
    | inl e ↦ rw e (elim (Bool-cases (s.uart.irq_line_active == 0)) [
      | inl f ↦ rw f (
          let t : System D = record s { uart = record s.uart { irq_line_active = 1 } } in
          of_uart t (drive 1 t) (drive-uart 1 t) (rw e refl))
      | inr f ↦ rw (f, e) (ground (arith, h, f))
    ])
    | inr e ↦ rw e (elim (Bool-cases (s.uart.irq_line_active != 0)) [
      | inl f ↦ rw f (
          let t : System D = record s { uart = record s.uart { irq_line_active = 0 } } in
          of_uart t (drive 0 t) (drive-uart 0 t) (rw e refl))
      | inr f ↦ rw (f, e) (ground (arith, h, f))
    ])
  ]

  change-IsInStep : (u : Uart) (s : System D) → u.irq_line_active ≤ 1 → IsInStep (change u s)
  unfolding change set_uart IsLine
  change-IsInStep u s h = update-IsInStep (record s { uart = u }) h

  -- A change of fields that the line does not depend on.
  quiet :
      (u : Uart) (s : System D)
      → u.irq_line_active ≡ s.uart.irq_line_active
      → u.pendirq ≡ s.uart.pendirq
      → u.mcr ≡ s.uart.mcr
      → IsInStep s
      → IsInStep (set_uart u s)
  unfolding set_uart IsInStep wants_irq
  quiet u s e f g h = rw (e, f, g) h

  pub rxdata-IsInStep : (value : ℕ) (s : System D) → IsLine s → IsInStep (rxdata value s)
  unfolding rxdata IsLine
  rxdata-IsInStep value s h =
      change-IsInStep _ s
        (elim (Bool-cases (has s.uart.ien irq_rx_enable)) [ inl e ↦ rw e h | inr e ↦ rw e h ])

  read_iir-IsInStep : (s : System D) → IsLine s → IsInStep (read_iir s).1
  unfolding read_iir IsLine
  read_iir-IsInStep s h =
      let u = s.uart in
      elim (Bool-cases (has u.pendirq pending_lsr)) [
        | inl e ↦ rw e (change-IsInStep u s h)
        | inr e ↦ rw e (elim (Bool-cases (has u.pendirq pending_rx)) [
          | inl f ↦ rw f (change-IsInStep u s h)
          | inr f ↦ rw f (elim (Bool-cases (has u.pendirq pending_tx)) [
            | inl g ↦ rw g (change-IsInStep (clear_pending pending_tx u) s h)
            | inr g ↦ rw g (change-IsInStep u s h)
          ])
        ])
      ]

  pub readport-IsInStep : (addr : ℕ) (s : System D) → IsInStep s → IsInStep (readport addr s).1
  unfolding readport read_rx read_ien read_lsr read_msr clear_pending IsLine
  readport-IsInStep addr s h =
      let l = IsInStep-IsLine s h in
      let P : ℕ × System D → Type 0 = λ r. IsInStep r.1 in
      let port = bit_and addr 7 in
      choose P (port == 0) _ _ (choose P (s.uart.dlab == 0) _ _ (change-IsInStep _ s l) h) (
        choose P (port == 1) _ _ (choose P (s.uart.dlab == 0) _ _ h h) (
          choose P (port == 2) _ _ (read_iir-IsInStep s l) (
            choose P (port == 3) _ _ h (
              choose P (port == 4) _ _ h (
                choose P (port == 5) _ _ (change-IsInStep _ s l)
                  (choose P (port == 6) _ _ (change-IsInStep _ s l) h))))))

  pub remove-IsInStep : (s : System D) → IsInStep s → IsInStep (remove s)
  unfolding remove set_uart IsInStep wants_irq
  remove-IsInStep s h = elim (Bool-cases (s.uart.base == 0)) [ inl e ↦ rw e h | inr e ↦ rw e refl ]

  pub init-IsInStep :
      (i8259 : Option ℕ) (base irq : ℕ) (s : System D) → IsInStep (init i8259 base irq s)
  unfolding init set_uart IsInStep wants_irq
  init-IsInStep i8259 base irq s = refl

  -- The callbacks keep the line a flag.
  module _ (tx_cb mcr_cb : Option (ℕ → System D → System D))
      (tx_ok : (f : ℕ → System D → System D)
        → tx_cb ≡ some f
        → (v : ℕ) (s : System D) → IsLine s
        → IsLine (f v s))
      (mcr_ok : (f : ℕ → System D → System D)
        → mcr_cb ≡ some f
        → (v : ℕ) (s : System D) → IsLine s
        → IsLine (f v s)) where
    transmit-IsInStep :
        (value : ℕ) (s : System D) → IsInStep s → IsInStep (transmit tx_cb mcr_cb value s)
    unfolding transmit transmitted IsLine
    transmit-IsInStep value s h = elim (Option-cases tx_cb) [
      | inl e ↦ rw e h
      | inr (send, e) ↦ rw e (
          let l = tx_ok send e value s (IsInStep-IsLine s h) in
          change-IsInStep _ (send value s) (
            choose (λ (u : Uart). u.irq_line_active ≤ 1) (has (send value s).uart.ien irq_tx_enable)
              _ _ l l))
    ]

    write_tx-IsInStep :
        (value : ℕ) (s : System D) → IsInStep s → IsInStep (write_tx tx_cb mcr_cb value s)
    unfolding write_tx
    write_tx-IsInStep value s h =
        let sent = bit_and value (wordmask (bit_and s.uart.lcr 3)) in
        let t = set_uart (record s.uart { tx = sent }) s in
        let g : IsInStep t = quiet (record s.uart { tx = sent }) s refl refl refl h in
        choose IsInStep (s.uart.dlab == 0) _ _
          (choose IsInStep (has s.uart.mcr mcr_loopback) _ _
            (rxdata-IsInStep sent t (IsInStep-IsLine t g)) (transmit-IsInStep sent t g))
          (quiet _ s refl refl refl h)

    write_mcr-IsInStep :
        (value : ℕ) (s : System D) → IsInStep s → IsInStep (write_mcr tx_cb mcr_cb value s)
    unfolding write_mcr set_uart IsLine
    write_mcr-IsInStep value s h =
        let t = set_uart (record s.uart { mcr = value }) s in
        let l : IsLine t = IsInStep-IsLine s h in
        elim (Option-cases mcr_cb) [
          | inl e ↦ rw e (update-IsInStep t l)
          | inr (notify, e) ↦ rw e (update-IsInStep (notify value t) (mcr_ok notify e value t l))
        ]

    write_ien-IsInStep : (value : ℕ) (s : System D) → IsInStep s → IsInStep (write_ien value s)
    unfolding write_ien IsLine
    write_ien-IsInStep value s h =
        let l = IsInStep-IsLine s h in
        choose IsInStep (s.uart.dlab == 0) _ _
          (change-IsInStep _ s (
            choose (λ (u : Uart). u.irq_line_active ≤ 1)
              (not (has s.uart.ien irq_rx_enable) && (has value irq_rx_enable && s.uart.rxnew != 0))
              _ _ l l))
          (quiet _ s refl refl refl h)

    pub writeport-IsInStep :
        (addr value : ℕ) (s : System D)
        → IsInStep s
        → IsInStep (writeport tx_cb mcr_cb addr value s)
    unfolding writeport
    writeport-IsInStep addr value s h =
        let port = bit_and addr 7 in
        choose IsInStep (port == 0) _ _ (write_tx-IsInStep value s h) (
          choose IsInStep (port == 1) _ _ (write_ien-IsInStep value s h) (
            choose IsInStep (port == 3) _ _ (quiet _ s refl refl refl h) (
              choose IsInStep (port == 4) _ _ (write_mcr-IsInStep value s h)
                (choose IsInStep (port == 7) _ _ (quiet _ s refl refl refl h) h))))

    pub happens : Event → System D → System D
    happens (read addr) s = (readport addr s).1
    happens (write addr value) s = writeport tx_cb mcr_cb addr value s
    happens (arrival value) s = rxdata value s
    happens removal s = remove s
    happens (setup i8259 base irq) s = init i8259 base irq s

    pub history : List Event → System D → System D
    history [] s = s
    history (e ∷ es) s = history es (happens e s)

    -- After any sequence of events from a port that is set up, its interrupt line is active exactly
    -- when an interrupt is pending and OUT2 is set: reads, writes, bytes that arrive, in loopback mode
    -- too, and removals. The callbacks may do anything that leaves the line a flag.
    pub history-IsInStep :
        (es : List Event) (i8259 : Option ℕ) (base irq : ℕ) (s : System D)
        → IsInStep (history es (init i8259 base irq s))
    unfolding happens history
    history-IsInStep es i8259 base irq s =
        from es (init i8259 base irq s) (init-IsInStep i8259 base irq s)
      where
        each : (e : Event) (s : System D) → IsInStep s → IsInStep (happens e s)
        each (read addr) s h = readport-IsInStep addr s h
        each (write addr value) s h = writeport-IsInStep addr value s h
        each (arrival value) s h = rxdata-IsInStep value s (IsInStep-IsLine s h)
        each removal s h = remove-IsInStep s h
        each (setup i8259 base irq) s h = init-IsInStep i8259 base irq s

        from : (es : List Event) (s : System D) → IsInStep s → IsInStep (history es s)
        from [] s h = h
        from (e ∷ es) s h = from es (happens e s) (each e s h)
