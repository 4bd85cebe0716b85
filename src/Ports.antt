-- ===== src/Ports.antt =====
-- src/ports.c: the table of handlers for the port addresses of the processor. The devices behind the
-- handlers share one state `D`, and a handler is a function on it with `udata` bound.
pub mod Table
pub mod Handlers
pub mod Reached
use pculator.Base.{
  ℕ, zero, suc, ◌+◌, ◌-◌, Bool, true, false, ◌&&◌, ◌||◌, Option, none, some, ◌==◌, ◌!=◌, ltb, leb,
  if◌then◌else◌, update, bit_and, bit_or, u8, u16, u32, ◌<<<◌, ◌>>>◌,
}

-- `struct ports_s`.
pub record Port (D : Type 0) : Type 0 where
  pub readcb : Option (D → ℕ → ℕ × D)
  pub writecb : Option (D → ℕ → ℕ → D)
  pub readcb_w : Option (D → ℕ → ℕ × D)
  pub writecb_w : Option (D → ℕ → ℕ → D)
  pub readcb_l : Option (D → ℕ → ℕ × D)
  pub writecb_l : Option (D → ℕ → ℕ → D)
  pub start : ℕ
  pub size : ℕ
  pub used : ℕ

-- `searched` is `lastportmap` and one; `a20_gate` is the field of the processor.
pub record Ports (D : Type 0) : Type 0 where
  pub ports : ℕ → Port D
  pub searched : ℕ
  pub a20_gate : ℕ
  pub dev : D

-- One more than the last port address of a range.
abbrev pub range_end : ℕ → ℕ → ℕ
range_end start count = if ltb 0x10000 (u32 (start + count)) then 0x10000 else u32 (start + count)

module _ {D : Type 0} where
  unfoldable pub serves : Port D → ℕ → Bool
  serves p addr = p.used != 0 && (leb p.start addr && ltb addr (u32 (p.start + p.size)))

  -- The highest of the first `n` slots that serves the address.
  unfoldable pub highest : ℕ → (ℕ → Port D) → ℕ → Option ℕ
  unfolding serves
  highest zero ports addr = none
  highest (suc n) ports addr =
      let rest = highest n ports addr in if serves (ports n) addr then some n else rest

  -- `none` is the result -1.
  unfoldable pub getportmap : Ports D → ℕ → Option ℕ
  getportmap s addr = highest s.searched s.ports addr

  -- A handler of the slot that serves the address.
  unfoldable pub handler : {A : Type 0} → (Port D → Option A) → Ports D → ℕ → Option A
  unfolding getportmap
  handler {A} field s addr = elim (getportmap s addr) as (λ _. Option A) [
    | none ↦ none
    | some i ↦ field (s.ports i)
  ]

  unfoldable pub port_write : ℕ → ℕ → Ports D → Ports D
  unfolding handler
  port_write portnum value s = elim (handler Port.writecb s portnum) as (λ _. Ports D) [
    | some f ↦ record s { dev = f s.dev portnum value }
    | none ↦
        if portnum == 0x92 then record s { a20_gate = if bit_and value 2 != 0 then 1 else 0 } else s
  ]

  unfoldable pub port_writew : ℕ → ℕ → Ports D → Ports D
  unfolding handler port_write
  port_writew portnum value s = elim (handler Port.writecb_w s portnum) as (λ _. Ports D) [
    | some f ↦ record s { dev = f s.dev portnum value }
    | none ↦ port_write (u16 (portnum + 1)) (u8 (value >>> 8)) (port_write portnum (u8 value) s)
  ]

  unfoldable pub port_writel : ℕ → ℕ → Ports D → Ports D
  unfolding handler port_write
  port_writel portnum value s = elim (handler Port.writecb_l s portnum) as (λ _. Ports D) [
    | some f ↦ record s { dev = f s.dev portnum value }
    | none ↦ port_write (u16 (portnum + 3)) (u8 (value >>> 24)) (
        port_write (u16 (portnum + 2)) (u8 (value >>> 16))
          (port_write (u16 (portnum + 1)) (u8 (value >>> 8)) (port_write portnum (u8 value) s)))
  ]

  unfoldable pub port_read : ℕ → Ports D → ℕ × Ports D
  unfolding handler
  port_read portnum s = elim (handler Port.readcb s portnum) as (λ _. ℕ × Ports D) [
    | some f ↦ let (value, d) = f s.dev portnum in (value, record s { dev = d })
    | none ↦ (if portnum == 0x92 then (if s.a20_gate != 0 then 0x02 else 0x00) else 0xFF, s)
  ]

  unfoldable pub port_readw : ℕ → Ports D → ℕ × Ports D
  unfolding handler port_read
  port_readw portnum s = elim (handler Port.readcb_w s portnum) as (λ _. ℕ × Ports D) [
    | some f ↦ let (value, d) = f s.dev portnum in (value, record s { dev = d })
    | none ↦
        let (lo, s') = port_read portnum s in
        let (hi, s'') = port_read (u16 (portnum + 1)) s' in (bit_or lo (u16 (hi <<< 8)), s'')
  ]

  unfoldable pub port_readl : ℕ → Ports D → ℕ × Ports D
  unfolding handler port_read
  port_readl portnum s = elim (handler Port.readcb_l s portnum) as (λ _. ℕ × Ports D) [
    | some f ↦ let (value, d) = f s.dev portnum in (value, record s { dev = d })
    | none ↦
        let (a, s1) = port_read portnum s in
        let (b, s2) = port_read (u16 (portnum + 1)) s1 in
        let (c, s3) = port_read (u16 (portnum + 2)) s2 in
        let (d, s4) = port_read (u16 (portnum + 3)) s3 in
        (bit_or (bit_or (bit_or a (b <<< 8)) (c <<< 16)) (d <<< 24), s4)
  ]

  unfoldable pub find_free : ℕ → ℕ → (ℕ → Port D) → Option ℕ
  find_free zero i ports = none
  find_free (suc n) i ports =
      let rest = find_free n (i + 1) ports in if Port.used (ports i) == 0 then some i else rest

  -- The arguments but `start` and `count` are the handlers of `p`; `none` is the exit of the program.
  unfoldable pub cb_register_ex : ℕ → ℕ → Port D → Ports D → Option (Ports D)
  cb_register_ex start count p s = elim (find_free 64 0 s.ports) as (λ _. Option (Ports D)) [
    | none ↦ none
    | some i ↦ some (record s {
      ports = update s.ports i (record p { start = start; size = count; used = 1 });
      searched = if ltb i s.searched then s.searched else i + 1;
    })
  ]

  unfoldable pub cb_register : ℕ → ℕ → Port D → Ports D → Option (Ports D)
  unfolding cb_register_ex
  cb_register start count p =
      cb_register_ex start count (record p { readcb_l = none; writecb_l = none })

  unfoldable pub no_port : Port D
  no_port = record {
    readcb = none;
    writecb = none;
    readcb_w = none;
    writecb_w = none;
    readcb_l = none;
    writecb_l = none;
    start = 0;
    size = 0;
    used = 0;
  }

  unfoldable pub overlaps : ℕ → ℕ → Port D → Bool
  overlaps start end p = p.used != 0 && (ltb start (u32 (p.start + p.size)) && ltb p.start end)

  -- The first `n` slots.
  unfoldable pub drop_range : ℕ → ℕ → ℕ → (ℕ → Port D) → ℕ → Port D
  unfolding overlaps no_port
  drop_range zero start end ports = ports
  drop_range (suc n) start end ports =
      let rest = drop_range n start end ports in
      if overlaps start end (rest n) then update rest n no_port else rest

  -- One more than the highest of the first `n` slots in use, or 0.
  unfoldable pub count_used : ℕ → (ℕ → Port D) → ℕ
  count_used zero ports = 0
  count_used (suc n) ports =
      let rest = count_used n ports in if Port.used (ports n) != 0 then n + 1 else rest

  unfoldable pub cb_unregister : ℕ → ℕ → Ports D → Ports D
  cb_unregister start count s =
      if count == 0 || leb 0x10000 start
      then s
      else let ports = drop_range 64 start (range_end start count) s.ports in
        record s { ports = ports; searched = count_used 64 ports }

  -- The first `n` slots.
  unfoldable pub clear_ports : ℕ → (ℕ → Port D) → ℕ → Port D
  unfolding no_port
  clear_ports zero ports = ports
  clear_ports (suc n) ports =
      let rest = clear_ports n ports in
      update rest n (record no_port { start = Port.start (rest n); size = Port.size (rest n) })

  unfoldable pub ports_init : Ports D → Ports D
  unfolding clear_ports
  ports_init s = record s { ports = clear_ports 64 s.ports }
