-- ===== src/Tests/Chips.antt =====
-- The serial port, the timer and the flash chip on concrete inputs.
use pculator.Base.{
  ℕ, ◌+◌, ◌*◌, ◌≡◌, refl, subst, some-injective, false, Option, none, some, [], ◌∷◌, update, arith,
  ◌<<<◌,
}
use pculator.Pic.{zeroed, Pics}
use pculator.Uart
use pculator.Uart.Line.{IsInStep, IsLine, read, write, arrival, history, history-IsInStep}
use pculator.Uart.Serial.{loopback}
use pculator.Pit
use pculator.Pit.Program.{count_of, read-write}
use pculator.Pit.Tick.{IsPeriodic, requests, ticks, ticks-rate}
use pculator.Flash
use pculator.Keyboard
use pculator.Keyboard.Answer.{answer, rounds, received, received-answer}
use pculator.Flash.Boot.{IsBxt, writes, writes-boot}
use pculator.Flash.Commands.{takes_command, write-program}

abbrev no_pics : Pics
no_pics = λ _. zeroed

-- A port in loopback mode with OUT2 and words of 8 bits; the device counts the bytes it gets.
abbrev port : ℕ → Uart.System ℕ
port dlab = record {
  uart = record {
    rx = 0;
    tx = 0;
    rxnew = 0;
    dlab = dlab;
    ien = 1;
    lcr = 3;
    mcr = 0x18;
    msr = 0x30;
    lastmsr = 0;
    scratch = 0;
    divisor = 12;
    base = 0x3F8;
    irq = 4;
    pendirq = 0;
    irq_line_active = 0;
    i8259 = some 0;
  };
  pics = no_pics;
  dev = 0;
}

abbrev count_byte : Option (ℕ → Uart.System ℕ → Uart.System ℕ)
count_byte = some (λ _ s. record s { dev = s.dev + 1 })

counted-IsLine :
    (f : ℕ → Uart.System ℕ → Uart.System ℕ)
    → count_byte ≡ some f
    → (v : ℕ) (s : Uart.System ℕ) → IsLine s
    → IsLine (f v s)
unfolding IsLine
counted-IsLine f e v s h =
    subst (λ (g : ℕ → Uart.System ℕ → Uart.System ℕ). IsLine (g v s)) (some-injective _ _ e) h

history-IsInStep_example : IsInStep (
    history count_byte count_byte counted-IsLine counted-IsLine
      (write 1 1 ∷ write 4 8 ∷ arrival 65 ∷ read 0 ∷ [])
      (Uart.init (some 0) 0x3F8 4 (port 0)))
history-IsInStep_example =
    history-IsInStep count_byte count_byte counted-IsLine counted-IsLine
      (write 1 1 ∷ write 4 8 ∷ arrival 65 ∷ read 0 ∷ []) (some 0) 0x3F8 4 (port 0)

loopback_example :
    let t = Uart.writeport count_byte count_byte 0 0x41 (port 0) in
    ((Uart.readport 5 t).0 ≡ 0x61)
    × ((Uart.readport 0 t).0 ≡ 0x41)
    × ((Uart.readport 5 (Uart.readport 0 t).1).0 ≡ 0x60)
unfolding Uart.wordmask
loopback_example = loopback count_byte count_byte 0x41 (port 0) refl refl

-- Counter 2 is programmed in mode 3 with 0x0528.
read-write_example :
    let loaded = Pit.write 2 5 (Pit.write 2 0x28 (Pit.write 3 0xB6 Pit.init)) in
    let (first, rest) = Pit.read 2 (Pit.write 3 (2 <<< 6) loaded) in
    (loaded.counter 2 ≡ count_of (0x28 + 5 * 256)) × (first ≡ 0x28) × ((Pit.read 2 rest).0 ≡ 5)
read-write_example =
    read-write 2 (omega arith) 0xB6 0x28 5 Pit.init refl refl (omega arith) (omega arith)

-- The first counter in mode 2, with the least reload value.
abbrev running : Pit.System ℕ
running = record {
  timer = record {
    active = λ _. 1;
    counter = λ _. 100;
    reload = λ _. 25;
    mode = λ _. 2;
    dataflipflop = λ _. 0;
    bcd = λ _. 0;
    rlmode = λ _. 3;
    latch = λ _. 0;
    out = λ _. 0;
  };
  i8259 = 0;
  pics = no_pics;
  dev = 0;
}

abbrev no_gate : ℕ → ℕ → ℕ
no_gate state d = state

running-IsPeriodic : IsPeriodic running
running-IsPeriodic = record {
  active = λ e. omega arith;
  mode = refl;
  period = omega arith;
  reload = omega arith;
  positive = omega arith;
  counter = omega arith;
}

ticks-rate_example :
    (fired : ℕ) × ((ticks no_gate 10 running).timer.counter 0 + 10 * 25 ≡ 100 + fired * 25)
    × ((ticks no_gate 10 running).pics ≡ requests fired 0 no_pics)
    × IsPeriodic (ticks no_gate 10 running)
ticks-rate_example = ticks-rate no_gate 10 running running-IsPeriodic

abbrev chip : Flash.Flash
chip = record (Flash.bxt) { command = 0xFF }

chip-IsBxt : IsBxt chip
chip-IsBxt = record { size = refl; block_start = refl; block_end = refl; block_len = refl }

-- An erasure and a program of the boot block.
writes-boot_example :
    (writes ((0x1E000, 0x20) ∷ (0x1E000, 0xD0) ∷ (0x1FFF0, 0x40) ∷ (0x1FFF0, 0x12) ∷ []) chip).array
      0x1FFF0
    ≡ chip.array 0x1FFF0
writes-boot_example =
    writes-boot ((0x1E000, 0x20) ∷ (0x1E000, 0xD0) ∷ (0x1FFF0, 0x40) ∷ (0x1FFF0, 0x12) ∷ []) chip
      0x1FFF0 chip-IsBxt (omega arith) (omega arith)

write-program_example :
    let g = Flash.write 0xC0010 0x12 (Flash.write 0xC0010 0x40 chip) in
    let r = Flash.write 0 0xFF g in
    (Flash.read 0 g ≡ 0x80)
    × (r.array ≡ update chip.array 0x10 0x12)
    × (Flash.read 0xC0010 r ≡ 0x12)
unfolding takes_command
write-program_example = write-program 0xC0010 0x12 0 chip chip-IsBxt refl

abbrev idle : Keyboard.Device ℕ
idle = record {
  wantcmd = 0;
  out_new = none;
  command = 0xF2;
  last_scan_code = 0;
  state = 1;
  cmd_queue_start = 3;
  cmd_queue_end = 3;
  queue_start = 0;
  queue_end = 0;
  flags = 0;
  cmd_queue = λ _. 0;
  queue = λ _. 0;
  fifo_mask = 63;
  ignore = 0;
  scan = 1;
  own = 0;
}

abbrev keep : Keyboard.Device ℕ → Keyboard.Device ℕ
keep k = k

-- The identification of a keyboard.
received-answer_example :
    let ready : Keyboard.Device ℕ =
      record (answer (0xFA ∷ 0xAB ∷ 0x83 ∷ []) (Keyboard.queue_reset false idle)) { state = 4 } in
    let last : Keyboard.Device ℕ = rounds keep keep 3 ready in
    (received keep keep 3 ready ≡ some 0xFA ∷ some 0xAB ∷ some 0x83 ∷ [])
    × (last.state ≡ 5)
    × (last.cmd_queue_start ≡ last.cmd_queue_end)
received-answer_example = received-answer keep keep 0xFA (0xAB ∷ 0x83 ∷ []) idle (omega arith)
