-- ===== src/Tests/Pics.antt =====
-- A master and a slave interrupt controller, at addresses 0 and 1.
use pculator.Base.{ℕ, ◌≡◌, ◌≢◌, refl, true, some, ◌==◌, if◌then◌else◌, arith, inl, inr, bit, update}
use pculator.Pic.{Pics, zeroed, has_pending, write, nextintr, next_from, setlevelirq}
use pculator.Pic.Priority.{Acknowledged, nextintr-Acknowledged}
use pculator.Pic.Cascade.{IsLinked, IsCascaded, OnlyLine, Drives, setlevelirq-slave}
use pculator.Pic.Writes.{resync_registers, write-IsCascaded}
use pculator.Pic.Programming.{Programmed, words, write_all, initialisation}
use pculator.Pic.Ends.{Ended, write-Ended}
use pculator.Cpu.Interrupt.{interrupt_check, interrupt_check-IsCascaded}

-- The slave asks for its line 3, so that the master is asked for line 2; the master has line 5 too.
abbrev pub pair : Pics
pair a =
    if a == 0
    then record zeroed { intoffset = 0x08; irr = 0x24; slave = some 1; icwstep = 5 }
    else record zeroed { intoffset = 0x70; irr = 0x08; imr = 0x01; master = some 0; icwstep = 5 }

linked : IsLinked pair 0 1
linked = record { up = refl; down = refl; top = refl; bottom = refl; apart = λ e. ground arith }

cascaded : IsCascaded pair 0 1
unfolding bit has_pending
cascaded = refl

nextintr-Acknowledged_example : let (irq, q) = nextintr (pair 0) in Acknowledged (pair 0) irq q
nextintr-Acknowledged_example = nextintr-Acknowledged (pair 0)

-- The master acknowledges line 2, the lower of its two.
first_line : (nextintr (pair 0)).0 ≡ 2
unfolding nextintr next_from
first_line = refl

setlevelirq-slave_example :
    let t = setlevelirq 1 6 1 pair in
    Drives pair t 0 1 6 true × IsCascaded t 0 1 × OnlyLine (update pair 1 (t 1)) t 0
setlevelirq-slave_example = setlevelirq-slave pair 0 1 6 1 linked

interrupt_check-IsCascaded_example : IsCascaded (interrupt_check 0 1 0 0 pair).pics 0 1
interrupt_check-IsCascaded_example = interrupt_check-IsCascaded 0 1 pair 0 1 linked cascaded

-- A specific end of interrupt for line 3, written to the slave.
write-IsCascaded_example :
    let t = write 1 0 0x63 pair in
    IsCascaded t 0 1
    × IsLinked t 0 1
    × OnlyLine (update pair 1 (resync_registers 0 0x63 (pair 1))) t 0
write-IsCascaded_example =
    write-IsCascaded pair 0 1 1 0 0x63 (inr refl) linked (inl (refl, refl, refl))

-- The slave serves its line 3, and the master line 2 for it.
abbrev serving : Pics
serving = update (update pair 1 (record (pair 1) { isr = 0x08 })) 0 (record (pair 0) { isr = 0x04 })

serving-IsLinked : IsLinked serving 0 1
serving-IsLinked = record {
  up = refl;
  down = refl;
  top = refl;
  bottom = refl;
  apart = λ e. ground arith;
}

-- A specific end of interrupt for line 2, written to the master while the slave still asks.
write-Ended_example : Ended serving (write 0 0 0x62 serving) 0 1 0 0x62
write-Ended_example = write-Ended serving 0 1 0 0x62 (inl refl) serving-IsLinked refl refl

-- The words that a PC's BIOS writes to the master.
initialisation_example :
    let t = write_all 0 (words 0x11 0x08 0x04 0x01) (write 0 0 0x11 pair) in
    Programmed (pair 0) (t 0) 0x11 0x08 × ((b : ℕ) → b ≢ 0 → t b ≡ pair b)
initialisation_example = initialisation pair 0 0x11 0x08 0x04 0x01 refl
