-- ===== src/Tests/Ports.antt =====
-- Tests of src/ports.c with a counter behind two port addresses, and an input for each property that
-- has conditions.
use pculator.Base.{ℕ, ◌+◌, ◌≡◌, refl, false, ◌&&◌, none, some, arith, ltb, leb, if◌then◌else◌, u32}
use pculator.Ports.{
  Port, Ports, highest, getportmap, cb_register_ex, cb_unregister, find_free, overlaps, range_end,
  port_write, port_read,
}
use pculator.Ports.Table.{joined}
use pculator.Ports.Handlers.{registered, cb_register_ex-getportmap, cb_unregister-getportmap}
use pculator.Ports.Reached.{Reached, Reached-IsSearched, getportmap-Reached}
use pculator.Ports.Reached.Reached.{at_start, after_register}

abbrev counter : Port ℕ
counter = record {
  readcb = some (λ d addr. (d, d));
  writecb = some (λ d addr value. d + value);
  readcb_w = none;
  writecb_w = none;
  readcb_l = none;
  writecb_l = none;
  start = 0;
  size = 0;
  used = 0;
}

abbrev free : Ports ℕ
free = record {
  ports = λ i. record counter { readcb = none; writecb = none };
  searched = 0;
  a20_gate = 0;
  dev = 5;
}

abbrev counted : Ports ℕ
counted = registered 0 0x20 2 counter free

registered_counter : cb_register_ex 0x20 2 counter free ≡ some counted
unfolding cb_register_ex registered find_free
registered_counter = refl

write_then_read : (port_read 0x20 (port_write 0x21 3 counted)).0 ≡ 8
unfolding port_read port_write registered highest
write_then_read = refl

gate_opened : (port_read 0x92 (port_write 0x92 0xFF counted)).0 ≡ 2
unfolding port_read port_write registered highest
gate_opened = refl

free-Reached : Reached free
free-Reached = at_start free (λ i. refl)

cb_register_ex-getportmap_example :
    (i : ℕ) × (Port.used (free.ports i) ≡ 0)
    × (counted.ports i ≡ record counter { start = 0x20; size = 2; used = 1 })
    × (getportmap counted 0x21 ≡ (
        if leb 0x20 0x21 && ltb 0x21 (u32 (0x20 + 2))
        then joined i (getportmap free 0x21)
        else getportmap free 0x21))
cb_register_ex-getportmap_example =
    cb_register_ex-getportmap 0x20 2 counter free counted 0x21
      (Reached-IsSearched free free-Reached) registered_counter

cb_unregister-getportmap_example :
    (getportmap (cb_unregister 0x20 2 counted) 0x21 ≡ none)
    × ((i : ℕ)
        → overlaps 0x20 (range_end 0x20 2) (counted.ports i) ≡ false
        → (cb_unregister 0x20 2 counted).ports i ≡ counted.ports i)
cb_unregister-getportmap_example =
    cb_unregister-getportmap 0x20 2 counted 0x21 (omega arith) (omega arith) (omega arith)
      (omega arith)

getportmap-Reached_example : getportmap counted 0x21 ≡ highest 64 counted.ports 0x21
getportmap-Reached_example =
    getportmap-Reached counted 0x21
      (after_register 0x20 2 counter free counted free-Reached registered_counter)
