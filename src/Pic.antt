-- ===== src/Pic.antt =====
-- src/chipset/i8259.c and i8259.h, the 8259 interrupt controller. The controllers live in a store,
-- since a slave and its master point at one another and `i8259_sync_cascade` writes through the
-- pointer; an address is a number, and NULL is `none`. The fields of `I8259_t` that no code reads
-- (priority, autoeoi, vector, lastintr, enabled, lineActive) are left out, and so is the call of
-- `ports_cbRegister` at the end of `i8259_init`.
pub mod Priority
pub mod Cascade
pub mod Programming
pub mod Ends
pub mod Writes
use pculator.Base.{
  ℕ, zero, suc, ◌+◌, Bool, true, false, ◌&&◌, Option, none, some, ◌==◌, ◌!=◌, if◌then◌else◌, update,
  bit_and, bit_or, has, u8, not8, ◌<<<◌, ◌>>>◌,
}

pub record Pic : Type 0 where
  pub imr : ℕ
  pub irr : ℕ
  pub isr : ℕ
  pub icwstep : ℕ
  pub icw : ℕ → ℕ
  pub ocw : ℕ → ℕ
  pub intoffset : ℕ
  pub readmode : ℕ
  pub master : Option ℕ
  pub slave : Option ℕ

abbrev pub Pics : Type 0
Pics = ℕ → Pic

-- What `memset` leaves.
abbrev pub zeroed : Pic
zeroed = record {
  imr = 0;
  irr = 0;
  isr = 0;
  icwstep = 0;
  icw = λ _. 0;
  ocw = λ _. 0;
  intoffset = 0;
  readmode = 0;
  master = none;
  slave = none;
}

unfoldable pub has_pending : Pic → ℕ
has_pending p = bit_and p.irr (not8 p.imr)

-- The assignment to the master's request register, with both pointers followed.
unfoldable pub sync_to : ℕ → ℕ → Pics → Pics
sync_to m a s =
    if bit_and (s m).isr (1 <<< 2) == 0 && has_pending (s a) != 0
    then update s m (record (s m) { irr = bit_or (s m).irr (1 <<< 2) })
    else update s m (record (s m) { irr = bit_and (s m).irr (not8 (1 <<< 2)) })

unfoldable pub sync_cascade : ℕ → Pics → Pics
sync_cascade a s = elim (s a).master [ none ↦ s | some m ↦ sync_to m a s ]

unfoldable pub read : Pic → ℕ → ℕ
read p portnum =
    if bit_and portnum 1 == 0 then (if p.readmode == 0 then p.irr else p.isr) else p.imr

-- The inner `switch` of OCW2.
unfoldable pub end_of_interrupt : ℕ → Pic → Pic
end_of_interrupt value p =
    if bit_and value 0xE0 == 0x60
    then record p {
      irr = bit_and p.irr (not8 (1 <<< bit_and value 7));
      isr = bit_and p.isr (not8 (1 <<< bit_and value 7));
    }
    else if bit_and value 0xE0 == 0x20
    then record p { irr = bit_and p.irr (not8 p.isr); isr = 0 }
    else p

-- `if (i8259->master != NULL) i8259_sync_cascade(i8259);`
unfoldable pub sync_slave : ℕ → Pics → Pics
sync_slave a s = elim (s a).master [ none ↦ s | some _ ↦ sync_cascade a s ]

-- `if (i8259->slave != NULL) i8259_sync_cascade(i8259->slave);`
unfoldable pub sync_down : ℕ → Pics → Pics
sync_down a s = elim (s a).slave [ none ↦ s | some b ↦ sync_cascade b s ]

-- The two statements that follow an end of interrupt and a write of the mask.
unfoldable pub sync_links : ℕ → Pics → Pics
sync_links a s = sync_slave a (sync_down a s)

unfoldable pub write_command : ℕ → ℕ → Pics → Pics
write_command a value s =
    let p = s a in
    if has value 0x10
    then update s a (record p { imr = 0; icw = update p.icw 1 value; icwstep = 2; readmode = 0 })
    else if bit_and value 0x08 == 0
    then sync_links a
        (update s a (end_of_interrupt value (record p { ocw = update p.ocw 2 value })))
    else let q = record p { ocw = update p.ocw 3 value } in
      update s a (if has value 0x02 then record q { readmode = bit_and value 1 } else q)

-- Cases 2, 3 and 4 of the `switch` on `icwstep`, the initialisation words.
unfoldable pub icw_word : ℕ → Pic → Pic
icw_word value p =
    if p.icwstep == 2
    then record p {
      icw = update p.icw 2 value;
      intoffset = bit_and value 0xF8;
      icwstep = if has (p.icw 1) 0x02 then 4 else 3;
    }
    else if p.icwstep == 3
    then record p { icw = update p.icw 3 value; icwstep = if has (p.icw 1) 0x01 then 4 else 5 }
    else if p.icwstep == 4
    then record p { icw = update p.icw 4 value; icwstep = 5 }
    else p

-- The whole `switch`: case 5 sets the mask.
unfoldable pub write_data : ℕ → ℕ → Pics → Pics
write_data a value s =
    if (s a).icwstep == 5
    then sync_links a (update s a (record (s a) { imr = value }))
    else update s a (icw_word value (s a))

unfoldable pub write : ℕ → ℕ → ℕ → Pics → Pics
write a portnum value s =
    if bit_and portnum 1 == 0 then write_command a value s else write_data a value s

-- The loop of `i8259_nextintr` at index `i`, with `n` rounds left.
unfoldable pub next_from : ℕ → ℕ → ℕ → Pic → ℕ × Pic
next_from zero i tmpirr p = (0xFF, p)
next_from (suc n) i tmpirr p =
    let rest = next_from n (i + 1) tmpirr p in
    if has (tmpirr >>> i) 1
    then (i, record p { irr = bit_and p.irr (not8 (1 <<< i)); isr = bit_or p.isr (u8 (1 <<< i)) })
    else rest

unfoldable pub nextintr : Pic → ℕ × Pic
nextintr p = next_from 8 0 (bit_and p.irr (not8 p.imr)) p

unfoldable pub doirq : ℕ → ℕ → Pics → Pics
doirq a irqnum s =
    sync_slave a (update s a (record (s a) { irr = u8 (bit_or (s a).irr (1 <<< irqnum)) }))

unfoldable pub clearirq : ℕ → ℕ → Pics → Pics
clearirq a irqnum s =
    sync_slave a (update s a (record (s a) { irr = bit_and (s a).irr (not8 (1 <<< irqnum)) }))

unfoldable pub setlevelirq : ℕ → ℕ → ℕ → Pics → Pics
setlevelirq a irqnum state s = if state != 0 then doirq a irqnum s else clearirq a irqnum s

unfoldable pub init : ℕ → Option ℕ → Pics → Pics
init a master s =
    let s' = update s a (record zeroed { imr = 0xFF; master = master }) in
    elim master [ none ↦ s' | some m ↦ update s' m (record (s' m) { slave = some a }) ]
