-- ===== src/Pit.antt =====
-- src/chipset/i8253.c and i8253.h, the 8253 timer with its three counters. The `int32_t` fields
-- `counter` and `reload` are their 32 bits, in two's complement. The speaker is a part of the state of
-- the devices, and `pcspeaker_setGateState` a parameter; the fields that no code reads are left out,
-- and so are the registrations in `i8253_init`.
pub mod Program
pub mod Others
pub mod Tick
use pculator.Base.{
  ℕ, ◌+◌, ◌-◌, Bool, true, false, not, ◌&&◌, ◌||◌, ◌==◌, ◌!=◌, ltb, leb, if◌then◌else◌, update,
  bit_and, bit_or, bit_xor, u8, u16, u32, has, ◌<<<◌, ◌>>>◌,
}
use pculator.Pic.{Pics, doirq}

pub record I8253 : Type 0 where
  pub active : ℕ → ℕ
  pub counter : ℕ → ℕ
  pub reload : ℕ → ℕ
  pub mode : ℕ → ℕ
  pub dataflipflop : ℕ → ℕ
  pub bcd : ℕ → ℕ
  pub rlmode : ℕ → ℕ
  pub latch : ℕ → ℕ
  pub out : ℕ → ℕ

unfoldable pub load_counter : ℕ → I8253 → I8253
load_counter c t =
    let value = if t.reload c == 0 then 65536 else t.reload c in
    record t {
      reload = update t.reload c value;
      counter = update t.counter c value;
      active = update t.active c 1;
    }

-- The output after a load.
unfoldable pub set_out : ℕ → I8253 → I8253
set_out c t =
    if t.mode c == 0 || t.mode c == 1
    then record t { out = update t.out c 0 }
    else if t.mode c == 2 || t.mode c == 3
    then record t { out = update t.out c 1 }
    else t

unfoldable pub load : ℕ → ℕ → I8253 → I8253
load c value t = set_out c (load_counter c (record t { reload = update t.reload c value }))

unfoldable pub flip : ℕ → I8253 → I8253
flip c t = record t { dataflipflop = update t.dataflipflop c (bit_xor (t.dataflipflop c) 1) }

unfoldable pub write_data : ℕ → ℕ → I8253 → I8253
unfolding flip
write_data c value t =
    if t.rlmode c == 1
    then load c value t
    else if t.rlmode c == 2
    then load c (value <<< 8) t
    else if t.rlmode c == 3
    then (if t.dataflipflop c == 0
        then flip c
            (record t { reload = update t.reload c (bit_or (bit_and (t.reload c) 0xFF00) value) })
        else flip c (load c (bit_or (bit_and (t.reload c) 0x00FF) (value <<< 8)) t))
    else t

-- The mode of a control word; its upper bit does not count if bit 1 is set.
unfoldable pub mode_of : ℕ → ℕ
mode_of value = let mode = bit_and (value >>> 1) 7 in if has mode 0x02 then bit_and mode 3 else mode

unfoldable pub write_control : ℕ → I8253 → I8253
unfolding mode_of
write_control value t =
    let sel = value >>> 6 in
    let rl = bit_and (value >>> 4) 3 in
    if sel == 3
    then t
    else if rl == 0
    then record t {
      latch = update t.latch sel (u16 (t.counter sel));
      dataflipflop = update t.dataflipflop sel 0;
    }
    else record t {
      rlmode = update t.rlmode sel rl;
      mode = update t.mode sel (mode_of value);
      bcd = update t.bcd sel (bit_and value 1);
      dataflipflop = update t.dataflipflop sel 0;
    }

unfoldable pub write : ℕ → ℕ → I8253 → I8253
write portnum value t =
    let port = bit_and portnum 3 in
    if port == 3 then write_control value t else write_data port value t

unfoldable pub read : ℕ → I8253 → ℕ × I8253
unfolding flip
read portnum t =
    let port = bit_and portnum 3 in
    let low = u8 (t.latch port) in
    let high = t.latch port >>> 8 in
    if port == 3
    then (0xFF, t)
    else if t.active port == 0
    then (0xFF, t)
    else if t.rlmode port == 1
    then (low, t)
    else if t.rlmode port == 2
    then (high, t)
    else (if t.dataflipflop port == 0 then low else high, flip port t)

-- What `memset` leaves, with the latches.
unfoldable pub init : I8253
init = record {
  active = λ _. 0;
  counter = λ _. 0;
  reload = λ _. 0;
  mode = λ _. 0;
  dataflipflop = λ _. 0;
  bcd = λ _. 0;
  rlmode = λ _. 0;
  latch = λ _. 0xFFFF;
  out = λ _. 0;
}

-- `x -= n` on an `int32_t`.
unfoldable pub lowered : ℕ → ℕ → ℕ
lowered n x = u32 (x + (4294967296 - n))

-- `x <= 0` on an `int32_t`.
unfoldable pub spent : ℕ → Bool
spent x = x == 0 || leb 0x80000000 x

-- The timer, the controllers with the address of the first, and the devices.
pub record System (D : Type 0) : Type 0 where
  pub timer : I8253
  pub i8259 : ℕ
  pub pics : Pics
  pub dev : D

-- `gate` is `pcspeaker_setGateState` for PC_SPEAKER_GATE_TIMER2.
module _ {D : Type 0} (gate : ℕ → D → D) where
  unfoldable pub timer_callback0 : ℕ → System D → System D
  timer_callback0 c s = if c == 0 then record s { pics = doirq s.i8259 0 s.pics } else s

  unfoldable pub tick_terminal : ℕ → System D → System D
  unfolding timer_callback0
  tick_terminal c s =
      let t = s.timer in
      let left = lowered 25 (t.counter c) in
      if spent left
      then timer_callback0 c
          (record s { timer = record t { counter = update t.counter c 0; out = update t.out c 1 } })
      else record s { timer = record t { counter = update t.counter c left } }

  unfoldable pub tick_rate : ℕ → System D → System D
  unfolding timer_callback0
  tick_rate c s =
      let t = s.timer in
      let left = lowered 25 (t.counter c) in
      if spent left
      then timer_callback0 c (record s {
        timer = record t {
          counter = update t.counter c (u32 (left + t.reload c));
          out = update t.out c (bit_xor (t.out c) 1);
        };
      })
      else record s { timer = record t { counter = update t.counter c left } }

  -- The square wave generator has its interrupt where the output falls.
  unfoldable pub tick_square : ℕ → System D → System D
  unfolding timer_callback0
  tick_square c s =
      let t = s.timer in
      let left = lowered 50 (t.counter c) in
      let out = bit_xor (t.out c) 1 in
      let turned = record s {
        timer = record t {
          counter = update t.counter c (u32 (left + t.reload c));
          out = update t.out c out;
        };
      } in
      let called = if out == 0 then timer_callback0 c turned else turned in
      if spent left
      then (if c == 2
          then record called { dev = gate (if ltb (t.reload c) 50 then 0 else out) called.dev }
          else called)
      else record s { timer = record t { counter = update t.counter c left } }

  -- A round of the loop of `i8253_tickCallback`.
  unfoldable pub tick_channel : ℕ → System D → System D
  tick_channel c s =
      let s' = if c == 2 && s.timer.mode 2 != 3 then record s { dev = gate 0 s.dev } else s in
      if s.timer.active c == 0
      then s'
      else if s.timer.mode c == 0
      then tick_terminal c s'
      else if s.timer.mode c == 2
      then tick_rate c s'
      else if s.timer.mode c == 3
      then tick_square c s'
      else s'

  unfoldable pub tick : System D → System D
  tick s = tick_channel 2 (tick_channel 1 (tick_channel 0 s))
