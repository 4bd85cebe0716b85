-- ===== src/Timing.antt =====
-- src/timing.c: the timers that the main loop of the host runs. The clock is an argument of every
-- operation that reads it. `D` is the state of the devices, and `run` what a callback, known by its
-- number, makes of the devices and the timers: it is a parameter.
pub mod Loop
pub mod CatchUp
use pculator.Base.{
  ℕ, zero, suc, ◌+◌, ◌-◌, ◌*◌, ◌%◌, Bool, true, false, ◌&&◌, Option, none, some, List, [], ◌∷◌,
  ◌++◌, ◌==◌, ◌!=◌, leb, if◌then◌else◌, length, get_or, set,
}

-- Words of 64 bits.
abbrev pub u64 : ℕ → ℕ
u64 n = n % 18446744073709551616

-- `TIMER`; the callback stands for the function and its data.
pub record Timer : Type 0 where
  pub interval : ℕ
  pub previous : ℕ
  pub enabled : ℕ
  pub callback : Option ℕ

pub record Timers (D : Type 0) : Type 0 where
  pub timers : List Timer
  pub timing_cur : ℕ
  pub timing_freq : ℕ
  pub dev : D

abbrev pub no_timer : Timer
no_timer = record { interval = 0; previous = 0; enabled = 0; callback = none }

unfoldable pub due : ℕ → Timer → Bool
due now t = leb (u64 (t.previous + t.interval)) now && t.enabled != 0

-- A timer that was due moves on by one interval, or to the present when it is a hundred behind.
unfoldable pub advance : ℕ → Timer → Timer
advance now t =
    let next = u64 (t.previous + t.interval) in
    let behind = u64 (now + (18446744073709551616 - next)) in
    record t { previous = if leb (u64 (t.interval * 100)) behind then now else next }

module _ {D : Type 0} where
  unfoldable pub timing_init : Timers D → Timers D
  timing_init s = record s { timing_freq = 1000000000 }

  unfoldable pub call : (ℕ → Timers D → Timers D) → Option ℕ → Timers D → Timers D
  call run none s = s
  call run (some f) s = run f s

  -- A round of the loop. The callback may change the timer and the clock that are read after it.
  unfoldable pub tick : (ℕ → Timers D → Timers D) → ℕ → Timers D → Timers D
  unfolding due advance call
  tick run i s =
      let t = get_or s.timers i no_timer in
      let s' = call run t.callback s in
      if due s.timing_cur t
      then record s' {
        timers = set s'.timers i (advance s'.timing_cur (get_or s'.timers i no_timer));
      }
      else s

  -- `n` rounds from timer `i` on.
  unfoldable pub run_timers : (ℕ → Timers D → Timers D) → ℕ → ℕ → Timers D → Timers D
  run_timers run zero i s = s
  run_timers run (suc n) i s = run_timers run n (i + 1) (tick run i s)

  -- No callback of the program adds a timer, so the count is that of the beginning.
  unfoldable pub timing_loop : (ℕ → Timers D → Timers D) → ℕ → Timers D → Timers D
  unfolding run_timers
  timing_loop run now s = run_timers run (length s.timers) 0 (record s { timing_cur = now })

  -- `allocated` is whether `realloc` gave memory.
  unfoldable pub add_timer_using_interval : ℕ → Bool → Option ℕ → ℕ → ℕ → Timers D → ℕ × Timers D
  add_timer_using_interval now allocated callback interval enabled s =
      let t : Timers D = record s { timing_cur = now } in
      let new : Timer = record {
        interval = interval;
        previous = now;
        enabled = enabled;
        callback = callback;
      } in
      if allocated
      then (length s.timers, record t { timers = s.timers ++ new ∷ [] })
      else (0xFFFFFFFF, t)

  unfoldable pub update_interval : ℕ → ℕ → Timers D → Timers D
  update_interval tnum interval s = if leb (length s.timers) tnum then s else record s {
    timers = set s.timers tnum (record (get_or s.timers tnum no_timer) { interval = interval });
  }

  unfoldable pub timer_enable : ℕ → ℕ → Timers D → Timers D
  timer_enable now tnum s = if leb (length s.timers) tnum then s else record s {
    timers =
        set s.timers tnum (record (get_or s.timers tnum no_timer) { enabled = 1; previous = now });
    timing_cur = now;
  }

  unfoldable pub timer_disable : ℕ → Timers D → Timers D
  timer_disable tnum s = if leb (length s.timers) tnum then s else record s {
    timers = set s.timers tnum (record (get_or s.timers tnum no_timer) { enabled = 0 });
  }
