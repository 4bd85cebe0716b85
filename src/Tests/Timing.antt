-- ===== src/Tests/Timing.antt =====
-- Tests of src/timing.c with two timers whose callbacks count, and an input for each property that has
-- conditions.
use pculator.Base.{ℕ, ◌+◌, ◌≤◌, ◌≡◌, refl, false, some, [], ◌∷◌, arith, get_or}
use pculator.Timing.{Timer, Timers, no_timer, due, tick, timing_loop}
use pculator.Timing.Loop.{Keeps}
use pculator.Timing.CatchUp.{IsRunning, Behind, passes, timing_loop-Behind, passes-due}

abbrev fast : Timer
fast = record { interval = 10; previous = 100; enabled = 1; callback = some 1 }

abbrev pair : Timers ℕ
pair = record {
  timers = record fast { enabled = 0 } ∷ fast ∷ [];
  timing_cur = 0;
  timing_freq = 1000000000;
  dev = 0;
}

abbrev count : ℕ → Timers ℕ → Timers ℕ
count f s = record s { dev = s.dev + f }

count-Keeps : Keeps count
unfolding Keeps
count-Keeps = λ f s. (refl, refl)

one_call : (timing_loop count 115 pair).dev ≡ 1
unfolding timing_loop tick
one_call = refl

fast-IsRunning : IsRunning 5000 fast
unfolding IsRunning
fast-IsRunning = (omega arith, omega arith, omega arith, omega arith)

timing_loop-Behind_example :
    let t = get_or (timing_loop count 5000 pair).timers 1 no_timer in
    IsRunning 5000 t
    × (Timer.previous (get_or pair.timers 1 no_timer) ≤ t.previous)
    × Behind 5000 100 t
timing_loop-Behind_example =
    timing_loop-Behind count 5000 pair 1 count-Keeps (omega arith) fast-IsRunning

passes-due_example : due 5000 (get_or (passes count 100 5000 pair).timers 1 no_timer) ≡ false
passes-due_example = passes-due count 5000 pair 1 count-Keeps (omega arith) fast-IsRunning
