-- ===== src/Timing/CatchUp.antt =====
-- How the timers of src/timing.c keep up with the clock.
use pculator.Base.{
  ℕ, zero, suc, ◌+◌, ◌-◌, ◌*◌, ◌≤◌, ◌<◌, ◌≡◌, ◌≢◌, refl, ap, ◌∙◌, Bool, true, false, inl, inr,
  arith, leb, if◌then◌else◌, Bool-cases, length, get_or,
}
use native.Mathlib.Nat.{suc-mul}
use pculator.Timing.{Timer, Timers, no_timer, due, advance, timing_loop, u64}
use pculator.Timing.Loop.{moved, Keeps, run_timers-get}

-- An enabled timer that has an interval, is not ahead of the clock, and is far from the wrap-around.
unfoldable pub IsRunning : ℕ → Timer → Type 0
IsRunning now t =
    (t.enabled ≢ 0)
    × (0 < t.interval)
    × (t.previous ≤ now)
    × (now + t.interval * 100 < 18446744073709551616)

-- Less than `n` intervals behind the clock.
unfoldable pub Behind : ℕ → ℕ → Timer → Type 0
Behind now n t = now < t.previous + n * t.interval

abbrev pub late : ℕ → Timer → Bool
late now t = leb (t.previous + t.interval) now

moved-late :
    (now : ℕ) (t : Timer)
    → IsRunning now t
    → late now t ≡ true
    → moved now t ≡ record t {
      previous =
          if leb (t.interval * 100) (now - (t.previous + t.interval))
          then now
          else t.previous + t.interval;
    }
unfolding moved IsRunning due advance
moved-late now t (on, some', past, low) h =
    let next : u64 (t.previous + t.interval) ≡ t.previous + t.interval = ground (arith, h, low) in
    let big : u64 (t.interval * 100) ≡ t.interval * 100 = omega (arith, low) in
    let gap : u64 (now + (18446744073709551616 - (t.previous + t.interval)))
        ≡ now - (t.previous + t.interval) =
      ground (arith, h, low) in
    let there : due now t ≡ true = rw (due, next) (ground (arith, h, on)) in
    rw (moved, there, next, big, gap) refl

moved-early : (now : ℕ) (t : Timer) → IsRunning now t → late now t ≡ false → moved now t ≡ t
unfolding moved IsRunning due
moved-early now t (on, some', past, low) h =
    let next : u64 (t.previous + t.interval) ≡ t.previous + t.interval =
      ground (arith, h, low, past) in
    let there : due now t ≡ false = rw (due, next) (ground (arith, h)) in rw (moved, there) refl

-- After its round a timer still runs, is not earlier, and is less than a hundred intervals behind.
pub moved-IsRunning :
    (now : ℕ) (t : Timer)
    → IsRunning now t
    → IsRunning now (moved now t)
      × (t.previous ≤ Timer.previous (moved now t))
      × Behind now 100 (moved now t)
unfolding IsRunning Behind
moved-IsRunning now t h = elim (Bool-cases (late now t)) [
  | inl e ↦ rw (moved-late now t h e) (ground (arith, h, e))
  | inr e ↦ rw (moved-early now t h e) (ground (arith, h, e))
]

-- A round brings a timer that is more than one interval behind one interval nearer.
pub moved-Behind :
    (now n : ℕ) (t : Timer)
    → IsRunning now t
    → Behind now (suc (suc n)) t
    → Behind now (suc n) (moved now t)
unfolding IsRunning Behind
moved-Behind now n t h behind =
    let more = suc-mul (suc n) t.interval in
    let again = suc-mul n t.interval in
    elim (Bool-cases (late now t)) [
      | inl e ↦ rw (moved-late now t h e) (ground (arith, h, e, behind, more, again))
      | inr e ↦ rw (moved-early now t h e) (ground (arith, h, e, again))
    ]

-- Rounds one after the other at the same time.
abbrev rounds : ℕ → ℕ → Timer → Timer
rounds zero now t = t
rounds (suc n) now t = rounds n now (moved now t)

rounds-Behind :
    (n now : ℕ) (t : Timer)
    → IsRunning now t
    → Behind now (suc n) t
    → IsRunning now (rounds n now t) × Behind now 1 (rounds n now t)
rounds-Behind zero now t h behind = (h, behind)
rounds-Behind (suc n) now t h behind =
    rounds-Behind n now (moved now t) (moved-IsRunning now t h).0 (moved-Behind now n t h behind)

due-Behind : (now : ℕ) (t : Timer) → IsRunning now t → Behind now 1 t → due now t ≡ false
unfolding IsRunning Behind due
due-Behind now t h behind =
    let next : u64 (t.previous + t.interval) ≡ t.previous + t.interval =
      ground (arith, h, behind) in
    rw (due, next) (ground (arith, behind))

module _ {D : Type 0} where
  timing_loop-get :
      (run : ℕ → Timers D → Timers D)
      → Keeps run
      → (now : ℕ) (s : Timers D) (j : ℕ) → j < length s.timers
      → (get_or (timing_loop run now s).timers j no_timer ≡ moved now (get_or s.timers j no_timer))
        × (length (timing_loop run now s).timers ≡ length s.timers)
  unfolding timing_loop
  timing_loop-get run keeps now s j below =
      let (get, long) =
        run_timers-get run keeps (length s.timers) 0 (record s { timing_cur = now }) j below in
      (get ∙ ground (arith, below), long)

  -- A pass of the loop leaves every enabled timer less than a hundred intervals behind the clock, not
  -- ahead of it and not earlier than it was. The timer has an interval and was not ahead of the clock,
  -- the clock is not within a hundred intervals of its 64 bits, and the callbacks leave the timers and
  -- the clock alone.
  pub timing_loop-Behind :
      (run : ℕ → Timers D → Timers D) (now : ℕ) (s : Timers D) (j : ℕ)
      → Keeps run
      → j < length s.timers
      → IsRunning now (get_or s.timers j no_timer)
      → let t = get_or (timing_loop run now s).timers j no_timer in
        IsRunning now t
        × (Timer.previous (get_or s.timers j no_timer) ≤ t.previous)
        × Behind now 100 t
  timing_loop-Behind run now s j keeps below h =
      rw ((timing_loop-get run keeps now s j below).0)
        (moved-IsRunning now (get_or s.timers j no_timer) h)

  -- The passes of the main loop at one reading of the clock.
  unfoldable pub passes : (ℕ → Timers D → Timers D) → ℕ → ℕ → Timers D → Timers D
  unfolding timing_loop
  passes run zero now s = s
  passes run (suc n) now s = passes run n now (timing_loop run now s)

  passes-get :
      (run : ℕ → Timers D → Timers D)
      → Keeps run
      → (n now : ℕ) (s : Timers D) (j : ℕ) → j < length s.timers
      → get_or (passes run n now s).timers j no_timer ≡ rounds n now (get_or s.timers j no_timer)
  unfolding passes
  passes-get run keeps zero now s j below = refl
  passes-get run keeps (suc n) now s j below =
      let (get, long) = timing_loop-get run keeps now s j below in
      passes-get run keeps n now (timing_loop run now s) j (rw long below) ∙ ap (rounds n now) get

  -- However late an enabled timer is, it is not due after a hundred passes of the loop at one reading
  -- of the clock. The timer has an interval and was not ahead of the clock, the clock is not within a
  -- hundred intervals of its 64 bits, and the callbacks leave the timers and the clock alone.
  pub passes-due :
      (run : ℕ → Timers D → Timers D) (now : ℕ) (s : Timers D) (j : ℕ)
      → Keeps run
      → j < length s.timers
      → IsRunning now (get_or s.timers j no_timer)
      → due now (get_or (passes run 100 now s).timers j no_timer) ≡ false
  passes-due run now s j keeps below h =
      let t = get_or s.timers j no_timer in
      let (running, later, behind) = moved-IsRunning now t h in
      let (running', behind') = rounds-Behind 99 now (moved now t) running behind in
      ap (due now) (passes-get run keeps 100 now s j below)
      ∙ due-Behind now (rounds 100 now t) running' behind'
