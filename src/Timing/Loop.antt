-- ===== src/Timing/Loop.antt =====
-- What one pass of `timing_loop` of src/timing.c does to each timer, when the callbacks leave the
-- timers and the clock alone.
use pculator.Base.{
  ℕ, zero, suc, ◌+◌, ◌<◌, ◌≡◌, refl, ap, ◌∙◌, true, false, ◌&&◌, inl, inr, arith, Option, none,
  some, ◌==◌, ltb, leb, if◌then◌else◌, Bool-cases, ==_iff, length, get_or, set, length-set,
  get_or-set_self, get_or-set_ne,
}
use pculator.Timing.{Timer, Timers, no_timer, due, advance, call, tick, run_timers}

-- A timer after its round.
unfoldable pub moved : ℕ → Timer → Timer
moved now t = if due now t then advance now t else t

-- The rounds from `i` on are the round of `i` and those from the next one on.
one_more :
    (i n j : ℕ) (f : Timer → Timer) (t : Timer)
    → (if leb (i + 1) j && ltb j (i + 1 + n)
        then f (if j == i then f t else t)
        else (if j == i then f t else t))
      ≡ (if leb i j && ltb j (i + suc n) then f t else t)
one_more i n j f t = elim (Bool-cases (j == i)) [
  | inl e ↦
      let past : (leb (i + 1) j && ltb j (i + 1 + n)) ≡ false = ground (arith, e) in
      let here : (leb i j && ltb j (i + suc n)) ≡ true = ground (arith, e) in
      rw (e, past, here) refl
  | inr e ↦
      let same : (leb (i + 1) j && ltb j (i + 1 + n)) ≡ (leb i j && ltb j (i + suc n)) =
        ground (arith, e) in
      rw (e, same) refl
]

module _ {D : Type 0} where
  -- The callbacks change only the devices.
  unfoldable pub Keeps : (ℕ → Timers D → Timers D) → Type 0
  Keeps run =
      (f : ℕ) (s : Timers D) → ((run f s).timers ≡ s.timers) × ((run f s).timing_cur ≡ s.timing_cur)

  call-Keeps :
      (run : ℕ → Timers D → Timers D)
      → Keeps run
      → (c : Option ℕ) (s : Timers D)
      → ((call run c s).timers ≡ s.timers) × ((call run c s).timing_cur ≡ s.timing_cur)
  unfolding Keeps call
  call-Keeps run keeps none s = (refl, refl)
  call-Keeps run keeps (some f) s = keeps f s

  tick-timers :
      (run : ℕ → Timers D → Timers D)
      → Keeps run
      → (i : ℕ) (s : Timers D)
      → ((tick run i s).timers ≡ (
          if due s.timing_cur (get_or s.timers i no_timer)
          then set s.timers i (advance s.timing_cur (get_or s.timers i no_timer))
          else s.timers))
        × ((tick run i s).timing_cur ≡ s.timing_cur)
  unfolding tick moved
  tick-timers run keeps i s =
      let t = get_or s.timers i no_timer in
      let (same, clock) = call-Keeps run keeps t.callback s in
      elim (Bool-cases (due s.timing_cur t)) [
        | inl e ↦ rw (tick, e, same, clock) (refl, refl)
        | inr e ↦ rw (tick, e) (refl, refl)
      ]

  tick-length :
      (run : ℕ → Timers D → Timers D)
      → Keeps run
      → (i : ℕ) (s : Timers D) → length (tick run i s).timers ≡ length s.timers
  tick-length run keeps i s =
      let t = get_or s.timers i no_timer in
      let (timers, clock) = tick-timers run keeps i s in
      let long = length-set s.timers i (advance s.timing_cur t) in
      ap length timers
      ∙ (elim (Bool-cases (due s.timing_cur t)) [ inl e ↦ rw e long | inr e ↦ rw e refl ])

  tick-get :
      (run : ℕ → Timers D → Timers D)
      → Keeps run
      → (i : ℕ) (s : Timers D) (j : ℕ) → j < length s.timers
      → get_or (tick run i s).timers j no_timer ≡ (
          if j == i
          then moved s.timing_cur (get_or s.timers j no_timer)
          else get_or s.timers j no_timer)
  unfolding moved
  tick-get run keeps i s j below =
      let t = get_or s.timers i no_timer in
      let (timers, clock) = tick-timers run keeps i s in
      ap (λ ts. get_or ts j no_timer) timers ∙ (elim (Bool-cases (j == i)) [
        | inl q ↦
            let same : j ≡ i = (==_iff j i).0 q in
            let here =
              get_or-set_self s.timers i (advance s.timing_cur t) no_timer
                (omega (arith, below, same)) in
            rw (q, same)
              (elim (Bool-cases (due s.timing_cur t)) [ inl e ↦ rw e here | inr e ↦ rw e refl ])
        | inr q ↦
            let away =
              get_or-set_ne s.timers i j (advance s.timing_cur t) no_timer
                (λ z. ground (arith, z, q)) in
            rw q (elim (Bool-cases (due s.timing_cur t)) [ inl e ↦ rw e away | inr e ↦ rw e refl ])
      ])

  pub run_timers-get :
      (run : ℕ → Timers D → Timers D)
      → Keeps run
      → (n i : ℕ) (s : Timers D) (j : ℕ) → j < length s.timers
      → (get_or (run_timers run n i s).timers j no_timer ≡ (
          if leb i j && ltb j (i + n)
          then moved s.timing_cur (get_or s.timers j no_timer)
          else get_or s.timers j no_timer))
        × (length (run_timers run n i s).timers ≡ length s.timers)
  unfolding run_timers
  run_timers-get run keeps zero i s j below = (ground arith, refl)
  run_timers-get run keeps (suc n) i s j below =
      let first = tick-get run keeps i s j below in
      let long = tick-length run keeps i s in
      let (timers, clock) = tick-timers run keeps i s in
      let (later, long') = run_timers-get run keeps n (i + 1) (tick run i s) j (rw long below) in
      (
        later
            ∙ ap
                (λ c.
                  if leb (i + 1) j && ltb j (i + 1 + n)
                  then moved c (get_or (tick run i s).timers j no_timer)
                  else get_or (tick run i s).timers j no_timer)
                clock
            ∙ ap (λ t. if leb (i + 1) j && ltb j (i + 1 + n) then moved s.timing_cur t else t) first
            ∙ one_more i n j (moved s.timing_cur) (get_or s.timers j no_timer),
        long' ∙ long,
      )
