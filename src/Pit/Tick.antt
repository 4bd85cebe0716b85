-- ===== src/Pit/Tick.antt =====
-- The rate of the interrupts that src/chipset/i8253.c makes of its first counter.
use pculator.Base.{
  ℕ, zero, suc, ◌+◌, ◌*◌, ◌≡◌, ◌≢◌, ◌≤◌, refl, sym, ap, subst, ◌∙◌, inl, inr, true, false, ◌==◌,
  Bool-cases, u32, arith,
}
use pculator.Pic.{Pics, doirq}
use pculator.Pit.{System, lowered, spent, timer_callback0, tick_rate, tick_channel, tick}
use pculator.Pit.Others.{SameFirst, channel-SameFirst}

-- The first counter is active, in mode 2, with a count and a reload value in range.
pub record IsPeriodic {D : Type 0} (s : System D) : Type 0 where
  pub active : s.timer.active 0 ≢ 0
  pub mode : s.timer.mode 0 ≡ 2
  pub period : 25 ≤ s.timer.reload 0
  pub reload : s.timer.reload 0 ≤ 65536
  pub positive : 1 ≤ s.timer.counter 0
  pub counter : s.timer.counter 0 ≤ 65536

-- `n` requests of line 0.
unfoldable pub requests : ℕ → ℕ → Pics → Pics
requests zero a s = s
requests (suc n) a s = doirq a 0 (requests n a s)

requests_add : (g f a : ℕ) (s : Pics) → requests g a (requests f a s) ≡ requests (g + f) a s
unfolding requests
requests_add zero f a s = ap (λ n. requests n a s) (omega arith)
requests_add (suc g) f a s = ap (doirq a 0) (requests_add g f a s) ∙ ap (λ n. requests n a s) same
  where
    same : suc (g + f) ≡ suc g + f
    same = omega arith

-- A count in range that runs out, and one that does not.
fires :
    (x r : ℕ)
    → 1 ≤ x
    → x ≤ 65536
    → 25 ≤ r
    → r ≤ 65536
    → spent (lowered 25 x) ≡ true
    → (u32 (lowered 25 x + r) + 25 ≡ x + r)
      × (1 ≤ u32 (lowered 25 x + r))
      × (u32 (lowered 25 x + r) ≤ 65536)
unfolding spent lowered
fires x r a b c d e =
    let small : x ≤ 25 = ground (arith, e, a, b) in
    (
      omega (arith, small, a, b, c, d),
      omega (arith, small, a, b, c, d),
      omega (arith, small, a, b, c, d),
    )

waits :
    (x : ℕ)
    → 1 ≤ x
    → x ≤ 65536
    → spent (lowered 25 x) ≡ false
    → (lowered 25 x + 25 ≡ x) × (1 ≤ lowered 25 x) × (lowered 25 x ≤ 65536)
unfolding spent lowered
waits x a b e =
    let big : 26 ≤ x = ground (arith, e, a, b) in
    (omega (arith, big, b), omega (arith, big, b), omega (arith, big, b))

module _ {D : Type 0} (gate : ℕ → D → D) where
  -- One tick of the first counter: `f` is 1 where it runs out.
  record Ticked (s r : System D) (f : ℕ) : Type 0 where
    counter : r.timer.counter 0 + 25 ≡ s.timer.counter 0 + f * s.timer.reload 0
    reload : r.timer.reload 0 ≡ s.timer.reload 0
    i8259 : r.i8259 ≡ s.i8259
    pics : r.pics ≡ requests f s.i8259 s.pics
    periodic : IsPeriodic r

  first_tick : (s : System D) → IsPeriodic s → (f : ℕ) × Ticked s (tick_channel gate 0 s) f
  unfolding tick_channel tick_rate timer_callback0 requests
  first_tick s h =
      let t = s.timer in
      let on : (t.active 0 == 0) ≡ false = ground (arith, h.active) in
      let two : (t.mode 0 == 2) ≡ true = ground (arith, h.mode) in
      let not_zero : (t.mode 0 == 0) ≡ false = ground (arith, h.mode) in
      let left = lowered 25 (t.counter 0) in
      elim (Bool-cases (spent left)) [
        | inl e ↦ (
          1,
          rw (on, not_zero, two, e)
              let (sum, positive, bound) =
                  fires (t.counter 0) (t.reload 0) h.positive h.counter h.period h.reload e in
                record {
                  counter = omega (arith, sum);
                  reload = refl;
                  i8259 = refl;
                  pics = refl;
                  periodic = record {
                    active = h.active;
                    mode = h.mode;
                    period = h.period;
                    reload = h.reload;
                    positive = positive;
                    counter = bound;
                  };
                },
        )
        | inr e ↦ (
          0,
          rw (on, not_zero, two, e)
              let (sum, positive, bound) = waits (t.counter 0) h.positive h.counter e in
                record {
                  counter = omega (arith, sum);
                  reload = refl;
                  i8259 = refl;
                  pics = refl;
                  periodic = record {
                    active = h.active;
                    mode = h.mode;
                    period = h.period;
                    reload = h.reload;
                    positive = positive;
                    counter = bound;
                  };
                },
        )
      ]

  -- What the other counters do after it does not matter.
  after : (s r t : System D) (f : ℕ) → Ticked s r f → SameFirst r t → Ticked s t f
  after s r t f h same = record {
    counter = ap (λ n. n + 25) same.counter ∙ h.counter;
    reload = same.reload ∙ h.reload;
    i8259 = same.i8259 ∙ h.i8259;
    pics = same.pics ∙ h.pics;
    periodic = record {
      active = λ e. h.periodic.active (sym same.active ∙ e);
      mode = same.mode ∙ h.periodic.mode;
      period = subst (λ n. 25 ≤ n) (sym same.reload) h.periodic.period;
      reload = subst (λ n. n ≤ 65536) (sym same.reload) h.periodic.reload;
      positive = subst (λ n. 1 ≤ n) (sym same.counter) h.periodic.positive;
      counter = subst (λ n. n ≤ 65536) (sym same.counter) h.periodic.counter;
    };
  }

  one_tick : (s : System D) → IsPeriodic s → (f : ℕ) × Ticked s (tick gate s) f
  unfolding tick
  one_tick s h =
      let r = tick_channel gate 0 s in
      let r' = tick_channel gate 1 r in
      let (f, ticked) = first_tick s h in
      (
        f,
        after s r' (tick_channel gate 2 r') f
            (after s r r' f ticked (channel-SameFirst gate 1 r (λ e. omega arith)))
            (channel-SameFirst gate 2 r' (λ e. omega arith)),
      )

  -- `n` calls of `i8253_tickCallback`.
  unfoldable pub ticks : ℕ → System D → System D
  ticks zero s = s
  ticks (suc n) s = ticks n (tick gate s)

  -- The timer keeps its rate. Over any number of ticks of a first counter in mode 2, the controller
  -- gets exactly as many requests of line 0 as make up for the count: what the counter lost, 25 for
  -- each tick, is what the requests put back, one reload value each, and none is lost or doubled.
  -- Whatever the other two counters do, the counter stays in range. The reload value is between 25 and
  -- 65536, and the counter between 1 and 65536 at the beginning.
  pub ticks-rate :
      (n : ℕ) (s : System D)
      → IsPeriodic s
      → (fired : ℕ) × ((ticks n s).timer.counter 0 + n * 25
          ≡ s.timer.counter 0 + fired * s.timer.reload 0)
        × ((ticks n s).pics ≡ requests fired s.i8259 s.pics)
        × IsPeriodic (ticks n s)
  unfolding ticks requests
  ticks-rate zero s h = (0, omega arith, refl, h)
  ticks-rate (suc n) s h =
      let (f, one) = one_tick s h in
      let (g, counted_all, asked, good) = ticks-rate n (tick gate s) one.periodic in
      (
        g + f,
        grind (arith, counted_all, one.counter, one.reload),
        asked
            ∙ ap (requests g (tick gate s).i8259) one.pics
            ∙ ap (λ a. requests g a (requests f s.i8259 s.pics)) one.i8259
            ∙ requests_add g f s.i8259 s.pics,
        good,
      )
