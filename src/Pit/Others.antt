-- ===== src/Pit/Others.antt =====
-- The counters of src/chipset/i8253.c other than the first: their rounds leave the first one and the
-- controllers alone.
use pculator.Base.{
  ℕ, ◌≡◌, ◌≢◌, refl, sym, subst, ◌∙◌, false, ◌&&◌, ◌==◌, ◌!=◌, if◌then◌else◌, choose, bit_xor,
  arith, update, update_ne,
}
use pculator.Pit.{
  System, lowered, spent, timer_callback0, tick_terminal, tick_rate, tick_square, tick_channel,
}

-- What a round of the loop for another counter leaves alone.
pub record SameFirst {D : Type 0} (s r : System D) : Type 0 where
  pub counter : r.timer.counter 0 ≡ s.timer.counter 0
  pub reload : r.timer.reload 0 ≡ s.timer.reload 0
  pub mode : r.timer.mode 0 ≡ s.timer.mode 0
  pub active : r.timer.active 0 ≡ s.timer.active 0
  pub i8259 : r.i8259 ≡ s.i8259
  pub pics : r.pics ≡ s.pics

module _ {D : Type 0} where
  itself : (s : System D) → SameFirst s s
  itself s = record {
    counter = refl;
    reload = refl;
    mode = refl;
    active = refl;
    i8259 = refl;
    pics = refl;
  }

  then_same : (s r t : System D) → SameFirst s r → SameFirst r t → SameFirst s t
  then_same s r t a b = record {
    counter = b.counter ∙ a.counter;
    reload = b.reload ∙ a.reload;
    mode = b.mode ∙ a.mode;
    active = b.active ∙ a.active;
    i8259 = b.i8259 ∙ a.i8259;
    pics = b.pics ∙ a.pics;
  }

module _ {D : Type 0} (gate : ℕ → D → D) where
  not_first : (c : ℕ) (s : System D) → c ≢ 0 → timer_callback0 gate c s ≡ s
  unfolding timer_callback0
  not_first c s h = let e : (c == 0) ≡ false = ground (arith, h) in rw e refl

  -- A new count and output of another counter.
  moved :
      (c n out : ℕ) (s : System D)
      → c ≢ 0
      → SameFirst s (record s {
        timer = record (s.timer) {
          counter = update s.timer.counter c n;
          out = update s.timer.out c out;
        };
      })
  moved c n out s h = record {
    counter = update_ne s.timer.counter c 0 n (λ e. h (sym e));
    reload = refl;
    mode = refl;
    active = refl;
    i8259 = refl;
    pics = refl;
  }

  counted :
      (c n : ℕ) (s : System D)
      → c ≢ 0
      → SameFirst s (record s { timer = record (s.timer) { counter = update s.timer.counter c n } })
  counted c n s h = record {
    counter = update_ne s.timer.counter c 0 n (λ e. h (sym e));
    reload = refl;
    mode = refl;
    active = refl;
    i8259 = refl;
    pics = refl;
  }

  called : (c : ℕ) (s r : System D) → c ≢ 0 → SameFirst s r → SameFirst s (timer_callback0 gate c r)
  called c s r h same = subst (λ x. SameFirst s x) (sym (not_first c r h)) same

  terminal-SameFirst : (c : ℕ) (s : System D) → c ≢ 0 → SameFirst s (tick_terminal gate c s)
  unfolding tick_terminal
  terminal-SameFirst c s h =
      choose (SameFirst s) (spent (lowered 25 (s.timer.counter c))) _ _
        (called c s _ h (moved c 0 1 s h)) (counted c _ s h)

  rate-SameFirst : (c : ℕ) (s : System D) → c ≢ 0 → SameFirst s (tick_rate gate c s)
  unfolding tick_rate
  rate-SameFirst c s h =
      choose (SameFirst s) (spent (lowered 25 (s.timer.counter c))) _ _
        (called c s _ h (moved c _ _ s h)) (counted c _ s h)

  -- The speaker hears of the output.
  heard : (s r : System D) (d : D) → SameFirst s r → SameFirst s (record r { dev = d })
  heard s r d same = record {
    counter = same.counter;
    reload = same.reload;
    mode = same.mode;
    active = same.active;
    i8259 = same.i8259;
    pics = same.pics;
  }

  square-SameFirst : (c : ℕ) (s : System D) → c ≢ 0 → SameFirst s (tick_square gate c s)
  unfolding tick_square
  square-SameFirst c s h =
      let turned = moved c _ _ s h in
      let both =
        choose (SameFirst s) (bit_xor (s.timer.out c) 1 == 0) _ _ (called c s _ h turned) turned in
      choose (SameFirst s) (spent (lowered 50 (s.timer.counter c))) _ _
        (choose (SameFirst s) (c == 2) _ _ (heard s _ _ both) both) (counted c _ s h)

  pub channel-SameFirst : (c : ℕ) (s : System D) → c ≢ 0 → SameFirst s (tick_channel gate c s)
  unfolding tick_channel
  channel-SameFirst c s h =
      let s' = if c == 2 && s.timer.mode 2 != 3 then record s { dev = gate 0 s.dev } else s in
      let same =
        choose (SameFirst s) (c == 2 && s.timer.mode 2 != 3) _ _ (heard s s _ (itself s))
          (itself s) in
      choose (SameFirst s) (s.timer.active c == 0) _ _ same (
        choose (SameFirst s) (s.timer.mode c == 0) _ _
          (then_same s s' _ same (terminal-SameFirst c s' h))
          (choose (SameFirst s) (s.timer.mode c == 2) _ _
            (then_same s s' _ same (rate-SameFirst c s' h))
            (choose (SameFirst s) (s.timer.mode c == 3) _ _
              (then_same s s' _ same (square-SameFirst c s' h)) same)))
