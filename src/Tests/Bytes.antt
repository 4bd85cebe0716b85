-- ===== src/Tests/Bytes.antt =====
-- A byte queue of length 3.
use pculator.Base.{◌≡◌, refl, true, some, [], ◌∷◌, arith, ltb, if◌then◌else◌}
use pculator.Fifo.{Fifo, set_ready, put, set_trigger_len, clear, set_len, make}
use pculator.Fifo.Queue.{Holds}
use pculator.Fifo.Order.{put_all, take_all, make-take_all}

abbrev three : Fifo
three = record {
  buf = λ i. if ltb i 3 then 0 else 0;
  len = 3;
  start = 0;
  end = 0;
  full = 0;
  empty = 1;
  overrun = 0;
  ready = 0;
  trigger_len = 3;
}

-- Two bytes, of which the second has wrapped around.
abbrev two_bytes : Fifo
two_bytes = record three { buf = λ i. if ltb i 1 then 8 else 7; start = 2; end = 1; empty = 0 }

two_bytes-Holds : Holds two_bytes 2
two_bytes-Holds = record {
  start_within = omega arith;
  end_after = refl;
  at_most = omega arith;
  is_full = refl;
  is_empty = refl;
}

made : make true 3 ≡ some three
unfolding make clear
made = refl

make-take_all_example : take_all 3 (put_all (5 ∷ 6 ∷ 7 ∷ []) three) ≡ 5 ∷ 6 ∷ 7 ∷ []
make-take_all_example = make-take_all true 3 three (5 ∷ 6 ∷ 7 ∷ []) made (omega arith)

-- A fourth byte is refused and noted.
overrun : (put 8 (put_all (5 ∷ 6 ∷ 7 ∷ []) three)).overrun ≡ 1
unfolding put set_ready
overrun = refl

-- The level at which the queue counts as ready is kept between 1 and its length.
trigger : (set_trigger_len 9 (set_len true 4 three)).trigger_len ≡ 4
unfolding set_trigger_len set_len set_ready clear
trigger = refl
