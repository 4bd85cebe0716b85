-- ===== src/Fifo/Queue.antt =====
-- The queue of src/disk/fifo.c holds a sequence of bytes: what is put in comes out in order.
use native.Mathlib.Nat.{mod-eq_of_lt, mod-eq-sub-mod, mod-add-mod, mod-lt}
use pculator.Base.{
  ℕ, suc, ◌+◌, ◌-◌, ◌%◌, ◌<◌, ◌≤◌, ◌≡◌, ◌≢◌, refl, sym, ap, ◌∙◌, false, ◌||◌, ◌==◌, ◌!=◌, ltb, leb,
  if◌then◌else◌, update, arith, inl, inr, Bool-cases, update_self, update_ne,
}
use pculator.Fifo.{Fifo, get_count, set_ready, put, take}

-- `n` bytes are in the queue.
pub record Holds (f : Fifo) (n : ℕ) : Type 0 where
  pub start_within : f.start < f.len
  pub end_after : f.end ≡ (f.start + n) % f.len
  pub at_most : n ≤ f.len
  pub is_full : f.full ≡ (if n == f.len then 1 else 0)
  pub is_empty : f.empty ≡ (if n == 0 then 1 else 0)

-- Byte `i` of the queue, from the oldest on.
abbrev pub item : Fifo → ℕ → ℕ
item f i = f.buf ((f.start + i) % f.len)

wrap : (a len : ℕ) → a < len + len → a % len ≡ (if ltb a len then a else a - len)
wrap a len h = elim (Bool-cases (ltb a len)) [
  | inl e ↦ rw e (mod-eq_of_lt (ground arith))
  | inr e ↦ rw e (mod-eq-sub-mod (ground arith) ∙ mod-eq_of_lt (ground arith))
]

-- The count that the code computes from the two ends is the number of bytes.
pub get_count-Holds : (f : Fifo) (n : ℕ) → Holds f n → get_count f ≡ n
unfolding get_count
get_count-Holds f n h = ground (
  arith,
  h.start_within,
  h.end_after,
  h.at_most,
  h.is_full,
  wrap (f.start + n) f.len (omega (arith, h.start_within, h.at_most)),
)

-- No byte is put in front of itself.
apart : (start n len i : ℕ) → start < len → n < len → i < n → (start + i) % len ≢ (start + n) % len
apart start n len i p q r e =
    ground (arith, wrap (start + i) len (omega arith), wrap (start + n) len (omega arith))

open_queue :
    (f : Fifo) (n : ℕ) → Holds f n → n < f.len → (leb f.len 0 ≡ false) × ((f.full != 0) ≡ false)
open_queue f n h lt = ground (arith, h.is_full)

some_bytes : (f : Fifo) (n : ℕ) → Holds f (suc n) → (f.empty != 0 || leb f.len 0) ≡ false
some_bytes f n h = ground (arith, h.is_empty, h.start_within)

next_place :
    (start n len : ℕ)
    → start < len
    → n < len
    → ((start + n) % len + 1) % len ≡ (start + suc n) % len
next_place start n len p q = mod-add-mod (start + n) len 1 ∙ ap (λ (m : ℕ). m % len) same
  where
    same : start + n + 1 ≡ start + suc n
    same = omega arith

moved_on : (start i len : ℕ) → ((start + 1) % len + i) % len ≡ (start + suc i) % len
moved_on start i len = mod-add-mod (start + 1) len i ∙ ap (λ (m : ℕ). m % len) same
  where
    same : start + 1 + i ≡ start + suc i
    same = omega arith

-- The end reaches the start exactly if the last place is taken.
full_after :
    (start n len full : ℕ)
    → start < len
    → n < len
    → full ≡ (if n == len then 1 else 0)
    → (if (start + suc n) % len == start then 1 else full) ≡ (if suc n == len then 1 else 0)
full_after start n len full p q e = ground (arith, wrap (start + suc n) len (omega arith))

-- The start reaches the end exactly if the last byte is taken.
empty_after :
    (start n len empty : ℕ)
    → start < len
    → suc n ≤ len
    → empty ≡ (if suc n == 0 then 1 else 0)
    → (if (start + 1) % len == (start + suc n) % len then 1 else empty) ≡ (if n == 0 then 1 else 0)
empty_after start n len empty p q e =
    ground (arith, wrap (start + 1) len (omega arith), wrap (start + suc n) len (omega arith))

front : (start len : ℕ) → start < len → start ≡ (start + 0) % len
front start len p = sym (mod-eq_of_lt (omega arith) ∙ omega arith)

not_full : (z n len : ℕ) → z ≡ 0 → suc n ≤ len → z ≡ (if n == len then 1 else 0)
not_full z n len e p = ground arith

-- A queue with room takes a byte at its end: it then holds one byte more, the new one last and the
-- others as they were.
pub put-Holds :
    (val n : ℕ) (f : Fifo)
    → Holds f n
    → n < f.len
    → Holds (put val f) (suc n)
      × (item (put val f) n ≡ val)
      × ((i : ℕ) → i < n → item (put val f) i ≡ item f i)
unfolding put set_ready
put-Holds val n f h lt =
    let (room, free) = open_queue f n h lt in
    rw (room, free)
      (
        record {
          start_within = h.start_within;
          end_after =
              ap (λ (m : ℕ). (m + 1) % f.len) h.end_after
              ∙ next_place f.start n f.len h.start_within lt;
          at_most = omega arith;
          is_full =
              ap (λ (m : ℕ). if m == f.start then 1 else f.full)
                (ap (λ (m : ℕ). (m + 1) % f.len) h.end_after
                  ∙ next_place f.start n f.len h.start_within lt)
              ∙ full_after f.start n f.len f.full h.start_within lt h.is_full;
          is_empty = ground arith;
        },
        ap (λ (m : ℕ). update f.buf f.end val m) (sym h.end_after) ∙ update_self f.buf f.end val,
        λ i l.
            update_ne f.buf f.end _ val
              (λ e. apart f.start n f.len i h.start_within lt l (e ∙ h.end_after)),
      )

-- A byte is taken from the front of a queue that holds one: it is the oldest, and the others move up.
pub take-Holds :
    (n : ℕ) (f : Fifo)
    → Holds f (suc n)
    → let (val, g) = take f in
      (val ≡ item f 0) × Holds g n × ((i : ℕ) → i < n → item g i ≡ item f (suc i))
unfolding take set_ready
take-Holds n f h = rw (some_bytes f n h) (
  ap f.buf (front f.start f.len h.start_within),
  record {
    start_within = mod-lt (f.start + 1) (omega (arith, h.start_within));
    end_after = h.end_after ∙ sym (moved_on f.start n f.len);
    at_most = omega (arith, h.at_most);
    is_full = not_full 0 n f.len refl h.at_most;
    is_empty =
        ap (λ (m : ℕ). if (f.start + 1) % f.len == m then 1 else f.empty) h.end_after
        ∙ empty_after f.start n f.len f.empty h.start_within h.at_most h.is_empty;
  },
  λ i l. ap f.buf (moved_on f.start i f.len),
)
