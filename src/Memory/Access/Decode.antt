-- ===== src/Memory/Access/Decode.antt =====
-- `memory_mapSetDecodeState` of src/memory.c: whether the pages of a range are read and written in the
-- internal or the external table. A change flushes the translation cache.
use pculator.Base.{
  ℕ, zero, suc, ◌+◌, ◌≤◌, ◌<◌, ◌≡◌, ap, ◌∙◌, Bool, true, false, ◌&&◌, ◌||◌, inl, inr, ◌⊎◌, arith,
  ◌==◌, ◌!=◌, ltb, leb, if◌then◌else◌, Bool-cases, ==_iff, update, bit_and, ◌>>>◌,
}
use pculator.Memory.Map.{pages}
use pculator.Memory.Paging.{Machine, tlb_flush}

-- The loop over the pages, and whether it changed one.
unfoldable pub set_pages : ℕ → ℕ → ℕ → (ℕ → ℕ) → ℕ → ℕ
set_pages zero i state decode = decode
set_pages (suc n) i state decode = set_pages n (i + 1) state (update decode i state)

unfoldable pub changes : ℕ → ℕ → ℕ → (ℕ → ℕ) → Bool
changes zero i state decode = false
changes (suc n) i state decode = decode i != state || changes n (i + 1) state decode

module _ {D : Type 0} where
  unfoldable pub map_set_decode_state : ℕ → ℕ → ℕ → Machine D → Machine D
  unfolding pages
  map_set_decode_state start len state s =
      let i = start >>> 12 in
      let new_state = bit_and state 0x03 in
      let decode = s.memory.decode in
      record s {
        memory = record s.memory { decode = set_pages (pages len) i new_state decode };
        cpu = if changes (pages len) i new_state decode then tlb_flush s.cpu else s.cpu;
      }

set_pages-get :
    (n i state : ℕ) (decode : ℕ → ℕ) (k : ℕ)
    → set_pages n i state decode k ≡ (if leb i k && ltb k (i + n) then state else decode k)
unfolding set_pages
set_pages-get zero i state decode k = ground arith
set_pages-get (suc n) i state decode k =
    let rest = set_pages-get n (i + 1) state (update decode i state) k in ground (arith, rest)

-- A range in which no page changes is left as it is.
changes-none :
    (n i state : ℕ) (decode : ℕ → ℕ) (k : ℕ)
    → changes n i state decode ≡ false
    → i ≤ k
    → k < i + n
    → decode k ≡ state
unfolding changes
changes-none zero i state decode k h from below = absurd (omega arith)
changes-none (suc n) i state decode k h from below = elim (Bool-cases (k == i)) [
  | inl e ↦ ap decode ((==_iff k i).0 e) ∙ ground (arith, h)
  | inr e ↦
      changes-none n (i + 1) state decode k (ground (arith, h)) (ground (arith, e, from))
        (omega (arith, below))
]

module _ {D : Type 0} where
  -- The decode state of a page of the range is the new one and that of any other page is as it was;
  -- and where the state of some page differs from before, the translation cache is flushed.
  pub map_set_decode_state_lem :
      (start len state : ℕ) (s : Machine D) (k : ℕ)
      → let t = map_set_decode_state start len state s in
        (t.memory.decode k ≡ (
          if leb (start >>> 12) k && ltb k ((start >>> 12) + pages len)
          then bit_and state 0x03
          else s.memory.decode k))
        × ((t.memory.decode k == s.memory.decode k) ≡ true ⊎ t.cpu ≡ tlb_flush s.cpu)
  unfolding map_set_decode_state
  map_set_decode_state_lem start len state s k =
      let get = set_pages-get (pages len) (start >>> 12) (bit_and state 0x03) s.memory.decode k in
      (
        get,
        elim (Bool-cases
            (changes (pages len) (start >>> 12) (bit_and state 0x03) s.memory.decode)) [
              | inl e ↦ inr (ap (λ b. if b then tlb_flush s.cpu else s.cpu) e)
              | inr e ↦
                  let none' =
                    changes-none (pages len) (start >>> 12) (bit_and state 0x03) s.memory.decode k
                      e in
                  inl (ground (arith, get, none'))
            ],
      )
