-- ===== src/Memory/Map/Tables.antt =====
-- What the loops of `memory_update_lookup` and `memory_clear_lookup` in src/memory.c leave in a page
-- table, and the tables that name only regions in use.
use pculator.Base.{
  ℕ, zero, suc, ◌+◌, ◌<◌, ◌≡◌, ◌≢◌, inl, inr, refl, sym, subst, ◌∙◌, Bool, true, ◌&&◌, arith, ◌==◌,
  ◌!=◌, ltb, leb, if◌then◌else◌, Bool-cases, ==_iff, update, update_self, update_ne, ◌>>>◌,
}
use pculator.Memory.{Region}
use pculator.Memory.Map.{pages, fill, clear}

abbrev within : ℕ → ℕ → ℕ → Bool
within n j k = leb j k && ltb k (j + n)

pub fill-get :
    (n j index : ℕ) (lookup : ℕ → ℕ) (k : ℕ)
    → fill n j index lookup k ≡ (if leb j k && ltb k (j + n) then index else lookup k)
unfolding fill
fill-get zero j index lookup k = ground arith
fill-get (suc n) j index lookup k =
    let rest = fill-get n (j + 1) index (update lookup j index) k in ground (arith, rest)

pub clear-get :
    (n j index : ℕ) (lookup : ℕ → ℕ) (k : ℕ)
    → clear n j index lookup k
      ≡ (if (leb j k && ltb k (j + n)) && lookup k == index then 0xFF else lookup k)
unfolding clear
clear-get zero j index lookup k = ground arith
clear-get (suc n) j index lookup k =
    let rest =
      clear-get n (j + 1) index (if lookup j == index then update lookup j 0xFF else lookup) k in
    ground (arith, rest)

module _ {D : Type 0} where
  -- A region in use with bytes on a page.
  unfoldable pub covers : Region D → ℕ → Bool
  unfolding pages
  covers map j =
      map.used != 0 && (leb (map.start >>> 12) j && ltb j ((map.start >>> 12) + pages map.size))

  -- A page table in which every page that names a slot names a region in use on that page.
  unfoldable pub Tabled : (ℕ → ℕ) → (ℕ → Region D) → Type 0
  unfolding covers
  Tabled lookup mem =
      (j : ℕ) → lookup j ≢ 0xFF → ltb (lookup j) 64 && covers (mem (lookup j)) j ≡ true

  -- A table that does not name a slot that is not in use.
  pub Tabled-avoids :
      (lookup : ℕ → ℕ) (mem : ℕ → Region D) (i j : ℕ)
      → Tabled lookup mem
      → i < 64
      → Region.used (mem i) ≡ 0
      → lookup j ≢ i
  unfolding Tabled covers
  Tabled-avoids lookup mem i j h low unused e =
      let named : ltb i 64 && covers (mem i) j ≡ true =
        subst (λ k. ltb k 64 && covers (mem k) j ≡ true) e (h j (omega (arith, e))) in
      ground (arith, named, unused)

  -- A change of a slot that the table does not name.
  pub Tabled-update :
      (lookup : ℕ → ℕ) (mem : ℕ → Region D) (i : ℕ) (map : Region D)
      → Tabled lookup mem
      → ((j : ℕ) → lookup j ≢ i)
      → Tabled lookup (update mem i map)
  unfolding Tabled
  Tabled-update lookup mem i map h avoids j named =
      rw (update_ne mem i (lookup j) map (avoids j)) (h j named)

  -- The pages of a region are set to its slot, which the table did not name.
  pub Tabled-fill :
      (lookup : ℕ → ℕ) (mem : ℕ → Region D) (i : ℕ) (map : Region D)
      → Tabled lookup mem
      → ((j : ℕ) → lookup j ≢ i)
      → i < 64
      → map.used ≢ 0
      → Tabled (fill (pages map.size) (map.start >>> 12) i lookup) (update mem i map)
  unfolding Tabled covers
  Tabled-fill lookup mem i map h avoids low used j named =
      elim (Bool-cases (leb (map.start >>> 12) j && ltb j ((map.start >>> 12) + pages map.size))) [
        | inl e ↦
            rw (fill-get (pages map.size) (map.start >>> 12) i lookup j, e, update_self mem i map)
              (ground (arith, e, low, used))
        | inr e ↦
            let out : fill (pages map.size) (map.start >>> 12) i lookup j ≡ lookup j =
              rw (fill-get (pages map.size) (map.start >>> 12) i lookup j, e) refl in
            rw (out, update_ne mem i (lookup j) map (avoids j)) (h j (λ e'. named (out ∙ e')))
      ]

  -- The pages of a region are cleared, and then its slot may change.
  pub Tabled-clear :
      (lookup : ℕ → ℕ) (mem : ℕ → Region D) (i : ℕ) (map : Region D)
      → Tabled lookup mem
      → i < 64
      → Tabled
          (clear (pages (Region.size (mem i))) (Region.start (mem i) >>> 12) i lookup)
          (update mem i map)
  unfolding Tabled covers
  Tabled-clear lookup mem i map h low j named =
      let n = pages (Region.size (mem i)) in
      let first = Region.start (mem i) >>> 12 in
      let all = clear-get n first i lookup j in
      elim (Bool-cases (lookup j == i)) [
        | inl e ↦
            let here : ltb i 64 && covers (mem i) j ≡ true =
              subst (λ k. ltb k 64 && covers (mem k) j ≡ true) ((==_iff (lookup j) i).0 e)
                (h j (ground (arith, e, low))) in
            absurd (named (all ∙ ground (arith, e, here)))
        | inr e ↦
            let out : clear n first i lookup j ≡ lookup j = all ∙ ground (arith, e) in
            rw (out, update_ne mem i (lookup j) map (λ e'. ground (arith, e, e')))
              (h j (λ e'. named (out ∙ e')))
      ]

  -- Once its pages are cleared, the table does not name the slot.
  pub clear-avoids :
      (lookup : ℕ → ℕ) (mem : ℕ → Region D) (i j : ℕ)
      → Tabled lookup mem
      → i < 64
      → clear (pages (Region.size (mem i))) (Region.start (mem i) >>> 12) i lookup j ≢ i
  unfolding Tabled covers
  clear-avoids lookup mem i j h low named =
      let all = clear-get (pages (Region.size (mem i))) (Region.start (mem i) >>> 12) i lookup j in
      elim (Bool-cases (lookup j == i)) [
        | inl e ↦
            let here : ltb i 64 && covers (mem i) j ≡ true =
              subst (λ k. ltb k 64 && covers (mem k) j ≡ true) ((==_iff (lookup j) i).0 e)
                (h j (ground (arith, e, low))) in
            ground (arith, sym all ∙ named, e, here, low)
        | inr e ↦ ground (arith, sym all ∙ named, e)
      ]
