-- ===== src/Memory/Map/Slots.antt =====
-- Slots of the table of regions in src/memory.c: taking the first one that is not used, and giving
-- one back.
use pculator.Base.{
  ℕ, zero, suc, ◌+◌, ◌≤◌, ◌<◌, ◌≡◌, ◌≢◌, refl, sym, ap, subst, ◌∙◌, false, arith, none, some,
  some-injective, inl, inr, Option-cases, ◌==◌, ◌!=◌, if◌then◌else◌, Bool-cases, update,
  update_self, update_ne, update-update, ◌>>>◌,
}
use pculator.Memory.{Memory, Region, Desc, desc_clear}
use pculator.Memory.Map.{
  pages, clear, find_unused, alloc_map, desc_copy, update_lookup, clear_lookup, release_map, place,
}
use pculator.Memory.Map.Tables.{
  Tabled, Tabled-avoids, Tabled-update, Tabled-fill, Tabled-clear, clear-avoids,
}

module _ {D : Type 0} where
  -- Both page tables.
  unfoldable pub IsTabled : Memory D → Type 0
  unfolding Tabled
  IsTabled s = Tabled s.lookup_external s.mem × Tabled s.lookup_internal s.mem

  pub find_unused-some :
      (n i : ℕ) (mem : ℕ → Region D) (k : ℕ)
      → find_unused n i mem ≡ some k
      → (k < i + n) × (Region.used (mem k) ≡ 0)
  unfolding find_unused
  find_unused-some zero i mem k h = ground arith
  find_unused-some (suc n) i mem k h = elim (Bool-cases (Region.used (mem i) == 0)) [
    | inl e ↦ ground (arith, e)
    | inr e ↦ let rest = find_unused-some n (i + 1) mem k in ground (arith, e, rest)
  ]

  -- A free slot is found when there is one.
  pub find_unused-exists :
      (n i : ℕ) (mem : ℕ → Region D) (k : ℕ)
      → i ≤ k
      → k < i + n
      → Region.used (mem k) ≡ 0
      → (j : ℕ) × (find_unused n i mem ≡ some j)
  unfolding find_unused
  find_unused-exists zero i mem k from below unused = absurd (omega arith)
  find_unused-exists (suc n) i mem k from below unused =
      elim (Bool-cases (Region.used (mem i) == 0)) [
        | inl e ↦ rw e (i, refl)
        | inr e ↦
            let later : i ≢ k = λ q. ground (arith, ap (λ x. Region.used (mem x)) q, unused, e) in
            rw e (find_unused-exists n (i + 1) mem k (omega arith) (omega arith) unused)
      ]

  -- The memory with a region of the given bounds in slot `i`, before the page table is told.
  abbrev pub occupied : ℕ → Region D → Memory D → Memory D
  occupied i map s = record s { mem = update s.mem i map }

  abbrev pub region : ℕ → ℕ → Desc D → Region D
  region start len desc = record { start = start; size = len; desc = desc; used = 1 }

  pub desc_copy-occupied :
      (i : ℕ) (map : Region D) (desc : Desc D) (s : Memory D)
      → desc_copy i desc (occupied i map s) ≡ occupied i (record map { desc = desc }) s
  unfolding desc_copy
  desc_copy-occupied i map desc s =
      ap (λ m. record s { mem = m })
        (ap (λ r. update (update s.mem i map) i (record r { desc = desc }))
            (update_self s.mem i map)
          ∙ update-update s.mem i map (record map { desc = desc }))

  pub alloc_map-some :
      (start len : ℕ) (s : Memory D) (i : ℕ)
      → find_unused 64 0 s.mem ≡ some i
      → alloc_map start len s ≡ some (i, occupied i (region start len desc_clear) s)
  unfolding alloc_map
  alloc_map-some start len s i h = rw (alloc_map, h) refl

  pub place-some :
      (start len : ℕ) (desc : Desc D) (internal : ℕ) (s : Memory D) (i : ℕ)
      → find_unused 64 0 s.mem ≡ some i
      → place start len desc internal s
        ≡ some (i, update_lookup i internal (occupied i (region start len desc) s))
  unfolding place
  place-some start len desc internal s i h =
      rw (place, alloc_map-some start len s i h)
        (ap (λ t. some (i, update_lookup i internal t))
          (desc_copy-occupied i (region start len desc_clear) desc s))

  pub IsTabled-place :
      (start len : ℕ) (desc : Desc D) (internal : ℕ) (s : Memory D) (i : ℕ)
      → IsTabled s
      → find_unused 64 0 s.mem ≡ some i
      → IsTabled (update_lookup i internal (occupied i (region start len desc) s))
  unfolding IsTabled update_lookup
  IsTabled-place start len desc internal s i (outer, inner) h =
      let (low, unused) = find_unused-some 64 0 s.mem i h in
      let map = region start len desc in
      let outer_avoids : (j : ℕ) → s.lookup_external j ≢ i =
        λ j. Tabled-avoids s.lookup_external s.mem i j outer low unused in
      let inner_avoids : (j : ℕ) → s.lookup_internal j ≢ i =
        λ j. Tabled-avoids s.lookup_internal s.mem i j inner low unused in
      elim (Bool-cases (internal != 0)) [
        | inl e ↦
            rw (e, update_self s.mem i map)
              (
                Tabled-update s.lookup_external s.mem i map outer outer_avoids,
                Tabled-fill s.lookup_internal s.mem i map inner inner_avoids low (omega arith),
              )
        | inr e ↦
            rw (e, update_self s.mem i map)
              (
                Tabled-fill s.lookup_external s.mem i map outer outer_avoids low (omega arith),
                Tabled-update s.lookup_internal s.mem i map inner inner_avoids,
              )
      ]

  pub alloc_map-none :
      (start len : ℕ) (s : Memory D) → find_unused 64 0 s.mem ≡ none → alloc_map start len s ≡ none
  unfolding alloc_map
  alloc_map-none start len s h = rw (alloc_map, h) refl

  pub place-none :
      (start len : ℕ) (desc : Desc D) (internal : ℕ) (s : Memory D)
      → find_unused 64 0 s.mem ≡ none
      → place start len desc internal s ≡ none
  unfolding place
  place-none start len desc internal s h = rw (place, alloc_map-none start len s h) refl

  pub place-IsTabled :
      (start len : ℕ) (desc : Desc D) (internal : ℕ) (s t : Memory D) (i : ℕ)
      → IsTabled s
      → place start len desc internal s ≡ some (i, t)
      → (find_unused 64 0 s.mem ≡ some i)
        × (t ≡ update_lookup i internal (occupied i (region start len desc) s))
        × IsTabled t
  place-IsTabled start len desc internal s t i h e = elim (Option-cases (find_unused 64 0 s.mem)) [
    | inl none' ↦ absurd (ground (arith, e, place-none start len desc internal s none'))
    | inr (k, found) ↦
        let same = some-injective _ _ (sym (place-some start len desc internal s k found) ∙ e) in
        let here : k ≡ i = ap (λ r. r.0) same in
        let result : update_lookup k internal (occupied k (region start len desc) s) ≡ t =
          ap (λ r. r.1) same in
        (
          ground (arith, found, here),
          subst (λ j. t ≡ update_lookup j internal (occupied j (region start len desc) s)) here
              (sym result),
          subst IsTabled result (IsTabled-place start len desc internal s k h found),
        )
  ]

  -- The table in which a region of the given kind is not entered.
  unfoldable pub other : ℕ → Memory D → ℕ → ℕ
  other internal s = if internal != 0 then s.lookup_external else s.lookup_internal

  abbrev pub empty : Region D
  empty = record { start = 0; size = 0; desc = desc_clear; used = 0 }

  abbrev cleared : ℕ → Memory D → (ℕ → ℕ) → ℕ → ℕ
  cleared i s lookup =
      clear (pages (Region.size (s.mem i))) (Region.start (s.mem i) >>> 12) i lookup

  pub release_map-eq :
      (i internal : ℕ) (s : Memory D)
      → (Region.used (s.mem i) == 0) ≡ false
      → release_map i internal s ≡ (
          if internal != 0
          then record s {
            lookup_internal = cleared i s s.lookup_internal;
            mem = update s.mem i empty;
          }
          else record s {
            lookup_external = cleared i s s.lookup_external;
            mem = update s.mem i empty;
          })
  unfolding release_map clear_lookup
  release_map-eq i internal s e = elim (Bool-cases (internal != 0)) [
    | inl e' ↦ rw (release_map, e, e') refl
    | inr e' ↦ rw (release_map, e, e') refl
  ]

  pub release_map-other :
      (i internal : ℕ) (s : Memory D) (k : ℕ)
      → (Region.used (s.mem i) == 0) ≡ false
      → k ≢ i
      → (release_map i internal s).mem k ≡ s.mem k
  release_map-other i internal s k e apart =
      rw (release_map-eq i internal s e) (elim (Bool-cases (internal != 0)) [
        | inl e' ↦ rw e' (update_ne s.mem i k empty apart)
        | inr e' ↦ rw e' (update_ne s.mem i k empty apart)
      ])

  pub release_map-IsTabled :
      (i internal : ℕ) (s : Memory D)
      → IsTabled s
      → i < 64
      → (Region.used (s.mem i) == 0) ≡ false
      → ((j : ℕ) → other internal s j ≢ i)
      → IsTabled (release_map i internal s)
  unfolding IsTabled other
  release_map-IsTabled i internal s (outer, inner) low e avoids =
      subst IsTabled (sym (release_map-eq i internal s e)) (elim (Bool-cases (internal != 0)) [
        | inl e' ↦ rw e' (
          Tabled-update s.lookup_external s.mem i empty outer (λ j q. avoids j (rw e' q)),
          Tabled-clear s.lookup_internal s.mem i empty inner low,
        )
        | inr e' ↦ rw e' (
          Tabled-clear s.lookup_external s.mem i empty outer low,
          Tabled-update s.lookup_internal s.mem i empty inner (λ j q. avoids j (rw e' q)),
        )
      ])

  -- A slot that is released is not in use, and neither table names it.
  pub release_map-avoids :
      (i internal : ℕ) (s : Memory D)
      → IsTabled s
      → i < 64
      → (Region.used (s.mem i) == 0) ≡ false
      → ((j : ℕ) → other internal s j ≢ i)
      → (Region.used ((release_map i internal s).mem i) ≡ 0)
        × ((j : ℕ)
            → ((release_map i internal s).lookup_external j ≢ i)
              × ((release_map i internal s).lookup_internal j ≢ i))
  unfolding IsTabled other
  release_map-avoids i internal s (outer, inner) low e avoids =
      rw (release_map-eq i internal s e) (elim (Bool-cases (internal != 0)) [
        | inl e' ↦
            rw (e', update_self s.mem i empty)
              (
                refl,
                λ j. (λ q. avoids j (rw e' q), clear-avoids s.lookup_internal s.mem i j inner low),
              )
        | inr e' ↦
            rw (e', update_self s.mem i empty)
              (
                refl,
                λ j. (clear-avoids s.lookup_external s.mem i j outer low, λ q. avoids j (rw e' q)),
              )
      ])
