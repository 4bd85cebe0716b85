-- ===== src/Memory/Map/Owned.antt =====
-- Mappings of src/memory.c and the slots that they own: enabling one enters its region, and disabling
-- one leaves no page behind.
use pculator.Base.{
  ℕ, ◌+◌, ◌≤◌, none, ◌&&◌, leb, update_ne, ◌>>>◌, ◌<◌, ◌≡◌, ◌≢◌, refl, true, false, ◌||◌, arith,
  some, inl, inr, ◌⊎◌, ◌==◌, ◌!=◌, ltb, if◌then◌else◌, Bool-cases, ==_ne, update_self,
}
use pculator.Memory.{Memory, Region}
use pculator.Memory.Map.{
  Mapping, pages, find_unused, update_lookup, release_map, mapping_enable, mapping_disable,
}
use pculator.Memory.Map.Tables.{Tabled-avoids, fill-get}
use pculator.Memory.Map.Slots.{
  IsTabled, find_unused-some, occupied, region, place-some, other, release_map-IsTabled,
  release_map-avoids, release_map-other,
}

module _ {D : Type 0} where
  -- Slot `i` is in use by an enabled mapping: only the table of the mapping's kind names it.
  unfoldable pub Owns : Mapping D → Memory D → ℕ → Type 0
  unfolding other
  Owns m s i =
      (m.enabled ≢ 0)
      × (m.map_index ≡ some i)
      × (i < 64)
      × (s.mem i ≡ region m.start m.len m.desc)
      × ((j : ℕ) → other m.internal s j ≢ i)

  unfoldable pub IsMapped : Mapping D → Memory D → Type 0
  unfolding Owns
  IsMapped m s = (m.enabled ≡ 0) ⊎ ((i : ℕ) × Owns m s i)

  pub Owns-low : (m : Mapping D) (s : Memory D) (i : ℕ) → Owns m s i → i < 64
  unfolding Owns
  Owns-low m s i (on, index, low, same, avoids) = low

  pub IsMapped-Owns :
      (m : Mapping D) (s : Memory D)
      → IsMapped m s
      → (m.enabled == 0) ≡ false
      → (i : ℕ) × Owns m s i
  unfolding IsMapped
  IsMapped-Owns m s (inl off) e = absurd (ground (arith, off, e))
  IsMapped-Owns m s (inr o) e = o

  pub mapping_disable-eq :
      (m : Mapping D) (s : Memory D) (i : ℕ)
      → Owns m s i
      → mapping_disable m s
        ≡ (record m { map_index = none; enabled = 0 }, release_map i m.internal s)
  unfolding mapping_disable Owns
  mapping_disable-eq m s i (on, index, low, same, avoids) =
      let live : (m.enabled == 0) ≡ false = ==_ne m.enabled 0 on in
      let there : ltb i 64 ≡ true = ground (arith, low) in
      rw (mapping_disable, live, index, there) refl

  -- The slot that a mapping owned is free once it is released, and both tables are still right.
  pub release_map-Owns :
      (m : Mapping D) (s : Memory D) (i : ℕ)
      → IsTabled s
      → Owns m s i
      → IsTabled (release_map i m.internal s)
        × (Region.used ((release_map i m.internal s).mem i) ≡ 0)
        × ((k : ℕ) → k ≢ i → (release_map i m.internal s).mem k ≡ s.mem k)
  unfolding Owns
  release_map-Owns m s i h (on, index, low, same, avoids) =
      let live : (Region.used (s.mem i) == 0) ≡ false = rw same refl in
      (
        release_map-IsTabled i m.internal s h low live avoids,
        (release_map-avoids i m.internal s h low live avoids).0,
        λ k apart. release_map-other i m.internal s k live apart,
      )

  -- Page `j` of the table of the mapping's kind.
  unfoldable pub page : Mapping D → Memory D → ℕ → ℕ
  page m s j = if m.internal != 0 then s.lookup_internal j else s.lookup_external j

  -- The pages of a region that is entered name its slot, and the other slots stay.
  pub update_lookup-page :
      (m : Mapping D) (s : Memory D) (i j : ℕ)
      → m.start >>> 12 ≤ j
      → j < (m.start >>> 12) + pages m.len
      → page m (update_lookup i m.internal (occupied i (region m.start m.len m.desc) s)) j ≡ i
  unfolding page update_lookup
  update_lookup-page m s i j from below =
      let all = λ (lookup : ℕ → ℕ). fill-get (pages m.len) (m.start >>> 12) i lookup j in
      let here : leb (m.start >>> 12) j && ltb j ((m.start >>> 12) + pages m.len) ≡ true =
        ground (arith, from, below) in
      elim (Bool-cases (m.internal != 0)) [
        | inl e ↦
            rw (e, update_self s.mem i (region m.start m.len m.desc))
              (rw here at (all s.lookup_internal))
        | inr e ↦
            rw (e, update_self s.mem i (region m.start m.len m.desc))
              (rw here at (all s.lookup_external))
      ]

  pub update_lookup-mem :
      (internal i : ℕ) (map : Region D) (s : Memory D) (k : ℕ)
      → k ≢ i
      → (update_lookup i internal (occupied i map s)).mem k ≡ s.mem k
  unfolding update_lookup
  update_lookup-mem internal i map s k apart = elim (Bool-cases (internal != 0)) [
    | inl e ↦ rw e (update_ne s.mem i k map apart)
    | inr e ↦ rw e (update_ne s.mem i k map apart)
  ]

  pub mapping_enable-some :
      (m : Mapping D) (s : Memory D) (i : ℕ)
      → (m.enabled != 0 || m.len == 0) ≡ false
      → find_unused 64 0 s.mem ≡ some i
      → mapping_enable m s
        ≡ some (
          record m { map_index = some i; enabled = 1 },
          update_lookup i m.internal (occupied i (region m.start m.len m.desc) s),
        )
  unfolding mapping_enable
  mapping_enable-some m s i e h =
      rw (mapping_enable, e, place-some m.start m.len m.desc m.internal s i h) refl

  -- Once its pages are entered, a mapping owns the slot.
  pub update_lookup-Owns :
      (m : Mapping D) (s : Memory D) (i : ℕ)
      → IsTabled s
      → find_unused 64 0 s.mem ≡ some i
      → Owns
          (record m { map_index = some i; enabled = 1 })
          (update_lookup i m.internal (occupied i (region m.start m.len m.desc) s))
          i
  unfolding Owns IsTabled other update_lookup
  update_lookup-Owns m s i (outer, inner) h =
      let (low, unused) = find_unused-some 64 0 s.mem i h in
      let map = region m.start m.len m.desc in
      elim (Bool-cases (m.internal != 0)) [
        | inl e ↦ rw e (
          omega arith,
          refl,
          low,
          update_self s.mem i map,
          λ j. Tabled-avoids s.lookup_external s.mem i j outer low unused,
        )
        | inr e ↦ rw e (
          omega arith,
          refl,
          low,
          update_self s.mem i map,
          λ j. Tabled-avoids s.lookup_internal s.mem i j inner low unused,
        )
      ]
