-- ===== src/Memory/Map/Outcome.antt =====
-- What enabling and moving a mapping of src/memory.c leave: the mapping, its slot and its pages.
use pculator.Base.{
  ℕ, ◌+◌, ◌≤◌, ◌<◌, ◌≡◌, ◌≢◌, refl, sym, ap, subst, ◌∙◌, inl, inr, Bool, true, false, arith, Option,
  some, none, some-injective, ◌!=◌, ◌>>>◌,
}
use pculator.Memory.{Memory, Region}
use pculator.Memory.Map.{Mapping, pages, find_unused, update_lookup, release_map}
use pculator.Memory.Map.Slots.{IsTabled, occupied, region, IsTabled-place}
use pculator.Memory.Map.Owned.{
  Owns, IsMapped, release_map-Owns, page, update_lookup-page, update_lookup-mem, update_lookup-Owns,
}

module _ {D : Type 0} where
  -- What becomes of the mapping `m` and the memory `s`: the mapping has the bounds `start` and `len`,
  -- is enabled as `on` says, and owns its slot then; if `fresh`, its pages are entered. A slot that
  -- the mapping had and has no more is free, and the slots that it did not and does not have stay.
  pub record Mapped (m : Mapping D) (s : Memory D) (start len : ℕ) (on fresh : Bool)
      (m' : Mapping D) (t : Memory D) : Type 0 where
    pub start_set : m'.start ≡ start
    pub len_set : m'.len ≡ len
    pub internal : m'.internal ≡ m.internal
    pub desc : m'.desc ≡ m.desc
    pub enabled : (m'.enabled != 0) ≡ on
    pub tabled : IsTabled t
    pub mapped : IsMapped m' t
    pub entered :
        fresh ≡ true
        → m'.enabled ≢ 0
        → (i j : ℕ) → m'.map_index ≡ some i
        → start >>> 12 ≤ j
        → j < (start >>> 12) + pages len
        → page m' t j ≡ i
    pub released : (k : ℕ) → Owns m s k → m'.map_index ≢ some k → Region.used (t.mem k) ≡ 0
    pub others : (k : ℕ) → m.map_index ≢ some k → m'.map_index ≢ some k → t.mem k ≡ s.mem k

  -- The operation does not exit.
  unfoldable pub Succeeds :
      Mapping D
      → Memory D
      → (start len : ℕ) (on fresh : Bool) → Option (Mapping D × Memory D)
      → Type 0
  Succeeds m s start len on fresh result =
      (m' : Mapping D) × (t : Memory D) × (result ≡ some (m', t))
      × Mapped m s start len on fresh m' t

  pub Owns-index : (m : Mapping D) (s : Memory D) (i : ℕ) → Owns m s i → m.map_index ≡ some i
  unfolding Owns
  Owns-index m s i (on, index, low, same, avoids) = index

  pub Owns-on : (m : Mapping D) (s : Memory D) (i : ℕ) → Owns m s i → m.enabled ≢ 0
  unfolding Owns
  Owns-on m s i (on, index, low, same, avoids) = on

  -- A mapping that is disabled enters its region in a free slot.
  pub placed-Mapped :
      (m : Mapping D) (s : Memory D) (i : ℕ)
      → IsTabled s
      → m.enabled ≡ 0
      → find_unused 64 0 s.mem ≡ some i
      → Mapped m s m.start m.len true true
          (record m { map_index = some i; enabled = 1 })
          (update_lookup i m.internal (occupied i (region m.start m.len m.desc) s))
  unfolding IsMapped page
  placed-Mapped m s i h off found = record {
    start_set = refl;
    len_set = refl;
    internal = refl;
    desc = refl;
    enabled = refl;
    tabled = IsTabled-place m.start m.len m.desc m.internal s i h found;
    mapped = inr (i, update_lookup-Owns m s i h found);
    entered = λ _ _ k j index from below.
        update_lookup-page m s i j from below ∙ some-injective _ _ index;
    released = λ k own _. absurd (Owns-on m s k own off);
    others = λ k _ apart.
        update_lookup-mem m.internal i (region m.start m.len m.desc) s k (λ e. apart (rw e refl));
  }

  -- What a move leaves, from what enabling the mapping at the new bounds leaves of the memory without
  -- its old region.
  pub moved-Mapped :
      (start len : ℕ) (m : Mapping D) (s : Memory D) (i : ℕ)
      → IsTabled s
      → Owns m s i
      → (on : Bool) (m' : Mapping D) (t : Memory D)
      → Mapped
          (record m { map_index = none; enabled = 0; start = start; len = len })
          (release_map i m.internal s)
          start
          len
          on
          true
          m'
          t
      → Mapped m s start len on true m' t
  unfolding page
  moved-Mapped start len m s i h own on m' t l =
      let (tabled, freed, kept) = release_map-Owns m s i h own in
      record {
        start_set = l.start_set;
        len_set = l.len_set;
        internal = l.internal;
        desc = l.desc;
        enabled = l.enabled;
        tabled = l.tabled;
        mapped = l.mapped;
        entered = l.entered;
        released = λ k own' apart.
            let same : i ≡ k =
              some-injective _ _ (sym (Owns-index m s i own) ∙ Owns-index m s k own') in
            ap (λ (r : Region D). r.used) (l.others k (λ e. ground (arith, e)) apart)
            ∙ subst (λ x. Region.used ((release_map i m.internal s).mem x) ≡ 0) same freed;
        others = λ k no apart.
            l.others k (λ e. ground (arith, e)) apart
            ∙ kept k (λ e. no (Owns-index m s i own ∙ ap (λ x. some x) (sym e)));
      }

  -- A mapping that is not enabled only takes its bounds.
  pub idle-Mapped :
      (start len : ℕ) (m : Mapping D) (s : Memory D) (fresh : Bool)
      → IsTabled s
      → m.enabled ≡ 0
      → Mapped m s start len false fresh (record m { start = start; len = len }) s
  unfolding IsMapped
  idle-Mapped start len m s fresh h off = record {
    start_set = refl;
    len_set = refl;
    internal = refl;
    desc = refl;
    enabled = ground (arith, off);
    tabled = h;
    mapped = inl off;
    entered = λ _ on. absurd (on off);
    released = λ k own _. absurd (Owns-on m s k own off);
    others = λ k _ _. refl;
  }
