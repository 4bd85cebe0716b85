-- ===== src/Ports/Handlers.antt =====
-- The handlers of src/ports.c: registering and removing them, and the slots that a lookup searches.
use pculator.Base.{
  ℕ, zero, suc, ◌+◌, ◌≤◌, ◌<◌, ◌≡◌, ◌≢◌, refl, sym, ap, subst, ◌∙◌, true, false, ◌&&◌, ◌||◌, arith,
  none, some, some-injective, inl, inr, ◌==◌, ltb, leb, Bool-cases, Option-cases, ==_iff,
  if◌then◌else◌, update, update_self, update_ne, u32,
}
use pculator.Ports.{
  Port, Ports, serves, highest, getportmap, find_free, cb_register_ex, overlaps, range_end,
  drop_range, count_used, cb_unregister,
}
use pculator.Ports.Table.{
  IsSearched, joined, highest-more, highest-update, highest-none, drop_range-get, drop_range-used,
  drop_range-serves,
}

module _ {D : Type 0} where
  find_free-some :
      (n i : ℕ) (ports : ℕ → Port D) (k : ℕ)
      → find_free n i ports ≡ some k
      → (k < i + n) × (Port.used (ports k) ≡ 0)
  unfolding find_free
  find_free-some zero i ports k h = ground arith
  find_free-some (suc n) i ports k h = elim (Bool-cases (Port.used (ports i) == 0)) [
    | inl e ↦ ground (arith, e)
    | inr e ↦ let rest = find_free-some n (i + 1) ports k in ground (arith, e, rest)
  ]

  unfoldable pub registered : ℕ → ℕ → ℕ → Port D → Ports D → Ports D
  registered i start count p s = record s {
    ports = update s.ports i (record p { start = start; size = count; used = 1 });
    searched = if ltb i s.searched then s.searched else i + 1;
  }

  cb_register_ex-some :
      (start count : ℕ) (p : Port D) (s t : Ports D)
      → cb_register_ex start count p s ≡ some t
      → (i : ℕ) × (find_free 64 0 s.ports ≡ some i) × (registered i start count p s ≡ t)
  unfolding cb_register_ex registered
  cb_register_ex-some start count p s t h = elim (Option-cases (find_free 64 0 s.ports)) [
    | inl e ↦ ground (arith, e, h)
    | inr (i, e) ↦
        let found : cb_register_ex start count p s ≡ some (registered i start count p s) =
          rw (cb_register_ex, e) refl in
        (i, e, some-injective _ _ (sym found ∙ h))
  ]

  -- Registering a handler keeps every slot in use among the 64 and among those that are searched.
  pub cb_register_ex-IsSearched :
      (start count : ℕ) (p : Port D) (s t : Ports D)
      → IsSearched s
      → cb_register_ex start count p s ≡ some t
      → IsSearched t
  unfolding IsSearched registered
  cb_register_ex-IsSearched start count p s t h e =
      let (i, found, same) = cb_register_ex-some start count p s t e in
      let (low, unused) = find_free-some 64 0 s.ports i found in
      subst IsSearched same (λ j used. elim (Bool-cases (j == i)) [
        | inl q ↦ ground (arith, q, low)
        | inr q ↦
            let old =
              h j (λ z. used (ap Port.used (update_ne s.ports i j _ (ground (arith, q))) ∙ z)) in
            ground (arith, old)
      ])

  -- In a table whose slots in use are all searched, the lookup is the one over all 64 slots.
  getportmap-all :
      (s : Ports D) (addr : ℕ)
      → IsSearched s
      → (n : ℕ) → s.searched ≤ n
      → getportmap s addr ≡ highest n s.ports addr
  unfolding getportmap IsSearched
  getportmap-all s addr h n le = sym (
      highest-more n s.searched s.ports addr le (λ i above.
        elim (Bool-cases (Port.used (s.ports i) == 0)) [
          | inl e ↦ (==_iff (Port.used (s.ports i)) 0).0 e
          | inr e ↦
              let within = h i (λ z. ground (arith, z, e)) in
              absurd (omega (arith, within.0, above))
        ]))

  -- After a handler is registered, in a slot `i` that was free, an address of its range goes to it
  -- unless a higher slot serves the address already, and then to that one as before; every other
  -- address goes where it went.
  pub cb_register_ex-getportmap :
      (start count : ℕ) (p : Port D) (s t : Ports D) (addr : ℕ)
      → IsSearched s
      → cb_register_ex start count p s ≡ some t
      → (i : ℕ) × (Port.used (s.ports i) ≡ 0)
        × (t.ports i ≡ record p { start = start; size = count; used = 1 })
        × (getportmap t addr ≡ (
            if leb start addr && ltb addr (u32 (start + count))
            then joined i (getportmap s addr)
            else getportmap s addr))
  unfolding getportmap registered serves
  cb_register_ex-getportmap start count p s t addr h e =
      let (i, found, same) = cb_register_ex-some start count p s t e in
      let (low, unused) = find_free-some 64 0 s.ports i found in
      let new : Port D = record p { start = start; size = count; used = 1 } in
      let n = if ltb i s.searched then s.searched else i + 1 in
      let inside : i < n = ground arith in
      let covers : s.searched ≤ n = ground arith in
      let before : getportmap s addr ≡ highest n s.ports addr = getportmap-all s addr h n covers in
      subst
        (λ (r : Ports D).
          (i : ℕ) × (Port.used (s.ports i) ≡ 0)
          × (r.ports i ≡ new)
          × (getportmap r addr ≡ (
              if leb start addr && ltb addr (u32 (start + count))
              then joined i (getportmap s addr)
              else getportmap s addr)))
        same
        (
          i,
          unused,
          update_self s.ports i new,
          highest-update n i new s.ports addr unused inside
              ∙ ap (λ o. if leb start addr && ltb addr (u32 (start + count)) then joined i o else o)
                  (sym before),
        )

  count_used-le : (n : ℕ) (ports : ℕ → Port D) → count_used n ports ≤ n
  unfolding count_used
  count_used-le zero ports = omega arith
  count_used-le (suc n) ports = let rest = count_used-le n ports in ground (arith, rest)

  count_used-lt :
      (n : ℕ) (ports : ℕ → Port D) (i : ℕ)
      → i < n
      → Port.used (ports i) ≢ 0
      → i < count_used n ports
  unfolding count_used
  count_used-lt zero ports i h used = absurd (omega arith)
  count_used-lt (suc n) ports i h used = elim (Bool-cases (i == n)) [
    | inl e ↦
        let same : i ≡ n = (==_iff i n).0 e in
        let top : Port.used (ports n) ≢ 0 = subst (λ k. Port.used (ports k) ≢ 0) same used in
        ground (arith, same, top)
    | inr e ↦
        let rest = count_used-lt n ports i (ground (arith, e, h)) used in ground (arith, rest, e, h)
  ]

  cb_unregister-nothing :
      (start count : ℕ) (s : Ports D)
      → (count == 0 || leb 0x10000 start) ≡ true
      → cb_unregister start count s ≡ s
  unfolding cb_unregister
  cb_unregister-nothing start count s e = rw (cb_unregister, e) refl

  cb_unregister-eq :
      (start count : ℕ) (s : Ports D)
      → (count == 0 || leb 0x10000 start) ≡ false
      → let ports = drop_range 64 start (range_end start count) s.ports in
        cb_unregister start count s ≡ record s { ports = ports; searched = count_used 64 ports }
  unfolding cb_unregister
  cb_unregister-eq start count s e = rw (cb_unregister, e) refl

  -- Removing handlers keeps every slot in use among the 64 and among those that are searched.
  pub cb_unregister-IsSearched :
      (start count : ℕ) (s : Ports D) → IsSearched s → IsSearched (cb_unregister start count s)
  unfolding IsSearched
  cb_unregister-IsSearched start count s h = elim (Bool-cases (count == 0 || leb 0x10000 start)) [
    | inl e ↦ subst IsSearched (sym (cb_unregister-nothing start count s e)) h
    | inr e ↦
        let ports = drop_range 64 start (range_end start count) s.ports in
        subst IsSearched (sym (cb_unregister-eq start count s e)) (λ i used.
          let within = h i (drop_range-used 64 start (range_end start count) s.ports i used) in
          (count_used-lt 64 ports i within.1 used, within.1))
  ]

  -- After the handlers of a range are removed no handler answers an address of the range, and a slot
  -- that did not overlap it is as it was. The range is not empty, starts at a port address and is cut
  -- where the port addresses end.
  pub cb_unregister-getportmap :
      (start count : ℕ) (s : Ports D) (addr : ℕ)
      → count ≢ 0
      → start ≤ addr
      → addr < 0x10000
      → addr < u32 (start + count)
      → (getportmap (cb_unregister start count s) addr ≡ none)
        × ((i : ℕ)
            → overlaps start (range_end start count) (s.ports i) ≡ false
            → (cb_unregister start count s).ports i ≡ s.ports i)
  unfolding getportmap
  cb_unregister-getportmap start count s addr some' from low inside =
      let end = range_end start count in
      let ports = drop_range 64 start end s.ports in
      let ok : (count == 0 || leb 0x10000 start) ≡ false = ground (arith, some', from, low) in
      let top : addr < end = ground (arith, low, inside) in
      rw (cb_unregister-eq start count s ok) (
        highest-none (count_used 64 ports) ports addr (λ i below.
            drop_range-serves 64 start end s.ports i addr
              (omega (arith, below, count_used-le 64 ports)) from top),
        λ i apart. drop_range-get 64 start end s.ports i ∙ ground (arith, apart),
      )

  pub getportmap-highest :
      (s : Ports D) (addr : ℕ) → IsSearched s → getportmap s addr ≡ highest 64 s.ports addr
  unfolding getportmap IsSearched
  getportmap-highest s addr h = elim (Bool-cases (leb s.searched 64)) [
    | inl e ↦ getportmap-all s addr h 64 (ground (arith, e))
    | inr e ↦ highest-more s.searched 64 s.ports addr (ground (arith, e)) (λ i above.
        elim (Bool-cases (Port.used (s.ports i) == 0)) [
          | inl e' ↦ (==_iff (Port.used (s.ports i)) 0).0 e'
          | inr e' ↦
              let within = h i (λ z. ground (arith, z, e')) in
              absurd (omega (arith, within.1, above))
        ])
  ]
