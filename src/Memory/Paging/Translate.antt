-- ===== src/Memory/Paging/Translate.antt =====
-- What `translate_page` of src/memory.c answers: a permitted translation that the cache then holds,
-- or a page fault.
use pculator.Base.{
  ℕ, ◌<◌, ◌≡◌, refl, sym, ap, ◌∙◌, Bool, true, false, ◌&&◌, arith, Option, none, some, inl, inr,
  ◌⊎◌, ◌==◌, Bool-cases, bit_and, bit_or, bit_xor, bit_xor-lt, bit_and_mask, has, ◌>>>◌, subst,
}
use pculator.Memory.Paging.{
  Cpu, Machine, MemAccess, PageWalkResult, TlbEntry, TlbSet, access_is_write,
  page_access_is_allowed, raise_page_fault, holds_page, set_way, set_mru,
}
use pculator.Memory.Paging.Walk.{
  fault, mark, read_phys_u32, entry_addr, walk_flags, walk_page, walk_table, page_walk_translate,
}
use pculator.Memory.Paging.Tlb.{tlb_hit, tlb_fill, victim, translate_miss, translate_page}
use pculator.Memory.Paging.Permission.{Grants, Grants-dirty, Grants-valid, has-walk_flags}
use pculator.Memory.Paging.Entries.{
  set_of, Cached, holds_page-dirty, holds_page-new, victim-lt, set_mru-set, Cached-set_way,
  Cached-set_mru,
}

module _ {D : Type 0} where
  -- A page fault was raised, at this address and for this access.
  unfoldable pub Faulted : ℕ → MemAccess → Machine D → ℕ × Machine D → Type 0
  unfolding raise_page_fault
  Faulted addr access s r =
      (r.0 ≡ 0xFFFFFFFF)
      × (present : Bool) × (tlb : ℕ → TlbSet) × (r.1.cpu
          ≡ raise_page_fault addr access present (record s.cpu { tlb = tlb }))

  unfoldable pub Granted : ℕ → MemAccess → Machine D → ℕ × Machine D → Type 0
  unfolding Cached
  Granted addr access s r =
      Cached addr access r.1.cpu r.0 × (tlb : ℕ → TlbSet) × (r.1.cpu ≡ record s.cpu { tlb = tlb })

  unfoldable pub Outcome : ℕ → MemAccess → Machine D → ℕ × Machine D → Type 0
  unfolding Faulted Granted
  Outcome addr access s r = Faulted addr access s r ⊎ Granted addr access s r

  tlb_hit-Outcome :
      (addr : ℕ) (access : MemAccess) (index : ℕ) (s : Machine D)
      → index < 2
      → holds_page (addr >>> 12) (TlbSet.way (s.cpu.tlb (set_of addr)) index) ≡ true
      → Outcome addr access s (tlb_hit addr access index s)
  unfolding Outcome tlb_hit set_mru set_way fault mark Grants
  tlb_hit-Outcome addr access index s low holds =
      let e = TlbSet.way (s.cpu.tlb (set_of addr)) index in
      elim (Bool-cases (
        page_access_is_allowed s.cpu access (has (TlbEntry.flags e) 2)
          (has (TlbEntry.flags e) 4))) [
            | inr denied ↦ rw (tlb_hit, denied) (inl (refl, true, s.cpu.tlb, refl))
            | inl ok ↦
                elim (Bool-cases (access_is_write access && bit_and (TlbEntry.flags e) 8 == 0)) [
                  | inl new ↦
                      rw (tlb_hit, ok, new)
                        (inr (
                          Cached-set_way addr access index
                              (record e { flags = bit_or (TlbEntry.flags e) 8 }) s.cpu low
                              (holds_page-dirty (addr >>> 12) e holds)
                              (Grants-dirty s.cpu access (TlbEntry.flags e) ok),
                          _,
                          refl,
                        ))
                  | inr old ↦
                      rw (tlb_hit, ok, old)
                        (inr (
                          Cached-set_mru addr access index s.cpu low holds
                              (ok, ground (arith, old)),
                          _,
                          refl,
                        ))
                ]
          ]

  tlb_fill-Granted :
      (addr : ℕ) (access : MemAccess) (w : PageWalkResult) (s t : Machine D)
      → t.cpu ≡ s.cpu
      → Grants s.cpu access w.entry_flags
      → Granted addr access s (tlb_fill addr w t)
  unfolding Granted tlb_fill set_mru set_way Grants
  tlb_fill-Granted addr access w s t same grants =
      let e : TlbEntry = record {
        tag = addr >>> 12;
        phys_base = w.phys_base;
        pte_addr = w.pte_addr;
        flags = bit_or w.entry_flags 0x01;
      } in
      let index = victim (t.cpu.tlb (set_of addr)) in
      let granted : Grants t.cpu access e.flags =
        Grants-valid t.cpu access w.entry_flags
          (subst (λ c. Grants c access w.entry_flags) (sym same) grants) in
      (
        Cached-set_way addr access index e t.cpu (victim-lt (t.cpu.tlb (set_of addr)))
            (holds_page-new (addr >>> 12) e.phys_base e.pte_addr w.entry_flags) granted,
        (set_mru (set_of addr) index (set_way (set_of addr) index e t.cpu)).tlb,
        ap
            (λ (c : Cpu). record c {
              tlb = (set_mru (set_of addr) index (set_way (set_of addr) index e t.cpu)).tlb;
            })
            same,
      )

  -- A walk finds a translation that grants the access, or raises a page fault.
  unfoldable pub Walked : ℕ → MemAccess → Machine D → Option PageWalkResult × Machine D → Type 0
  unfolding Grants raise_page_fault
  Walked addr access s r =
      ((r.0 ≡ none) × (present : Bool) × (r.1.cpu ≡ raise_page_fault addr access present s.cpu))
      ⊎ ((w : PageWalkResult) × (r.0 ≡ some w)
          × Grants s.cpu access w.entry_flags
          × (r.1.cpu ≡ s.cpu))

  Walked-cpu :
      (addr : ℕ) (access : MemAccess) (s t : Machine D) (r : Option PageWalkResult × Machine D)
      → t.cpu ≡ s.cpu
      → Walked addr access t r
      → Walked addr access s r
  unfolding Walked
  Walked-cpu addr access s t r same h = rw (sym same) h

  walk_page-Walked :
      (addr : ℕ) (access : MemAccess) (dentry tentry tentry_addr : ℕ) (s : Machine D)
      → Walked addr access s (walk_page addr access dentry tentry tentry_addr s)
  unfolding Walked walk_page Grants fault mark
  walk_page-Walked addr access dentry tentry tentry_addr s =
      let (user, write, dirty) = has-walk_flags dentry tentry in
      elim (Bool-cases (
        page_access_is_allowed s.cpu access (has dentry 4 && has tentry 4)
          (has dentry 2 && has tentry 2))) [
            | inr denied ↦ rw (walk_page, denied) (inl (refl, true, refl))
            | inl ok ↦
                let allowed : page_access_is_allowed s.cpu access (has (walk_flags dentry tentry) 2)
                      (has (walk_flags dentry tentry) 4)
                    ≡ true =
                  rw (user, write) ok in
                elim (Bool-cases
                  (access_is_write access && bit_and (walk_flags dentry tentry) 8 == 0)) [
                    | inl new ↦
                        rw (walk_page, ok, new)
                          (inr (
                            _,
                            refl,
                            Grants-dirty s.cpu access (walk_flags dentry tentry) allowed,
                            refl,
                          ))
                    | inr old ↦
                        rw (walk_page, ok, old)
                          (inr (_, refl, (allowed, ground (arith, old)), refl))
                  ]
          ]

  walk_table-Walked :
      (addr : ℕ) (access : MemAccess) (dentry : ℕ) (s t : Machine D)
      → t.cpu ≡ s.cpu
      → Walked addr access s (walk_table addr access dentry t)
  unfolding Walked walk_table fault mark read_phys_u32
  walk_table-Walked addr access dentry s t same =
      let tentry_addr = entry_addr dentry (bit_and (addr >>> 12) 0x3FF) in
      let (tentry, t') = read_phys_u32 tentry_addr t in
      elim (Bool-cases (bit_and tentry 1 == 0)) [
        | inl missing ↦
            rw (walk_table, missing)
              (inl (refl, false, ap (raise_page_fault addr access false) same))
        | inr present ↦
            rw (walk_table, present)
              (Walked-cpu addr access s (mark tentry_addr 0x20 t')
                (walk_page addr access dentry tentry tentry_addr (mark tentry_addr 0x20 t')) same
                (walk_page-Walked addr access dentry tentry tentry_addr (mark tentry_addr 0x20 t')))
      ]

  page_walk-Walked :
      (addr : ℕ) (access : MemAccess) (s : Machine D)
      → Walked addr access s (page_walk_translate addr access s)
  unfolding Walked page_walk_translate fault mark read_phys_u32
  page_walk-Walked addr access s =
      let dentry_addr = entry_addr s.cpu.cr3 (bit_and (addr >>> 22) 0x3FF) in
      let (dentry, t) = read_phys_u32 dentry_addr s in
      elim (Bool-cases (bit_and dentry 1 == 0)) [
        | inl missing ↦ rw (page_walk_translate, missing) (inl (refl, false, refl))
        | inr present ↦
            rw (page_walk_translate, present)
              (walk_table-Walked addr access dentry s (mark dentry_addr 0x20 t) refl)
      ]

  translate_miss-Outcome :
      (addr : ℕ) (access : MemAccess) (s : Machine D)
      → Outcome addr access s (translate_miss addr access s)
  unfolding Outcome translate_miss Walked
  translate_miss-Outcome addr access s = elim (page_walk-Walked addr access s) [
    | inl (e, present, cpu) ↦ rw (translate_miss, e) (inl (refl, present, s.cpu.tlb, cpu))
    | inr (w, e, grants, same) ↦
        rw (translate_miss, e)
          (inr (tlb_fill-Granted addr access w s (page_walk_translate addr access s).1 same grants))
  ]

  second_hit-Outcome :
      (addr : ℕ) (access : MemAccess) (second : ℕ) (s : Machine D)
      → second < 2
      → holds_page (addr >>> 12) (TlbSet.way (s.cpu.tlb (set_of addr)) second) ≡ true
      → Outcome addr access s
          (tlb_hit addr access second (record s { cpu = set_mru (set_of addr) second s.cpu }))
  unfolding Outcome set_mru
  second_hit-Outcome addr access second s low holds =
      tlb_hit-Outcome addr access second (record s { cpu = set_mru (set_of addr) second s.cpu }) low
        (ap (λ (set : TlbSet). holds_page (addr >>> 12) (set.way second))
            (set_mru-set (set_of addr) second s.cpu)
          ∙ holds)

  -- A translation either raises a page fault, with the answer 0xFFFFFFFF and nothing of the processor
  -- changed but the cache and what the fault sets, or the cache then holds a valid entry for the page
  -- that permits this access, dirty when the access writes, and the answer is the entry's address
  -- with the offset in the page.
  pub translate_page-Outcome :
      (addr : ℕ) (access : MemAccess) (s : Machine D)
      → Outcome addr access s (translate_page addr access s)
  unfolding Outcome translate_page set_mru
  translate_page-Outcome addr access s =
      let page = addr >>> 12 in
      let set = s.cpu.tlb (set_of addr) in
      let index = bit_and set.mru 1 in
      let low : index < 2 = rw (bit_and_mask 1 set.mru) (omega arith) in
      let second = bit_xor index 1 in
      let low' : second < 2 = bit_xor-lt 1 index 1 low (omega arith) in
      elim (Bool-cases (holds_page page (set.way index))) [
        | inl e ↦ rw (translate_page, e) (tlb_hit-Outcome addr access index s low e)
        | inr e ↦ elim (Bool-cases (holds_page page (set.way second))) [
          | inl e' ↦ rw (translate_page, e, e') (second_hit-Outcome addr access second s low' e')
          | inr e' ↦ rw (translate_page, e, e') (translate_miss-Outcome addr access s)
        ]
      ]
