-- ===== src/Memory/Paging/Again.antt =====
-- The translation cache of src/memory.c over several accesses: a repeated translation, and an entry
-- that was dropped.
use pculator.Base.{
  ℕ, ◌<◌, ◌≡◌, ◌≢◌, refl, sym, ap, ◌∙◌, fun_ext, true, false, ◌&&◌, arith, inl, inr, ◌==◌,
  Bool-cases, ==_self, ==_iff, bit_and, bit_and_mask, ◌>>>◌,
}
use pculator.Memory.Paging.{
  Cpu, Machine, MemAccess, TlbEntry, TlbSet, access_is_write, holds_page, set_mru, drop_page,
  tlb_invalidate_page, tlb_flush,
}
use pculator.Memory.Paging.Tlb.{tlb_hit, translate_miss, translate_page}
use pculator.Memory.Paging.Permission.{Grants}
use pculator.Memory.Paging.Entries.{set_of, first_entry, Cached}
use pculator.Memory.Paging.Translate.{Outcome, Faulted, Granted, translate_page-Outcome}

low_bit : (n : ℕ) → n < 2 → bit_and n 1 ≡ n
low_bit n h = rw (bit_and_mask 1 n) (omega arith)

-- Setting the most recent way to what it is.
set_mru-same : (i : ℕ) (c : Cpu) → set_mru i (TlbSet.mru (c.tlb i)) c ≡ c
unfolding set_mru
set_mru-same i c =
    ap (λ f. record c { tlb = f })
      (fun_ext (λ j. elim (Bool-cases (j == i)) [
        | inl e ↦ rw e (ap c.tlb (sym ((==_iff j i).0 e)))
        | inr e ↦ rw e refl
      ]))

drop_page-holds : (page : ℕ) (e : TlbEntry) → holds_page page (drop_page page e) ≡ false
unfolding drop_page holds_page
drop_page-holds page e = elim (Bool-cases (holds_page page e)) [
  | inl h ↦ rw (drop_page, h) refl
  | inr h ↦ rw (drop_page, h) h
]

-- Neither way of the set holds the page once it is invalidated.
tlb_invalidate_page-holds :
    (linear : ℕ) (c : Cpu)
    → let ways = TlbSet.way ((tlb_invalidate_page linear c).tlb (set_of linear)) in
      (holds_page (linear >>> 12) (ways 0) ≡ false) × (holds_page (linear >>> 12) (ways 1) ≡ false)
unfolding tlb_invalidate_page
tlb_invalidate_page-holds linear c =
    let ways = TlbSet.way (c.tlb (set_of linear)) in
    rw (==_self (set_of linear))
      (drop_page-holds (linear >>> 12) (ways 0), drop_page-holds (linear >>> 12) (ways 1))

module _ {D : Type 0} where
  tlb_hit-Cached :
      (addr : ℕ) (access : MemAccess) (s : Machine D) (phys : ℕ)
      → Cached addr access s.cpu phys
      → tlb_hit addr access (TlbSet.mru (s.cpu.tlb (set_of addr))) s ≡ (phys, s)
  unfolding Cached tlb_hit Grants
  tlb_hit-Cached addr access s phys (low, holds, (ok, ready), same) =
      let clean : (access_is_write access
            && bit_and (TlbEntry.flags (first_entry addr s.cpu)) 8 == 0)
          ≡ false =
        ground (arith, ready) in
      rw (tlb_hit, ok, clean, set_mru-same (set_of addr) s.cpu, same) refl

  translate_page-first :
      (addr : ℕ) (access : MemAccess) (s : Machine D)
      → TlbSet.mru (s.cpu.tlb (set_of addr)) < 2
      → holds_page (addr >>> 12) (first_entry addr s.cpu) ≡ true
      → translate_page addr access s ≡ tlb_hit addr access (TlbSet.mru (s.cpu.tlb (set_of addr))) s
  unfolding translate_page
  translate_page-first addr access s low holds =
      rw (translate_page, low_bit (TlbSet.mru (s.cpu.tlb (set_of addr))) low, holds) refl

  -- What the cache holds is answered again with nothing read or written.
  pub translate_page-Cached :
      (addr : ℕ) (access : MemAccess) (s : Machine D) (phys : ℕ)
      → Cached addr access s.cpu phys
      → translate_page addr access s ≡ (phys, s)
  unfolding Cached
  translate_page-Cached addr access s phys h =
      translate_page-first addr access s h.0 h.1 ∙ tlb_hit-Cached addr access s phys h

  -- A translation that raised no page fault, done again at once, gives the same address and leaves
  -- the processor, the memory and the cache as they are: no page table is read.
  pub translate_page-again :
      (addr : ℕ) (access : MemAccess) (s : Machine D)
      → (translate_page addr access s).0 ≢ 0xFFFFFFFF
      → translate_page addr access (translate_page addr access s).1 ≡ translate_page addr access s
  unfolding Outcome Faulted Granted
  translate_page-again addr access s answered = elim (translate_page-Outcome addr access s) [
    | inl (e, present, tlb, cpu) ↦ absurd (answered e)
    | inr (cached, tlb, cpu) ↦
        translate_page-Cached addr access (translate_page addr access s).1
          (translate_page addr access s).0 cached
  ]

  -- The way found in a set after both ways have lost the page.
  translate_page-miss :
      (addr : ℕ) (access : MemAccess) (s : Machine D)
      → holds_page (addr >>> 12) (TlbSet.way (s.cpu.tlb (set_of addr)) 0) ≡ false
      → holds_page (addr >>> 12) (TlbSet.way (s.cpu.tlb (set_of addr)) 1) ≡ false
      → translate_page addr access s ≡ translate_miss addr access s
  unfolding translate_page
  translate_page-miss addr access s zeroth first =
      let index = bit_and (TlbSet.mru (s.cpu.tlb (set_of addr))) 1 in
      let low : index < 2 =
        rw (bit_and_mask 1 (TlbSet.mru (s.cpu.tlb (set_of addr)))) (omega arith) in
      elim (Bool-cases (index == 0)) [
        | inl e ↦
            let zero' : index ≡ 0 = (==_iff index 0).0 e in
            rw (translate_page, zero', zeroth, first) refl
        | inr e ↦
            let one : index ≡ 1 = ground (arith, e, low) in
            rw (translate_page, one, zeroth, first) refl
      ]

  -- After a page is invalidated, the next translation of an address on it walks the page tables; so
  -- does every translation after the cache is flushed.
  pub tlb_invalidate_page-translate_page :
      (linear addr : ℕ) (access : MemAccess) (s : Machine D)
      → (addr >>> 12) ≡ (linear >>> 12)
      → (let t = record s { cpu = tlb_invalidate_page linear s.cpu } in
          translate_page addr access t ≡ translate_miss addr access t)
        × (let t = record s { cpu = tlb_flush s.cpu } in
            translate_page addr access t ≡ translate_miss addr access t)
  unfolding tlb_flush holds_page
  tlb_invalidate_page-translate_page linear addr access s same =
      let c = tlb_invalidate_page linear s.cpu in
      let gone : (holds_page (addr >>> 12) (TlbSet.way (c.tlb (set_of addr)) 0) ≡ false)
          × (holds_page (addr >>> 12) (TlbSet.way (c.tlb (set_of addr)) 1) ≡ false) =
        rw same (tlb_invalidate_page-holds linear s.cpu) in
      (
        translate_page-miss addr access (record s { cpu = c }) gone.0 gone.1,
        translate_page-miss addr access (record s { cpu = tlb_flush s.cpu }) refl refl,
      )
