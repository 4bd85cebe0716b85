-- ===== src/Memory/Paging/Tlb.antt =====
-- `translate_page` of src/memory.c: the translation cache in front of the page walk.
use pculator.Base.{
  ℕ, true, not, ◌&&◌, none, some, ◌==◌, ◌!=◌, if◌then◌else◌, bit_and, bit_or, bit_xor, ◌>>>◌,
}
use pculator.Memory.Paging.{
  Machine, MemAccess, PageWalkResult, TlbEntry, TlbSet, access_is_write, page_access_is_allowed,
  holds_page, set_way, set_mru,
}
use pculator.Memory.Paging.Walk.{fault, mark, page_walk_translate}

-- The way that a new translation goes to.
unfoldable pub victim : TlbSet → ℕ
victim set =
    if bit_and (TlbEntry.flags (set.way 0)) 0x01 == 0
    then 0
    else if bit_and (TlbEntry.flags (set.way 1)) 0x01 == 0
    then 1
    else bit_and (bit_xor set.mru 1) 1

module _ {D : Type 0} where
  -- The lines after the label `tlb_hit`.
  unfoldable pub tlb_hit : ℕ → MemAccess → ℕ → Machine D → ℕ × Machine D
  unfolding page_access_is_allowed fault mark access_is_write set_way set_mru
  tlb_hit addr access index s =
      let i = bit_and (addr >>> 12) 0xFF in
      let entry = TlbSet.way (s.cpu.tlb i) index in
      let phys = bit_or entry.phys_base (bit_and addr 0xFFF) in
      if not (
        page_access_is_allowed s.cpu access (bit_and entry.flags 0x02 != 0)
          (bit_and entry.flags 0x04 != 0))
      then (0xFFFFFFFF, fault addr access true s)
      else if access_is_write access && bit_and entry.flags 0x08 == 0
      then (let t = mark entry.pte_addr 0x40 s in
          let dirty : TlbEntry = record entry { flags = bit_or entry.flags 0x08 } in
          (phys, record t { cpu = set_mru i index (set_way i index dirty t.cpu) }))
      else (phys, record s { cpu = set_mru i index s.cpu })

  unfoldable pub tlb_fill : ℕ → PageWalkResult → Machine D → ℕ × Machine D
  unfolding victim set_way set_mru
  tlb_fill addr walk s =
      let page = addr >>> 12 in
      let i = bit_and page 0xFF in
      let index = victim (s.cpu.tlb i) in
      let entry : TlbEntry = record {
        tag = page;
        phys_base = walk.phys_base;
        pte_addr = walk.pte_addr;
        flags = bit_or walk.entry_flags 0x01;
      } in
      (
        bit_or walk.phys_base (bit_and addr 0xFFF),
        record s { cpu = set_mru i index (set_way i index entry s.cpu) },
      )

  unfoldable pub translate_miss : ℕ → MemAccess → Machine D → ℕ × Machine D
  unfolding page_walk_translate tlb_fill
  translate_miss addr access s =
      let (walk, t) = page_walk_translate addr access s in
      elim walk as (λ _. ℕ × Machine D) [ none ↦ (0xFFFFFFFF, t) | some w ↦ tlb_fill addr w t ]

  unfoldable pub translate_page : ℕ → MemAccess → Machine D → ℕ × Machine D
  unfolding tlb_hit translate_miss holds_page
  translate_page addr access s =
      let page = addr >>> 12 in
      let i = bit_and page 0xFF in
      let set = s.cpu.tlb i in
      let index = bit_and set.mru 1 in
      let second = bit_xor index 1 in
      if holds_page page (set.way index)
      then tlb_hit addr access index s
      else if holds_page page (set.way second)
      then tlb_hit addr access second (record s { cpu = set_mru i second s.cpu })
      else translate_miss addr access s
