-- ===== src/Memory/Paging/Walk.antt =====
-- The walk through the page directory and a page table in src/memory.c.
use pculator.Base.{
  ℕ, ◌+◌, Bool, true, false, not, ◌&&◌, Option, none, some, ◌==◌, ◌!=◌, if◌then◌else◌, bit_and,
  bit_or, u32, ◌<<<◌, ◌>>>◌,
}
use pculator.Memory.Linear.{read_linear_sized, or_phys_u8_direct}
use pculator.Memory.Paging.{
  Machine, MemAccess, PageWalkResult, access_is_write, page_access_is_allowed, raise_page_fault,
}

unfoldable pub entry_addr : ℕ → ℕ → ℕ
entry_addr base index = u32 (bit_and base 0xFFFFF000 + (index <<< 2))

unfoldable pub walk_flags : ℕ → ℕ → ℕ
walk_flags dentry tentry =
    bit_or
      (bit_or (if bit_and dentry 0x4 != 0 && bit_and tentry 0x4 != 0 then 0x02 else 0)
        (if bit_and dentry 0x2 != 0 && bit_and tentry 0x2 != 0 then 0x04 else 0))
      (if bit_and tentry 0x40 != 0 then 0x08 else 0)

module _ {D : Type 0} where
  unfoldable pub fault : ℕ → MemAccess → Bool → Machine D → Machine D
  unfolding raise_page_fault
  fault addr access present s = record s { cpu = raise_page_fault addr access present s.cpu }

  unfoldable pub read_phys_u32 : ℕ → Machine D → ℕ × Machine D
  read_phys_u32 addr s =
      let (value, m) = read_linear_sized s.cpu.a20_gate addr 4 s.memory in
      (value, record s { memory = m })

  unfoldable pub mark : ℕ → ℕ → Machine D → Machine D
  mark addr mask s = record s { memory = or_phys_u8_direct s.cpu.a20_gate addr mask s.memory }

  -- The rest of the walk, once both entries are known to be present.
  unfoldable pub walk_page :
      ℕ → MemAccess → ℕ → ℕ → ℕ → Machine D → Option PageWalkResult × Machine D
  unfolding page_access_is_allowed fault walk_flags mark access_is_write
  walk_page addr access dentry tentry tentry_addr s =
      let allowed =
        page_access_is_allowed s.cpu access (bit_and dentry 0x4 != 0 && bit_and tentry 0x4 != 0)
          (bit_and dentry 0x2 != 0 && bit_and tentry 0x2 != 0) in
      let flags = walk_flags dentry tentry in
      let base = bit_and tentry 0xFFFFF000 in
      if not allowed
      then (none, fault addr access true s)
      else if access_is_write access && bit_and flags 0x08 == 0
      then (
        some (record { phys_base = base; pte_addr = tentry_addr; entry_flags = bit_or flags 0x08 }),
        mark tentry_addr 0x40 s,
      )
      else (some (record { phys_base = base; pte_addr = tentry_addr; entry_flags = flags }), s)

  unfoldable pub walk_table : ℕ → MemAccess → ℕ → Machine D → Option PageWalkResult × Machine D
  unfolding walk_page fault read_phys_u32 mark entry_addr
  walk_table addr access dentry s =
      let tentry_addr = entry_addr dentry (bit_and (addr >>> 12) 0x3FF) in
      let (tentry, t) = read_phys_u32 tentry_addr s in
      if bit_and tentry 1 == 0
      then (none, fault addr access false t)
      else walk_page addr access dentry tentry tentry_addr (mark tentry_addr 0x20 t)

  -- `none` is the result 0.
  unfoldable pub page_walk_translate : ℕ → MemAccess → Machine D → Option PageWalkResult × Machine D
  unfolding walk_table fault read_phys_u32 mark entry_addr
  page_walk_translate addr access s =
      let dentry_addr = entry_addr s.cpu.cr3 (bit_and (addr >>> 22) 0x3FF) in
      let (dentry, t) = read_phys_u32 dentry_addr s in
      if bit_and dentry 1 == 0
      then (none, fault addr access false t)
      else walk_table addr access dentry (mark dentry_addr 0x20 t)
