-- ===== src/Memory/Access.antt =====
-- Reads and writes of src/memory.c at a linear address: paging, accesses that cross a page, and the
-- functions that the processor and the devices call. `none` of a write is the exit of the program
-- when the write cache is full.
pub mod Decode
use pculator.Base.{
  ℕ, zero, suc, ◌+◌, ◌-◌, Bool, true, false, not, ◌&&◌, ◌||◌, Option, none, some, ◌==◌, ◌!=◌, leb,
  if◌then◌else◌, bit_and, bit_or, u8, u16, u32, ◌<<<◌, ◌>>>◌,
}
use pculator.Memory.{Memory, access_stays_on_page}
use pculator.Memory.Linear.{
  read_phys_u8, read_linear_sized, write_linear, write_linear_sized, write_phys_u8_direct,
}
use pculator.Memory.Paging.{Cpu, Machine, MemAccess, paging_enabled, default_access}
use pculator.Memory.Paging.MemAccess.{supervisor_read, supervisor_write}
use pculator.Memory.Paging.Tlb.{translate_page}

-- The test that stops an access after a page fault.
unfoldable pub stopped : Cpu → Bool
stopped c = c.doexception != 0 && c.nowrite != 0

module _ {D : Type 0} where
  unfoldable pub read_linear : ℕ → Machine D → ℕ × Machine D
  read_linear addr s =
      let (value, m) = read_phys_u8 s.cpu.a20_gate addr s.memory in (value, record s { memory = m })

  unfoldable pub read_sized : ℕ → ℕ → Machine D → ℕ × Machine D
  read_sized addr size s =
      let (value, m) = read_linear_sized s.cpu.a20_gate addr size s.memory in
      (value, record s { memory = m })

  unfoldable pub write_byte : ℕ → ℕ → Machine D → Option (Machine D)
  write_byte addr value s =
      elim (write_linear s.cpu.a20_gate s.cpu.nowrite addr value s.memory)
        as (λ _. Option (Machine D)) [ none ↦ none | some m ↦ some (record s { memory = m }) ]

  unfoldable pub write_sized : ℕ → ℕ → ℕ → Machine D → Option (Machine D)
  write_sized addr value size s =
      elim (write_linear_sized s.cpu.a20_gate s.cpu.nowrite addr value size s.memory)
        as (λ _. Option (Machine D)) [ none ↦ none | some m ↦ some (record s { memory = m }) ]

  unfoldable pub read_access_u8 : ℕ → MemAccess → Machine D → ℕ × Machine D
  unfolding stopped read_linear
  read_access_u8 addr access s =
      if stopped s.cpu
      then (0xFF, s)
      else if not (paging_enabled s.cpu)
      then read_linear addr s
      else let (phys, t) = translate_page addr access s in
        if phys == 0xFFFFFFFF then (0xFF, t) else read_linear phys t

  unfoldable pub write_access_u8 : ℕ → ℕ → MemAccess → Machine D → Option (Machine D)
  unfolding write_byte
  write_access_u8 addr value access s =
      if s.cpu.nowrite != 0
      then some s
      else if not (paging_enabled s.cpu)
      then write_byte addr value s
      else let (phys, t) = translate_page addr access s in
        if phys == 0xFFFFFFFF then some t else write_byte phys value t

  -- The loop of `cpu_read_access_split` from byte `i` on, `n` rounds of it.
  unfoldable pub read_split : ℕ → ℕ → ℕ → MemAccess → ℕ → Machine D → ℕ × Machine D
  read_split zero i addr access value s = (value, s)
  read_split (suc n) i addr access value s =
      let (byte, t) = read_access_u8 (u32 (addr + i)) access s in
      let value' = bit_or value (byte <<< (i <<< 3)) in
      let rest = read_split n (i + 1) addr access value' t in
      if stopped t.cpu then (value', t) else rest

  unfoldable pub read_access_split : ℕ → MemAccess → ℕ → Machine D → ℕ × Machine D
  unfolding read_access_u8 stopped read_split
  read_access_split addr access size s =
      let (value, t) = read_access_u8 addr access s in
      if stopped t.cpu then (value, t) else read_split (size - 1) 1 addr access value t

  unfoldable pub read_access_sized : ℕ → MemAccess → ℕ → Machine D → ℕ × Machine D
  unfolding stopped read_access_split read_sized
  read_access_sized addr access size s =
      if stopped s.cpu
      then (0xFF, s)
      else if not (paging_enabled s.cpu)
      then read_sized addr size s
      else if not (access_stays_on_page addr size)
      then read_access_split addr access size s
      else let (phys, t) = translate_page addr access s in
        if phys == 0xFFFFFFFF then (0xFF, t) else read_sized phys size t

  -- The loop of `cpu_write_access_split` from byte `i` on, `n` rounds of it.
  unfoldable pub write_split : ℕ → ℕ → ℕ → ℕ → MemAccess → Machine D → Option (Machine D)
  write_split zero i addr value access s = some s
  write_split (suc n) i addr value access s =
      elim (write_access_u8 (u32 (addr + i)) (u8 (value >>> (i <<< 3))) access s)
        as (λ _. Option (Machine D)) [
          | none ↦ none
          | some t ↦
              let rest = write_split n (i + 1) addr value access t in
              if t.cpu.nowrite != 0 then some t else rest
        ]

  unfoldable pub write_access_split : ℕ → ℕ → MemAccess → ℕ → Machine D → Option (Machine D)
  unfolding write_split
  write_access_split addr value access size s = write_split size 0 addr value access s

  unfoldable pub write_access_sized : ℕ → ℕ → MemAccess → ℕ → Machine D → Option (Machine D)
  unfolding write_access_split write_sized
  write_access_sized addr value access size s =
      if s.cpu.nowrite != 0
      then some s
      else if not (paging_enabled s.cpu)
      then write_sized addr value size s
      else if not (access_stays_on_page addr size)
      then write_access_split addr value access size s
      else let (phys, t) = translate_page addr access s in
        if phys == 0xFFFFFFFF then some t else write_sized phys value size t

  unfoldable pub cpu_write : ℕ → ℕ → Machine D → Option (Machine D)
  unfolding write_access_u8 default_access
  cpu_write addr value s = write_access_u8 addr value (default_access s.cpu true) s

  unfoldable pub cpu_read : ℕ → Machine D → ℕ × Machine D
  unfolding read_access_u8 default_access
  cpu_read addr s = read_access_u8 addr (default_access s.cpu false) s

  unfoldable pub cpu_write_sys : ℕ → ℕ → Machine D → Option (Machine D)
  unfolding write_access_u8
  cpu_write_sys addr value s = write_access_u8 addr value supervisor_write s

  unfoldable pub cpu_read_sys : ℕ → Machine D → ℕ × Machine D
  unfolding read_access_u8
  cpu_read_sys addr s = read_access_u8 addr supervisor_read s

  unfoldable pub cpu_writew : ℕ → ℕ → Machine D → Option (Machine D)
  unfolding write_access_sized default_access
  cpu_writew addr value s = write_access_sized addr value (default_access s.cpu true) 2 s

  unfoldable pub cpu_writel : ℕ → ℕ → Machine D → Option (Machine D)
  unfolding write_access_sized default_access
  cpu_writel addr value s = write_access_sized addr value (default_access s.cpu true) 4 s

  unfoldable pub cpu_readw : ℕ → Machine D → ℕ × Machine D
  unfolding read_access_sized default_access
  cpu_readw addr s =
      let (value, t) = read_access_sized addr (default_access s.cpu false) 2 s in (u16 value, t)

  unfoldable pub cpu_readl : ℕ → Machine D → ℕ × Machine D
  unfolding read_access_sized default_access
  cpu_readl addr s = read_access_sized addr (default_access s.cpu false) 4 s

  unfoldable pub cpu_writew_sys : ℕ → ℕ → Machine D → Option (Machine D)
  unfolding write_access_sized
  cpu_writew_sys addr value s = write_access_sized addr value supervisor_write 2 s

  unfoldable pub cpu_writel_sys : ℕ → ℕ → Machine D → Option (Machine D)
  unfolding write_access_sized
  cpu_writel_sys addr value s = write_access_sized addr value supervisor_write 4 s

  unfoldable pub cpu_readw_sys : ℕ → Machine D → ℕ × Machine D
  unfolding read_access_sized
  cpu_readw_sys addr s =
      let (value, t) = read_access_sized addr supervisor_read 2 s in (u16 value, t)

  unfoldable pub cpu_readl_sys : ℕ → Machine D → ℕ × Machine D
  unfolding read_access_sized
  cpu_readl_sys addr s = read_access_sized addr supervisor_read 4 s

  unfoldable pub cpu_writew_linear : ℕ → ℕ → Machine D → Option (Machine D)
  unfolding write_sized
  cpu_writew_linear addr value s = write_sized addr value 2 s

  unfoldable pub cpu_writel_linear : ℕ → ℕ → Machine D → Option (Machine D)
  unfolding write_sized
  cpu_writel_linear addr value s = write_sized addr value 4 s

  unfoldable pub cpu_readw_linear : ℕ → Machine D → ℕ × Machine D
  unfolding read_sized
  cpu_readw_linear addr s = let (value, t) = read_sized addr 2 s in (u16 value, t)

  unfoldable pub cpu_readl_linear : ℕ → Machine D → ℕ × Machine D
  unfolding read_sized
  cpu_readl_linear addr s = read_sized addr 4 s

  unfoldable pub memory_read_phys_u8 : ℕ → Machine D → ℕ × Machine D
  unfolding read_linear
  memory_read_phys_u8 addr s = read_linear addr s

  unfoldable pub memory_write_phys_u8 : ℕ → ℕ → Machine D → Machine D
  memory_write_phys_u8 addr value s = record s {
    memory = write_phys_u8_direct s.cpu.a20_gate addr value s.memory;
  }
