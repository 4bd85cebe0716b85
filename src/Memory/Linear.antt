-- ===== src/Memory/Linear.antt =====
-- Reads and writes of src/memory.c at a physical address: byte by byte, or 2 or 4 bytes at once.
pub mod Range
pub mod Sized
use pculator.Base.{
  ℕ, zero, suc, ◌+◌, Bool, true, false, not, ◌&&◌, ◌||◌, Option, none, some, ◌==◌, ◌!=◌, ltb, leb,
  if◌then◌else◌, bit_and, bit_or, u8, u16, u32, ◌<<<◌, ◌>>>◌,
}
use pculator.Memory.{
  Memory, Region, access_stays_on_page, lookup_map, lookup_map_range, desc_read_u8,
  desc_read_u16_direct, desc_read_u32_direct, desc_write_u8,
}
use pculator.Memory.Cache.{wrcache_read, wrcache_write, wrcache_has_overlap}

unfoldable pub apply_a20 : ℕ → ℕ → ℕ
apply_a20 a20_gate addr = if a20_gate == 0 then bit_and addr 0xFFFFF else addr

-- The physical address and the region of an access that need not be split.
pub record Direct (D : Type 0) : Type 0 where
  pub phys : ℕ
  pub map : Region D

module _ {D : Type 0} where
  unfoldable pub access_can_direct : ℕ → ℕ → ℕ → Bool → Memory D → Option (Direct D)
  unfolding apply_a20
  access_can_direct a20_gate addr size is_write s =
      let phys = apply_a20 a20_gate addr in
      if leb size 1 || (a20_gate == 0 && ltb 0x100000 (bit_and addr 0xFFFFF + size))
      then none
      else if not (access_stays_on_page phys size)
      then none
      else elim (lookup_map_range s phys size is_write) as (λ _. Option (Direct D)) [
        | none ↦ none
        | some map ↦ some (record { phys = phys; map = map })
      ]

  unfoldable pub read_phys_u8 : ℕ → ℕ → Memory D → ℕ × Memory D
  unfolding apply_a20
  read_phys_u8 a20_gate addr s =
      let phys = apply_a20 a20_gate addr in
      elim (wrcache_read phys s) as (λ _. ℕ × Memory D) [
        | some value ↦ (value, s)
        | none ↦
            let map = lookup_map s phys false in
            if map == 0xFF then (0xFF, s) else desc_read_u8 (s.mem map) phys s
      ]

  -- The loop of `cpu_read_linear_fallback` from byte `i` on, `n` rounds of it.
  unfoldable pub read_bytes : ℕ → ℕ → ℕ → ℕ → ℕ → Memory D → ℕ × Memory D
  read_bytes a20_gate zero i addr value s = (value, s)
  read_bytes a20_gate (suc n) i addr value s =
      let (byte, t) = read_phys_u8 a20_gate (u32 (addr + i)) s in
      read_bytes a20_gate n (i + 1) addr (bit_or value (byte <<< (i <<< 3))) t

  unfoldable pub read_linear_fallback : ℕ → ℕ → ℕ → Memory D → ℕ × Memory D
  unfolding read_bytes
  read_linear_fallback a20_gate addr size s = read_bytes a20_gate size 0 addr 0 s

  -- The two reads at once; `none` where the code goes on to the loop.
  unfoldable pub read_direct : ℕ → Direct D → Memory D → Option (ℕ × Memory D)
  read_direct size d s =
      if size == 2
      then desc_read_u16_direct d.map d.phys s
      else if size == 4
      then desc_read_u32_direct d.map d.phys s
      else none

  unfoldable pub read_linear_sized : ℕ → ℕ → ℕ → Memory D → ℕ × Memory D
  unfolding read_linear_fallback read_direct
  read_linear_sized a20_gate addr size s =
      if size == 1
      then read_phys_u8 a20_gate addr s
      else elim (access_can_direct a20_gate addr size false s) as (λ _. ℕ × Memory D) [
        | none ↦ read_linear_fallback a20_gate addr size s
        | some d ↦
            if wrcache_has_overlap d.phys size s
            then read_linear_fallback a20_gate addr size s
            else elim (read_direct size d s) as (λ _. ℕ × Memory D) [
              | some r ↦ r
              | none ↦ read_linear_fallback a20_gate addr size s
            ]
      ]

  -- A write past the cache, used for the bits in page tables and for DMA.
  unfoldable pub write_phys_u8_direct : ℕ → ℕ → ℕ → Memory D → Memory D
  unfolding apply_a20
  write_phys_u8_direct a20_gate addr value s =
      let phys = apply_a20 a20_gate addr in
      elim (lookup_map_range s phys 1 true) as (λ _. Memory D) [
        | none ↦ s
        | some map ↦ desc_write_u8 map phys value s
      ]

  unfoldable pub or_phys_u8_direct : ℕ → ℕ → ℕ → Memory D → Memory D
  or_phys_u8_direct a20_gate addr mask s =
      let (value, t) = read_phys_u8 a20_gate addr s in
      if bit_and value mask == mask
      then t
      else write_phys_u8_direct a20_gate addr (bit_or value mask) t

  -- `none` is the exit of the program when the write cache is full. `nowrite` is set by a page fault.
  unfoldable pub write_linear : ℕ → ℕ → ℕ → ℕ → Memory D → Option (Memory D)
  unfolding apply_a20
  write_linear a20_gate nowrite addr value s =
      if nowrite != 0 then some s else wrcache_write (apply_a20 a20_gate addr) value 1 s

  unfoldable pub write_bytes : ℕ → ℕ → ℕ → ℕ → ℕ → ℕ → Memory D → Option (Memory D)
  write_bytes a20_gate nowrite zero i addr value s = some s
  write_bytes a20_gate nowrite (suc n) i addr value s =
      elim (write_linear a20_gate nowrite (u32 (addr + i)) (u8 (value >>> (i <<< 3))) s)
        as (λ _. Option (Memory D)) [
          | none ↦ none
          | some t ↦ write_bytes a20_gate nowrite n (i + 1) addr value t
        ]

  unfoldable pub write_linear_fallback : ℕ → ℕ → ℕ → ℕ → ℕ → Memory D → Option (Memory D)
  unfolding write_bytes
  write_linear_fallback a20_gate nowrite addr value size s =
      write_bytes a20_gate nowrite size 0 addr value s

  unfoldable pub write_linear_sized : ℕ → ℕ → ℕ → ℕ → ℕ → Memory D → Option (Memory D)
  unfolding write_linear_fallback
  write_linear_sized a20_gate nowrite addr value size s =
      if size == 1
      then write_linear a20_gate nowrite addr (u8 value) s
      else if nowrite != 0
      then some s
      else elim (access_can_direct a20_gate addr size true s) as (λ _. Option (Memory D)) [
        | some d ↦ wrcache_write d.phys value size s
        | none ↦ write_linear_fallback a20_gate nowrite addr value size s
      ]
