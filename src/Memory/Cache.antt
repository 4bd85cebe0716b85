-- ===== src/Memory/Cache.antt =====
-- The write cache of src/memory.c: what an instruction writes reaches the memory when it is flushed.
pub mod Bytes
use pculator.Base.{
  ℕ, zero, suc, ◌+◌, ◌-◌, Bool, true, false, ◌&&◌, ◌||◌, Option, none, some, List, [], ◌∷◌, ◌++◌,
  ◌==◌, ltb, leb, if◌then◌else◌, length, u8, u16, u32, ◌<<<◌, ◌>>>◌,
}
use pculator.Memory.{
  Memory, Region, Entry, access_stays_on_page, lookup_map, lookup_map_range, desc_write_u8,
  desc_write_u16_direct, desc_write_u32_direct,
}

-- The byte of an entry at an address; the end of the entry wraps.
unfoldable pub entry_contains : Entry → ℕ → Option ℕ
entry_contains entry addr =
    if ltb addr entry.addr || leb (u32 (entry.addr + entry.size)) addr
    then none
    else some (u8 (entry.value >>> ((addr - entry.addr) <<< 3)))

unfoldable pub entries_overlap : List Entry → ℕ → ℕ → Bool
entries_overlap [] addr size = false
entries_overlap (entry ∷ rest) addr size =
    (ltb addr (entry.addr + entry.size) && ltb entry.addr (addr + size))
    || entries_overlap rest addr size

-- The first entry of the list that covers the address.
unfoldable pub find_byte : List Entry → ℕ → Option ℕ
find_byte [] addr = none
find_byte (entry ∷ rest) addr = elim (entry_contains entry addr) as (λ _. Option ℕ) [
  | some value ↦ some value
  | none ↦ find_byte rest addr
]

module _ {D : Type 0} where
  unfoldable pub wrcache_has_overlap : ℕ → ℕ → Memory D → Bool
  unfolding entries_overlap
  wrcache_has_overlap addr size s = entries_overlap s.wrcache addr size

  unfoldable pub wrcache_read : ℕ → Memory D → Option ℕ
  unfolding find_byte
  wrcache_read addr s = find_byte s.wrcache addr

  -- `none` is the exit of the program when the cache is full.
  unfoldable pub wrcache_write : ℕ → ℕ → ℕ → Memory D → Option (Memory D)
  wrcache_write addr value size s =
      let entries = s.wrcache ++ record { addr = addr; value = value; size = size } ∷ [] in
      if length entries == 512 then none else some (record s { wrcache = entries })

  -- The loop of `wrcache_flush_entry` from byte `i` on, `n` rounds of it.
  unfoldable pub flush_bytes : ℕ → ℕ → Entry → Memory D → Memory D
  flush_bytes zero i entry s = s
  flush_bytes (suc n) i entry s =
      let addr = u32 (entry.addr + i) in
      let map = lookup_map s addr true in
      flush_bytes n (i + 1) entry (
        if map == 0xFF
        then s
        else desc_write_u8 (s.mem map) addr (u8 (entry.value >>> (i <<< 3))) s)

  unfoldable pub flush_words : Entry → Memory D → Option (Memory D)
  flush_words entry s =
      if ltb 1 entry.size && access_stays_on_page entry.addr entry.size
      then elim (lookup_map_range s entry.addr entry.size true) as (λ _. Option (Memory D)) [
        | none ↦ none
        | some map ↦
            if entry.size == 2
            then desc_write_u16_direct map entry.addr (u16 entry.value) s
            else if entry.size == 4
            then desc_write_u32_direct map entry.addr entry.value s
            else none
      ]
      else none

  unfoldable pub flush_entry : Entry → Memory D → Memory D
  unfolding flush_words flush_bytes
  flush_entry entry s = elim (flush_words entry s) as (λ _. Memory D) [
    | some t ↦ t
    | none ↦ flush_bytes entry.size 0 entry s
  ]

  unfoldable pub flush_entries : List Entry → Memory D → Memory D
  flush_entries [] s = s
  flush_entries (entry ∷ rest) s = flush_entries rest (flush_entry entry s)

  unfoldable pub wrcache_flush : Memory D → Memory D
  unfolding flush_entries
  wrcache_flush s = record (flush_entries s.wrcache s) { wrcache = [] }

  unfoldable pub wrcache_init : Memory D → Memory D
  wrcache_init s = record s { wrcache = [] }
