-- ===== src/Memory/Map.antt =====
-- Regions and mappings of src/memory.c. The page tables have an entry for every number; the code's
-- have 2 ^ 20 of them, enough for the pages of a region that ends within the address space.
pub mod Tables
pub mod Slots
pub mod Owned
pub mod Outcome
pub mod Mappings
use pculator.Base.{
  ℕ, zero, suc, ◌+◌, Bool, true, false, ◌&&◌, ◌||◌, Option, none, some, ◌==◌, ◌!=◌, ltb,
  if◌then◌else◌, update, u32, ◌>>>◌,
}
use pculator.Memory.{Memory, Region, Desc, Pointer, desc_clear}

-- `MEMORY_MAPPING_t`; `none` is the map index -1.
pub record Mapping (D : Type 0) : Type 0 where
  pub start : ℕ
  pub len : ℕ
  pub enabled : ℕ
  pub internal : ℕ
  pub map_index : Option ℕ
  pub desc : Desc D

unfoldable pub pages : ℕ → ℕ
pages size = u32 (size + 0xFFF) >>> 12

-- `n` entries from `j` on are set to `index`.
unfoldable pub fill : ℕ → ℕ → ℕ → (ℕ → ℕ) → ℕ → ℕ
fill zero j index lookup = lookup
fill (suc n) j index lookup = fill n (j + 1) index (update lookup j index)

-- Of `n` entries from `j` on, those that are `index` are cleared.
unfoldable pub clear : ℕ → ℕ → ℕ → (ℕ → ℕ) → ℕ → ℕ
clear zero j index lookup = lookup
clear (suc n) j index lookup =
    clear n (j + 1) index (if lookup j == index then update lookup j 0xFF else lookup)

module _ {D : Type 0} where
  -- The first of `n` slots from `i` on that is not used.
  unfoldable pub find_unused : ℕ → ℕ → (ℕ → Region D) → Option ℕ
  find_unused zero i mem = none
  find_unused (suc n) i mem =
      let rest = find_unused n (i + 1) mem in if Region.used (mem i) == 0 then some i else rest

  -- The slot and the memory with it; `none` is the exit of the program when no slot is left.
  unfoldable pub alloc_map : ℕ → ℕ → Memory D → Option (ℕ × Memory D)
  unfolding desc_clear
  alloc_map start len s = elim (find_unused 64 0 s.mem) as (λ _. Option (ℕ × Memory D)) [
    | none ↦ none
    | some i ↦ some (
      i,
      record s {
        mem = update s.mem i (record { start = start; size = len; desc = desc_clear; used = 1 });
      },
    )
  ]

  -- Both calls of `memory_desc_copy` are on a slot that was just allocated.
  unfoldable pub desc_copy : ℕ → Desc D → Memory D → Memory D
  desc_copy i desc s = record s { mem = update s.mem i (record (s.mem i) { desc = desc }) }

  unfoldable pub update_lookup : ℕ → ℕ → Memory D → Memory D
  unfolding fill pages
  update_lookup i internal s =
      let map = s.mem i in
      if internal != 0
      then record s {
        lookup_internal = fill (pages map.size) (map.start >>> 12) i s.lookup_internal;
      }
      else record s {
        lookup_external = fill (pages map.size) (map.start >>> 12) i s.lookup_external;
      }

  unfoldable pub clear_lookup : ℕ → ℕ → Memory D → Memory D
  unfolding clear pages
  clear_lookup i internal s =
      let map = s.mem i in
      if internal != 0
      then record s {
        lookup_internal = clear (pages map.size) (map.start >>> 12) i s.lookup_internal;
      }
      else record s {
        lookup_external = clear (pages map.size) (map.start >>> 12) i s.lookup_external;
      }

  unfoldable pub release_map : ℕ → ℕ → Memory D → Memory D
  unfolding clear_lookup desc_clear
  release_map i internal s =
      if Region.used (s.mem i) == 0
      then s
      else let t = clear_lookup i internal s in
        record t {
          mem = update t.mem i (record { start = 0; size = 0; desc = desc_clear; used = 0 });
        }

  -- The three calls that `memory_register_desc` and `memory_mapping_enable` share.
  unfoldable pub place : ℕ → ℕ → Desc D → ℕ → Memory D → Option (ℕ × Memory D)
  unfolding alloc_map desc_copy update_lookup
  place start len desc internal s = elim (alloc_map start len s) as (λ _. Option (ℕ × Memory D)) [
    | none ↦ none
    | some (i, t) ↦ some (i, update_lookup i internal (desc_copy i desc t))
  ]

  unfoldable pub register_desc : ℕ → ℕ → Desc D → ℕ → Memory D → Option (Memory D)
  unfolding place
  register_desc start len desc internal s =
      elim (place start len desc internal s) as (λ _. Option (Memory D)) [
        | none ↦ none
        | some (i, t) ↦ some t
      ]

  unfoldable pub map_register :
      ℕ → ℕ → Option Pointer → Option Pointer → Memory D → Option (Memory D)
  unfolding register_desc desc_clear
  map_register start len readb writeb =
      register_desc start len (record desc_clear { read = readb; write = writeb }) 0

  unfoldable pub map_register_internal :
      ℕ → ℕ → Option Pointer → Option Pointer → Memory D → Option (Memory D)
  unfolding register_desc desc_clear
  map_register_internal start len readb writeb =
      register_desc start len (record desc_clear { read = readb; write = writeb }) 1

  -- The six callbacks are those of `desc`; both pointers are cleared.
  unfoldable pub map_callback_register : ℕ → ℕ → Desc D → Memory D → Option (Memory D)
  unfolding register_desc
  map_callback_register start count desc =
      register_desc start count (record desc { read = none; write = none }) 0

  unfoldable pub map_callback_register_internal : ℕ → ℕ → Desc D → Memory D → Option (Memory D)
  unfolding register_desc
  map_callback_register_internal start count desc =
      register_desc start count (record desc { read = none; write = none }) 1

  unfoldable pub mapping_add : ℕ → ℕ → Desc D → ℕ → Mapping D
  mapping_add start len desc internal = record {
    start = start;
    len = len;
    enabled = 0;
    internal = if internal != 0 then 1 else 0;
    map_index = none;
    desc = record desc { read = none; write = none };
  }

  unfoldable pub mapping_enable : Mapping D → Memory D → Option (Mapping D × Memory D)
  unfolding place
  mapping_enable m s =
      if m.enabled != 0 || m.len == 0
      then some (m, s)
      else elim (place m.start m.len m.desc m.internal s) as (λ _. Option (Mapping D × Memory D)) [
        | none ↦ none
        | some (i, t) ↦ some (record m { map_index = some i; enabled = 1 }, t)
      ]

  unfoldable pub mapping_disable : Mapping D → Memory D → Mapping D × Memory D
  unfolding release_map
  mapping_disable m s = if m.enabled == 0 then (m, s) else (
    record m { map_index = none; enabled = 0 },
    elim m.map_index as (λ _. Memory D) [
      | none ↦ s
      | some i ↦ if ltb i 64 then release_map i m.internal s else s
    ],
  )

  unfoldable pub mapping_set_addr : ℕ → ℕ → Mapping D → Memory D → Option (Mapping D × Memory D)
  unfolding mapping_enable mapping_disable
  mapping_set_addr start len m s =
      if m.enabled == 0
      then some (record m { start = start; len = len }, s)
      else let (m', s') = mapping_disable m s in
        let moved : Mapping D = record m' { start = start; len = len } in
        if len != 0 then mapping_enable moved s' else some (moved, s')

  -- The first `n` slots, of 64.
  unfoldable pub clear_slots : ℕ → (ℕ → Region D) → ℕ → Region D
  unfolding desc_clear
  clear_slots zero mem = mem
  clear_slots (suc n) mem =
      let rest = clear_slots n mem in
      update rest n (record (rest n) { desc = desc_clear; used = 0 })

  unfoldable pub memory_init : Memory D → Memory D
  unfolding clear_slots
  memory_init s = record s {
    mem = clear_slots 64 s.mem;
    lookup_external = λ j. 0xFF;
    lookup_internal = λ j. 0xFF;
    decode = λ j. 0;
  }
