-- ===== src/Memory/Map/Mappings.antt =====
-- `memory_mapping_enable` and `memory_mapping_set_addr` of src/memory.c: what they leave of the mapping, of
-- the table of regions and of the page tables.
use pculator.Base.{ℕ, Option, some, ◌!=◌, if◌then◌else◌}
use pculator.Memory.{Memory}
use pculator.Memory.Map.{Mapping, mapping_enable}

module _ {D : Type 0} where
  -- The second half of a move, on what disabling the mapping left.
  abbrev move : (start len : ℕ) → Mapping D × Memory D → Option (Mapping D × Memory D)
  move start len r =
      let moved : Mapping D = record r.0 { start = start; len = len } in
      if len != 0 then mapping_enable moved r.1 else some (moved, r.1)
