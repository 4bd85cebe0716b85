-- ===== src/Tests/Memory.antt =====
-- Tests of src/memory.c on a machine with 64 KB of memory, page tables for one page and a mapping at
-- 0xA0000, and an input for each property that has conditions.
use pculator.Base.{
  ℕ, ◌≡◌, refl, sym, ap, ◌∙◌, false, none, some, some-injective, [], inr, arith, update,
}
use pculator.Memory.{
  Memory, Pointer, desc_clear, desc_write_u8, desc_read_u8, desc_read_u32_direct, lookup_map_range,
  access_stays_on_page,
}
use pculator.Memory.Map.{Mapping, update_lookup}
use pculator.Memory.Map.Slots.{occupied, region}
use pculator.Memory.Cache.{wrcache_has_overlap, wrcache_read}
use pculator.Memory.Linear.{
  or_phys_u8_direct, read_phys_u8, write_phys_u8_direct, Direct, access_can_direct,
  read_linear_sized, read_linear_fallback,
}
use pculator.Memory.Linear.Sized.{read_linear_sized-fallback}
use pculator.Memory.Paging.{Cpu, Machine, tlb_invalidate_page, tlb_flush}
use pculator.Memory.Paging.MemAccess.{user_read, user_write}
use pculator.Base.{◌>>>◌}
use pculator.Base.{◌+◌, ◌∷◌, u8, ◌<<<◌}
use pculator.Memory.Cache.{wrcache_write, entry_contains}
use pculator.Memory.Cache.Bytes.{or_else, wrcache_write-wrcache_read}
use pculator.Memory.Paging.Tlb.{translate_page, translate_miss}
use pculator.Memory.Paging.Translate.{Outcome, translate_page-Outcome}
use pculator.Memory.Paging.Again.{tlb_invalidate_page-translate_page}

-- An unused table of regions.
abbrev blank : Memory ℕ
blank = record {
  mem = λ i. record { start = 0; size = 0; desc = desc_clear; used = 0 };
  lookup_external = λ j. 0xFF;
  lookup_internal = λ j. 0xFF;
  decode = λ j. 0;
  wrcache = [];
  ram = λ b i. 0;
  dev = 0;
}

abbrev vga : Mapping ℕ
vga = record {
  start = 0xA0000;
  len = 0x20000;
  enabled = 0;
  internal = 0;
  map_index = none;
  desc = desc_clear;
}

-- The mapping enabled, and the memory with it.
abbrev shown : Mapping ℕ
shown = record vga { map_index = some 0; enabled = 1 }

abbrev with_vga : Memory ℕ
with_vga = update_lookup 0 0 (occupied 0 (region 0xA0000 0x20000 desc_clear) blank)

vga_pages : (with_vga.lookup_external 0xBF ≡ 0) × (with_vga.lookup_external 0xC0 ≡ 0xFF)
unfolding update_lookup
vga_pages = (refl, refl)

-- 64 KB of memory in buffer 0, with a page directory at 0x1000 and a page table at 0x2000.
abbrev main_ram : Pointer
main_ram = record { buffer = 0; base = 0 }

abbrev tables : ℕ → ℕ
tables = update (update (update (update (λ i. 0) 0x1000 7) 0x1001 0x20) 0x200C 7) 0x200D 0x50

abbrev small : Memory ℕ
small = record blank {
  mem = λ i. record {
    start = 0;
    size = 0x10000;
    desc = record desc_clear { read = some main_ram; write = some main_ram };
    used = 1;
  };
  lookup_external = λ j. 0;
  ram = λ b. tables;
}

abbrev cpu : Cpu
cpu = record {
  a20_gate = 1;
  protected_mode = 1;
  cr0 = 0x80000001;
  cr2 = 0;
  cr3 = 0x1000;
  startcpl = 3;
  nowrite = 0;
  doexception = 0;
  exceptionval = 0;
  exceptionerr = 0;
  tlb = λ i. record {
    way = λ w. record { tag = 0; phys_base = 0; pte_addr = 0; flags = 0 };
    mru = 0;
  };
}

abbrev machine : Machine ℕ
machine = record { cpu = cpu; memory = small }

translated : (translate_page 0x3004 user_write machine).0 ≡ 0x5004
unfolding translate_page read_linear_sized access_can_direct access_stays_on_page lookup_map_range
    wrcache_has_overlap desc_read_u32_direct or_phys_u8_direct read_phys_u8 wrcache_read
    desc_read_u8 write_phys_u8_direct desc_write_u8
translated = refl

refused : (translate_page 0x4004 user_read machine).1.cpu.exceptionerr ≡ 4
unfolding translate_page read_linear_sized access_can_direct access_stays_on_page lookup_map_range
    wrcache_has_overlap desc_read_u32_direct or_phys_u8_direct read_phys_u8 wrcache_read
    desc_read_u8 write_phys_u8_direct desc_write_u8
refused = refl

translate_page-Outcome_example :
    Outcome 0x3004 user_write machine (translate_page 0x3004 user_write machine)
translate_page-Outcome_example = translate_page-Outcome 0x3004 user_write machine

tlb_invalidate_page-translate_page_example :
    (let t = record machine { cpu = tlb_invalidate_page 0x3000 machine.cpu } in
      translate_page 0x3004 user_read t ≡ translate_miss 0x3004 user_read t)
    × (let t = record machine { cpu = tlb_flush machine.cpu } in
        translate_page 0x3004 user_read t ≡ translate_miss 0x3004 user_read t)
tlb_invalidate_page-translate_page_example =
    tlb_invalidate_page-translate_page 0x3000 0x3004 user_read machine refl

abbrev whole_region : Direct ℕ
whole_region = record { phys = 0x1000; map = small.mem 0 }

read_direct_found : access_can_direct 1 0x1000 4 false small ≡ some whole_region
unfolding access_can_direct access_stays_on_page lookup_map_range
read_direct_found = refl

read_linear_sized-fallback_example :
    read_linear_sized 1 0x1000 4 small ≡ read_linear_fallback 1 0x1000 4 small
read_linear_sized-fallback_example =
    read_linear_sized-fallback 1 0x1000 4 small (omega arith) (inr refl) (λ d e. (
      main_ram,
      ap (λ (r : Direct ℕ). r.map.desc.read)
          (some-injective d whole_region (sym e ∙ read_direct_found)),
    ))

-- A byte in the write cache.
abbrev cached : Memory ℕ
cached = record small { wrcache = record { addr = 0x102; value = 0x11; size = 1 } ∷ [] }

abbrev cached_more : Memory ℕ
cached_more = record small {
  wrcache =
      record { addr = 0x102; value = 0x11; size = 1 }
      ∷ record { addr = 0x100; value = 0x44332255; size = 4 }
      ∷ [];
}

wrcache_write-wrcache_read_example :
    wrcache_read (0x100 + 2) cached_more
    ≡ or_else (wrcache_read (0x100 + 2) cached) (some (u8 (0x44332255 >>> (2 <<< 3))))
unfolding wrcache_write
wrcache_write-wrcache_read_example =
    wrcache_write-wrcache_read 0x100 0x44332255 4 2 cached cached_more (omega arith) (omega arith)
      refl

-- The byte that is overwritten last is 0x33.
stale_byte : wrcache_read 0x102 cached_more ≡ some 0x11
unfolding wrcache_read entry_contains
stale_byte = refl
