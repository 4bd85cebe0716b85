-- ===== src/Memory.antt =====
-- src/memory.c: the tables that say which RAM, ROM or device answers an address, and the loads and
-- stores through one of them. A pointer into a buffer is the buffer's number and a base, so that two
-- regions may share bytes. The devices behind the callbacks share one state `D`, and a callback is a
-- function on it: it does not reach into the tables or the buffers.
pub mod Cache
pub mod Linear
pub mod Map
pub mod Paging
pub mod Access
use pculator.Base.{
  ℕ, ◌+◌, ◌-◌, Bool, true, false, ◌&&◌, Option, none, some, List, ◌==◌, ◌!=◌, leb, if◌then◌else◌,
  update, bit_and, bit_or, u8, u16, u32, ◌<<<◌, ◌>>>◌,
}

pub record Pointer : Type 0 where
  pub buffer : ℕ
  pub base : ℕ

-- `MEMORY_MAP_DESC_t`, with `udata` bound into the callbacks.
pub record Desc (D : Type 0) : Type 0 where
  pub read : Option Pointer
  pub write : Option Pointer
  pub readcb : Option (D → ℕ → ℕ × D)
  pub readwcb : Option (D → ℕ → ℕ × D)
  pub readlcb : Option (D → ℕ → ℕ × D)
  pub writecb : Option (D → ℕ → ℕ → D)
  pub writewcb : Option (D → ℕ → ℕ → D)
  pub writelcb : Option (D → ℕ → ℕ → D)

-- `struct mem_s`.
pub record Region (D : Type 0) : Type 0 where
  pub start : ℕ
  pub size : ℕ
  pub desc : Desc D
  pub used : ℕ

-- `struct writecache_s`.
pub record Entry : Type 0 where
  pub addr : ℕ
  pub value : ℕ
  pub size : ℕ

-- The file's variables: `mem`, the lookups by page, and the write cache up to `wrcache_count`, oldest
-- entry first; and the buffers and the devices.
pub record Memory (D : Type 0) : Type 0 where
  pub mem : ℕ → Region D
  pub lookup_external : ℕ → ℕ
  pub lookup_internal : ℕ → ℕ
  pub decode : ℕ → ℕ
  pub wrcache : List Entry
  pub ram : ℕ → ℕ → ℕ
  pub dev : D

-- `addr32 - map->start`, which wraps.
abbrev pub offset : ℕ → ℕ → ℕ
offset addr start = u32 (addr + (4294967296 - start))

abbrev pub getpage : ℕ → ℕ
getpage addr = addr >>> 12

unfoldable pub access_stays_on_page : ℕ → ℕ → Bool
access_stays_on_page addr size = leb (bit_and addr 0xFFF + size) 0x1000

module _ {D : Type 0} where
  unfoldable pub desc_clear : Desc D
  desc_clear = record {
    read = none;
    write = none;
    readcb = none;
    readwcb = none;
    readlcb = none;
    writecb = none;
    writewcb = none;
    writelcb = none;
  }

  unfoldable pub contains_range : Region D → ℕ → ℕ → Bool
  contains_range map addr size = leb map.start addr && leb (offset addr map.start + size) map.size

  -- The byte `i` places after a pointer, and a write to it.
  unfoldable pub load : Memory D → Pointer → ℕ → ℕ
  load s p i = s.ram p.buffer (p.base + i)

  unfoldable pub store : Pointer → ℕ → ℕ → Memory D → Memory D
  store p i value s = record s {
    ram = update s.ram p.buffer (update (s.ram p.buffer) (p.base + i) value);
  }

  unfoldable pub load_u16 : Memory D → Pointer → ℕ → ℕ
  unfolding load
  load_u16 s p i = bit_or (load s p i) (load s p (i + 1) <<< 8)

  unfoldable pub load_u32 : Memory D → Pointer → ℕ → ℕ
  unfolding load
  load_u32 s p i =
      bit_or (bit_or (bit_or (load s p i) (load s p (i + 1) <<< 8)) (load s p (i + 2) <<< 16))
        (load s p (i + 3) <<< 24)

  unfoldable pub store_u16 : Pointer → ℕ → ℕ → Memory D → Memory D
  unfolding store
  store_u16 p i value s = store p (i + 1) (u8 (value >>> 8)) (store p i (u8 value) s)

  unfoldable pub store_u32 : Pointer → ℕ → ℕ → Memory D → Memory D
  unfolding store
  store_u32 p i value s = store p (i + 3) (u8 (value >>> 24)) (
      store p (i + 2) (u8 (value >>> 16))
        (store p (i + 1) (u8 (value >>> 8)) (store p i (u8 value) s)))

  -- A callback of either kind, on the memory.
  unfoldable pub ask : (D → ℕ → ℕ × D) → ℕ → Memory D → ℕ × Memory D
  ask f addr s = let (value, d) = f s.dev addr in (value, record s { dev = d })

  unfoldable pub tell : (D → ℕ → ℕ → D) → ℕ → ℕ → Memory D → Memory D
  tell f addr value s = record s { dev = f s.dev addr value }

  unfoldable pub desc_read_u8 : Region D → ℕ → Memory D → ℕ × Memory D
  unfolding load ask
  desc_read_u8 map addr s = elim map.desc.read as (λ _. ℕ × Memory D) [
    | some p ↦ (load s p (offset addr map.start), s)
    | none ↦ elim map.desc.readcb as (λ _. ℕ × Memory D) [
      | some f ↦ ask f addr s
      | none ↦ (0xFF, s)
    ]
  ]

  -- `none` is the result 0.
  unfoldable pub desc_read_u16_direct : Region D → ℕ → Memory D → Option (ℕ × Memory D)
  unfolding load_u16 ask
  desc_read_u16_direct map addr s = elim map.desc.read as (λ _. Option (ℕ × Memory D)) [
    | some p ↦ some (load_u16 s p (offset addr map.start), s)
    | none ↦ elim map.desc.readwcb as (λ _. Option (ℕ × Memory D)) [
      | some f ↦ some (ask f addr s)
      | none ↦ none
    ]
  ]

  -- Two words; C leaves the order of the two calls open, and they are taken from left to right.
  unfoldable pub ask_twice : (D → ℕ → ℕ × D) → ℕ → Memory D → ℕ × Memory D
  unfolding ask
  ask_twice f addr s =
      let (lo, s') = ask f addr s in
      let (hi, s'') = ask f (u32 (addr + 2)) s' in (bit_or lo (hi <<< 16), s'')

  unfoldable pub desc_read_u32_direct : Region D → ℕ → Memory D → Option (ℕ × Memory D)
  unfolding load_u32 ask ask_twice
  desc_read_u32_direct map addr s = elim map.desc.read as (λ _. Option (ℕ × Memory D)) [
    | some p ↦ some (load_u32 s p (offset addr map.start), s)
    | none ↦ elim map.desc.readlcb as (λ _. Option (ℕ × Memory D)) [
      | some f ↦ some (ask f addr s)
      | none ↦ elim map.desc.readwcb as (λ _. Option (ℕ × Memory D)) [
        | some g ↦ some (ask_twice g addr s)
        | none ↦ none
      ]
    ]
  ]

  unfoldable pub desc_write_u8 : Region D → ℕ → ℕ → Memory D → Memory D
  unfolding store tell
  desc_write_u8 map addr value s = elim map.desc.write as (λ _. Memory D) [
    | some p ↦ store p (offset addr map.start) value s
    | none ↦ elim map.desc.writecb as (λ _. Memory D) [ some f ↦ tell f addr value s | none ↦ s ]
  ]

  unfoldable pub desc_write_u16_direct : Region D → ℕ → ℕ → Memory D → Option (Memory D)
  unfolding store_u16 tell
  desc_write_u16_direct map addr value s = elim map.desc.write as (λ _. Option (Memory D)) [
    | some p ↦ some (store_u16 p (offset addr map.start) value s)
    | none ↦ elim map.desc.writewcb as (λ _. Option (Memory D)) [
      | some f ↦ some (tell f addr value s)
      | none ↦ none
    ]
  ]

  unfoldable pub desc_write_u32_direct : Region D → ℕ → ℕ → Memory D → Option (Memory D)
  unfolding store_u32 tell
  desc_write_u32_direct map addr value s = elim map.desc.write as (λ _. Option (Memory D)) [
    | some p ↦ some (store_u32 p (offset addr map.start) value s)
    | none ↦ elim map.desc.writelcb as (λ _. Option (Memory D)) [
      | some f ↦ some (tell f addr value s)
      | none ↦ elim map.desc.writewcb as (λ _. Option (Memory D)) [
        | some g ↦ some (tell g (u32 (addr + 2)) (u16 (value >>> 16)) (tell g addr (u16 value) s))
        | none ↦ none
      ]
    ]
  ]

  unfoldable pub get_decode_state : Memory D → ℕ → ℕ
  get_decode_state s addr = bit_and (s.decode (getpage addr)) 0x03

  unfoldable pub lookup_map : Memory D → ℕ → Bool → ℕ
  unfolding get_decode_state
  lookup_map s addr is_write =
      if bit_and (get_decode_state s addr) (if is_write then 0x02 else 0x01) != 0
      then s.lookup_internal (getpage addr)
      else s.lookup_external (getpage addr)

  unfoldable pub lookup_map_range : Memory D → ℕ → ℕ → Bool → Option (Region D)
  unfolding lookup_map contains_range
  lookup_map_range s addr size is_write =
      let map = lookup_map s addr is_write in
      if map == 0xFF
      then none
      else if contains_range (s.mem map) addr size
      then some (s.mem map)
      else none
