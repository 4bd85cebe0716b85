-- ===== src/Memory/Paging.antt =====
-- The fields of `CPU_t` (src/cpu/cpu.h) that src/memory.c uses for paging, and its operations on them
-- alone: the exceptions, the permissions and the entries of the translation cache.
pub mod Walk
pub mod Tlb
pub mod Permission
pub mod Entries
pub mod Translate
pub mod Again
use pculator.Base.{
  ℕ, zero, suc, ◌+◌, Bool, true, false, not, ◌&&◌, ◌||◌, Option, none, some, ◌==◌, ◌!=◌, leb,
  if◌then◌else◌, update, bit_and, bit_or, bit_xor, u8, u32, ◌<<<◌, ◌>>>◌,
}
use pculator.Memory.{Memory}

-- `CPU_TLB_ENTRY_t`.
pub record TlbEntry : Type 0 where
  pub tag : ℕ
  pub phys_base : ℕ
  pub pte_addr : ℕ
  pub flags : ℕ

-- `CPU_TLB_SET_t`.
pub record TlbSet : Type 0 where
  pub way : ℕ → TlbEntry
  pub mru : ℕ

pub record Cpu : Type 0 where
  pub a20_gate : ℕ
  pub protected_mode : ℕ
  pub cr0 : ℕ
  pub cr2 : ℕ
  pub cr3 : ℕ
  pub startcpl : ℕ
  pub nowrite : ℕ
  pub doexception : ℕ
  pub exceptionval : ℕ
  pub exceptionerr : ℕ
  pub tlb : ℕ → TlbSet

pub record Machine (D : Type 0) : Type 0 where
  pub cpu : Cpu
  pub memory : Memory D

pub record PageWalkResult : Type 0 where
  pub phys_base : ℕ
  pub pte_addr : ℕ
  pub entry_flags : ℕ

pub data MemAccess : Type 0 where
  user_read : MemAccess
  user_write : MemAccess
  supervisor_read : MemAccess
  supervisor_write : MemAccess

unfoldable pub access_is_write : MemAccess → Bool
access_is_write user_write = true
access_is_write supervisor_write = true
access_is_write _ = false

unfoldable pub access_is_user : MemAccess → Bool
access_is_user user_read = true
access_is_user user_write = true
access_is_user _ = false

-- The macro of src/cpu/cpu.h: only the first exception of an instruction counts.
unfoldable pub exception : ℕ → ℕ → Cpu → Cpu
exception x y c = if c.doexception != 0 then c else record c {
  doexception = 1;
  exceptionval = x;
  exceptionerr = y;
  nowrite = if x == 14 then 1 else c.nowrite;
}

unfoldable pub paging_enabled : Cpu → Bool
paging_enabled c = c.protected_mode != 0 && bit_and c.cr0 0x80000000 != 0

unfoldable pub default_access : Cpu → Bool → MemAccess
default_access c iswrite =
    if c.startcpl == 3
    then (if iswrite then user_write else user_read)
    else (if iswrite then supervisor_write else supervisor_read)

unfoldable pub page_access_is_allowed : Cpu → MemAccess → Bool → Bool → Bool
unfolding access_is_user access_is_write
page_access_is_allowed c access effective_user effective_write =
    if access_is_user access && not effective_user
    then false
    else if (access_is_write access && not effective_write)
        && (access_is_user access || bit_and c.cr0 0x00010000 != 0)
    then false
    else true

-- The error code of a page fault.
unfoldable pub fault_error : MemAccess → Bool → ℕ
unfolding access_is_user access_is_write
fault_error access present =
    bit_or (bit_or (if present then 1 else 0) (if access_is_write access then 2 else 0))
      (if access_is_user access then 4 else 0)

unfoldable pub raise_page_fault : ℕ → MemAccess → Bool → Cpu → Cpu
unfolding exception fault_error
raise_page_fault addr access present c =
    exception 14 (fault_error access present)
      (if c.doexception == 0 then record c { cr2 = addr } else c)

abbrev no_entry : TlbEntry
no_entry = record { tag = 0; phys_base = 0; pte_addr = 0; flags = 0 }

unfoldable pub tlb_flush : Cpu → Cpu
tlb_flush c = record c { tlb = λ i. record { way = λ w. no_entry; mru = 0 } }

unfoldable pub holds_page : ℕ → TlbEntry → Bool
holds_page page entry = bit_and entry.flags 0x01 != 0 && entry.tag == page

unfoldable pub set_way : ℕ → ℕ → TlbEntry → Cpu → Cpu
set_way i w entry c = record c {
  tlb = update c.tlb i (record (c.tlb i) { way = update (TlbSet.way (c.tlb i)) w entry });
}

unfoldable pub set_mru : ℕ → ℕ → Cpu → Cpu
set_mru i index c = record c { tlb = update c.tlb i (record (c.tlb i) { mru = index }) }

unfoldable pub drop_page : ℕ → TlbEntry → TlbEntry
unfolding holds_page
drop_page page entry = if holds_page page entry then record entry { flags = 0 } else entry

-- The loop over the two ways, written out.
unfoldable pub tlb_invalidate_page : ℕ → Cpu → Cpu
unfolding drop_page
tlb_invalidate_page linear_addr c =
    let page = linear_addr >>> 12 in
    let i = bit_and page 0xFF in
    let ways = TlbSet.way (c.tlb i) in
    record c {
      tlb = update c.tlb i (record (c.tlb i) {
        way = update (update ways 0 (drop_page page (ways 0))) 1 (drop_page page (ways 1));
      });
    }
