-- ===== src/Memory/Paging/Entries.antt =====
-- The entries of the translation cache of src/memory.c: what setting one does to the set of its page.
use pculator.Base.{
  ℕ, ◌<◌, ◌≡◌, refl, ap, ◌∙◌, true, ◌&&◌, arith, ◌==◌, ==_self, bit_and, bit_or, bit_xor,
  bit_and_mask, ◌>>>◌, update, update_self,
}
use pculator.Memory.Paging.{Cpu, MemAccess, TlbEntry, TlbSet, holds_page, set_way, set_mru}
use pculator.Memory.Paging.Tlb.{victim}
use pculator.Memory.Paging.Permission.{Grants, has_valid, has_valid-dirty}

-- The entry that the cache would try first for an address.
abbrev pub first_entry : ℕ → Cpu → TlbEntry
first_entry addr c = let set = c.tlb (bit_and (addr >>> 12) 0xFF) in TlbSet.way set (TlbSet.mru set)

-- The cache holds a translation of the address that grants the access, as the one to try first.
unfoldable pub Cached : ℕ → MemAccess → Cpu → ℕ → Type 0
unfolding Grants holds_page
Cached addr access c phys =
    (TlbSet.mru (c.tlb (bit_and (addr >>> 12) 0xFF)) < 2)
    × (holds_page (addr >>> 12) (first_entry addr c) ≡ true)
    × Grants c access (TlbEntry.flags (first_entry addr c))
    × (phys ≡ bit_or (TlbEntry.phys_base (first_entry addr c)) (bit_and addr 0xFFF))

abbrev pub set_of : ℕ → ℕ
set_of addr = bit_and (addr >>> 12) 0xFF

pub holds_page-dirty :
    (page : ℕ) (e : TlbEntry)
    → holds_page page e ≡ true
    → holds_page page (record e { flags = bit_or e.flags 0x08 }) ≡ true
unfolding holds_page
holds_page-dirty page e h = ap (λ b. b && e.tag == page) (has_valid-dirty e.flags) ∙ h

pub holds_page-new :
    (page base pte flags : ℕ)
    → holds_page page
        (record { tag = page; phys_base = base; pte_addr = pte; flags = bit_or flags 0x01 })
      ≡ true
unfolding holds_page
holds_page-new page base pte flags = rw (has_valid flags, ==_self page) refl

pub victim-lt : (set : TlbSet) → victim set < 2
unfolding victim
victim-lt set =
    let low : bit_and (bit_xor set.mru 1) 1 < 2 =
      rw (bit_and_mask 1 (bit_xor set.mru 1)) (omega arith) in
    ground (arith, low)

pub Cached-intro :
    (addr : ℕ) (access : MemAccess) (c : Cpu) (e : TlbEntry) (index : ℕ)
    → TlbSet.mru (c.tlb (set_of addr)) ≡ index
    → index < 2
    → first_entry addr c ≡ e
    → holds_page (addr >>> 12) e ≡ true
    → Grants c access e.flags
    → Cached addr access c (bit_or e.phys_base (bit_and addr 0xFFF))
unfolding Cached
Cached-intro addr access c e index recent low first holds grants =
    rw (first, recent) (low, holds, grants, refl)

-- A set after its most recent way is set, and after that way is also given an entry.
pub set_mru-set :
    (i index : ℕ) (c : Cpu) → (set_mru i index c).tlb i ≡ record (c.tlb i) { mru = index }
unfolding set_mru
set_mru-set i index c = update_self c.tlb i (record (c.tlb i) { mru = index })

pub set_way-set :
    (i index : ℕ) (e : TlbEntry) (c : Cpu)
    → (set_mru i index (set_way i index e c)).tlb i
      ≡ record { way = update (TlbSet.way (c.tlb i)) index e; mru = index }
unfolding set_way
set_way-set i index e c =
    set_mru-set i index (set_way i index e c)
    ∙ ap (λ (set : TlbSet). record set { mru = index })
        (update_self c.tlb i (record (c.tlb i) { way = update (TlbSet.way (c.tlb i)) index e }))

pub first_entry-set_mru :
    (addr index : ℕ) (c : Cpu)
    → first_entry addr (set_mru (set_of addr) index c) ≡ TlbSet.way (c.tlb (set_of addr)) index
first_entry-set_mru addr index c =
    ap (λ set. TlbSet.way set (TlbSet.mru set)) (set_mru-set (set_of addr) index c)

pub first_entry-set_way :
    (addr index : ℕ) (e : TlbEntry) (c : Cpu)
    → first_entry addr (set_mru (set_of addr) index (set_way (set_of addr) index e c)) ≡ e
first_entry-set_way addr index e c =
    ap (λ set. TlbSet.way set (TlbSet.mru set)) (set_way-set (set_of addr) index e c)
    ∙ update_self (TlbSet.way (c.tlb (set_of addr))) index e

-- A new entry, or an entry found again, becomes the one to try first.
pub Cached-set_way :
    (addr : ℕ) (access : MemAccess) (index : ℕ) (e : TlbEntry) (c : Cpu)
    → index < 2
    → holds_page (addr >>> 12) e ≡ true
    → Grants c access e.flags
    → Cached addr access
        (set_mru (set_of addr) index (set_way (set_of addr) index e c))
        (bit_or e.phys_base (bit_and addr 0xFFF))
unfolding set_mru set_way Grants
Cached-set_way addr access index e c low holds grants =
    Cached-intro addr access (set_mru (set_of addr) index (set_way (set_of addr) index e c)) e index
      (ap TlbSet.mru (set_way-set (set_of addr) index e c)) low (first_entry-set_way addr index e c)
      holds grants

pub Cached-set_mru :
    (addr : ℕ) (access : MemAccess) (index : ℕ) (c : Cpu)
    → let e = TlbSet.way (c.tlb (set_of addr)) index in
      index < 2
      → holds_page (addr >>> 12) e ≡ true
      → Grants c access (TlbEntry.flags e)
      → Cached addr access
          (set_mru (set_of addr) index c)
          (bit_or (TlbEntry.phys_base e) (bit_and addr 0xFFF))
unfolding set_mru Grants
Cached-set_mru addr access index c low holds grants =
    Cached-intro addr access (set_mru (set_of addr) index c)
      (TlbSet.way (c.tlb (set_of addr)) index) index
      (ap TlbSet.mru (set_mru-set (set_of addr) index c)) low (first_entry-set_mru addr index c)
      holds grants
