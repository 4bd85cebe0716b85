-- ===== src/Memory/Cache/Bytes.antt =====
-- What a read in the instruction finds in the write cache of src/memory.c after a write.
use pculator.Base.{
  ℕ, ◌+◌, ◌-◌, ◌<◌, ◌≡◌, refl, ap, sym, ◌∙◌, false, ◌||◌, inl, inr, arith, Option, none, some,
  some-injective, List, [], ◌∷◌, ◌++◌, ◌==◌, ltb, leb, Bool-cases, Option-cases, length, u8, u32,
  ◌<<<◌, ◌>>>◌,
}
use pculator.Memory.{Memory, Entry}
use pculator.Memory.Cache.{entry_contains, find_byte, wrcache_read, wrcache_write}

abbrev pub or_else : Option ℕ → Option ℕ → Option ℕ
or_else none other = other
or_else (some v) other = some v

find_byte-append :
    (entries : List Entry) (e : Entry) (addr : ℕ)
    → find_byte (entries ++ e ∷ []) addr ≡ or_else (find_byte entries addr) (entry_contains e addr)
unfolding find_byte
find_byte-append [] e addr = elim (Option-cases (entry_contains e addr)) [
  | inl h ↦ rw (find_byte, h) refl
  | inr (v, h) ↦ rw (find_byte, h) refl
]
find_byte-append (x ∷ entries) e addr = elim (Option-cases (entry_contains x addr)) [
  | inl h ↦ rw (find_byte, h) (find_byte-append entries e addr)
  | inr (v, h) ↦ rw (find_byte, h) refl
]

entry_contains-within :
    (addr value size i : ℕ)
    → i < size
    → addr + size < 4294967296
    → entry_contains (record { addr = addr; value = value; size = size }) (addr + i)
      ≡ some (u8 (value >>> (i <<< 3)))
unfolding entry_contains
entry_contains-within addr value size i below low =
    let inside : (ltb (addr + i) addr || leb (u32 (addr + size)) (addr + i)) ≡ false =
      ground (arith, below, low) in
    let distance : addr + i - addr ≡ i = omega arith in rw (entry_contains, inside, distance) refl

module _ {D : Type 0} where
  -- After a write that ends within the address space and does not fill the cache, a read of one of its
  -- bytes gives the byte of the value that was written, unless an earlier write in the cache covers
  -- that byte too: then it gives that of the earliest.
  pub wrcache_write-wrcache_read :
      (addr value size i : ℕ) (s t : Memory D)
      → i < size
      → addr + size < 4294967296
      → wrcache_write addr value size s ≡ some t
      → wrcache_read (addr + i) t
        ≡ or_else (wrcache_read (addr + i) s) (some (u8 (value >>> (i <<< 3))))
  unfolding wrcache_read wrcache_write
  wrcache_write-wrcache_read addr value size i s t below low h =
      let e : Entry = record { addr = addr; value = value; size = size } in
      elim (Bool-cases (length (s.wrcache ++ e ∷ []) == 512)) [
        | inl full ↦ ground (arith, h, full)
        | inr room ↦
            let found : wrcache_write addr value size s
                ≡ some (record s { wrcache = s.wrcache ++ e ∷ [] }) =
              rw (wrcache_write, room) refl in
            let same = some-injective _ _ (sym found ∙ h) in
            ap (λ (m : Memory D). find_byte m.wrcache (addr + i)) (sym same)
            ∙ find_byte-append s.wrcache e (addr + i)
            ∙ ap (or_else (find_byte s.wrcache (addr + i)))
                (entry_contains-within addr value size i below low)
      ]
