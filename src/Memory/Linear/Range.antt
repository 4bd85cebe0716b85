-- ===== src/Memory/Linear/Range.antt =====
-- A range of bytes that src/memory.c reaches at once: one page, one region, and addresses that do not
-- wrap.
use pculator.Base.{
  ℕ, ◌+◌, ◌%◌, ◌≤◌, ◌<◌, ◌≡◌, refl, sym, subst, ◌∙◌, Bool, true, false, ◌&&◌, ◌||◌, arith, none,
  some, some-injective, List, [], ◌∷◌, inl, inr, ◌==◌, ltb, leb, Bool-cases, Option-cases, bit_and,
  bit_and_mask, u32,
}
use pculator.Memory.{
  Memory, Region, Entry, offset, getpage, access_stays_on_page, contains_range, lookup_map,
  lookup_map_range, get_decode_state,
}
use pculator.Memory.Cache.{entry_contains, entries_overlap, find_byte}
use pculator.Memory.Linear.{apply_a20, Direct, access_can_direct}

pub entry_contains-apart :
    (e : Entry) (addr size i : ℕ)
    → (ltb addr (e.addr + e.size) && ltb e.addr (addr + size)) ≡ false
    → i < size
    → entry_contains e (addr + i) ≡ none
unfolding entry_contains
entry_contains-apart e addr size i h below =
    let out : (ltb (addr + i) e.addr || leb (u32 (e.addr + e.size)) (addr + i)) ≡ true =
      ground (arith, h, below) in
    rw (entry_contains, out) refl

-- An entry that covers a byte of a range overlaps the range.
pub entries_overlap-find_byte :
    (entries : List Entry) (addr size i : ℕ)
    → entries_overlap entries addr size ≡ false
    → i < size
    → find_byte entries (addr + i) ≡ none
unfolding entries_overlap find_byte
entries_overlap-find_byte [] addr size i h below = refl
entries_overlap-find_byte (e ∷ rest) addr size i h below =
    let apart : (ltb addr (e.addr + e.size) && ltb e.addr (addr + size)) ≡ false =
      ground (arith, h) in
    let others : entries_overlap rest addr size ≡ false = ground (arith, h) in
    rw (find_byte, entry_contains-apart e addr size i apart below)
      (entries_overlap-find_byte rest addr size i others below)

line :
    (addr size i : ℕ)
    → addr % 1048576 + size ≤ 1048576
    → i < size
    → u32 (addr + i) % 1048576 ≡ addr % 1048576 + i
line addr size i whole below = omega arith

full :
    (addr size i : ℕ)
    → addr < 4294967296
    → i < size
    → addr % 4096 + size ≤ 4096
    → u32 (addr + i) ≡ addr + i
full addr size i narrow below stays = omega arith

full_stays :
    (a20_gate addr size : ℕ)
    → (a20_gate == 0) ≡ false
    → access_stays_on_page (apply_a20 a20_gate addr) size ≡ true
    → access_stays_on_page addr size ≡ true
unfolding apply_a20
full_stays a20_gate addr size e stays =
    subst (λ a. access_stays_on_page a size ≡ true) (rw (apply_a20, e) refl) stays

-- The address line does not change the distance of the bytes of a range that it leaves whole.
pub apply_a20-add :
    (a20_gate addr size i : ℕ)
    → addr < 4294967296
    → i < size
    → (a20_gate == 0 && ltb 0x100000 (bit_and addr 0xFFFFF + size)) ≡ false
    → access_stays_on_page (apply_a20 a20_gate addr) size ≡ true
    → apply_a20 a20_gate (u32 (addr + i)) ≡ apply_a20 a20_gate addr + i
unfolding apply_a20 access_stays_on_page
apply_a20-add a20_gate addr size i narrow below whole stays =
    let low = bit_and_mask 20 addr in
    let low' = bit_and_mask 20 (u32 (addr + i)) in
    let page = bit_and_mask 12 addr in
    elim (Bool-cases (a20_gate == 0)) [
      | inl e ↦ rw (e, low, low') (line addr size i (ground (arith, whole, e, low)) below)
      | inr e ↦ rw e (
          full addr size i narrow below
            (ground (arith, page, full_stays a20_gate addr size e stays)))
    ]

pub same_page :
    (phys size i : ℕ)
    → access_stays_on_page phys size ≡ true
    → i < size
    → getpage (phys + i) ≡ getpage phys
unfolding access_stays_on_page
same_page phys size i stays below =
    let page = bit_and_mask 12 phys in ground (arith, page, stays, below)

pub apply_a20-lt : (a20_gate addr : ℕ) → addr < 4294967296 → apply_a20 a20_gate addr < 4294967296
unfolding apply_a20
apply_a20-lt a20_gate addr h = let low = bit_and_mask 20 addr in ground (arith, low, h)

pub offset-add :
    (phys start size i : ℕ)
    → phys < 4294967296
    → access_stays_on_page phys size ≡ true
    → i < size
    → start ≤ phys
    → offset (phys + i) start ≡ offset phys start + i
unfolding access_stays_on_page
offset-add phys start size i narrow stays below from =
    let page = bit_and_mask 12 phys in
    let fits : phys % 4096 + size ≤ 4096 = ground (arith, page, stays) in
    near phys start size i narrow fits below from
  where
    near :
        (phys start size i : ℕ)
        → phys < 4294967296
        → phys % 4096 + size ≤ 4096
        → i < size
        → start ≤ phys
        → offset (phys + i) start ≡ offset phys start + i
    near phys start size i narrow fits below from = omega arith

module _ {D : Type 0} where
  pub contains_range-start :
      (map : Region D) (addr size : ℕ) → contains_range map addr size ≡ true → map.start ≤ addr
  unfolding contains_range
  contains_range-start map addr size h = ground (arith, h)

  pub lookup_map-page :
      (s : Memory D) (a b : ℕ) (is_write : Bool)
      → getpage a ≡ getpage b
      → lookup_map s a is_write ≡ lookup_map s b is_write
  unfolding lookup_map get_decode_state
  lookup_map-page s a b is_write h = rw h refl

  -- What a direct access rests on.
  pub access_can_direct-some :
      (a20_gate addr size : ℕ) (is_write : Bool) (s : Memory D) (d : Direct D)
      → access_can_direct a20_gate addr size is_write s ≡ some d
      → (d.phys ≡ apply_a20 a20_gate addr)
        × ((a20_gate == 0 && ltb 0x100000 (bit_and addr 0xFFFFF + size)) ≡ false)
        × (access_stays_on_page d.phys size ≡ true)
        × (lookup_map_range s d.phys size is_write ≡ some d.map)
  unfolding access_can_direct
  access_can_direct-some a20_gate addr size is_write s d h =
      let phys = apply_a20 a20_gate addr in
      elim (Bool-cases
        (leb size 1 || (a20_gate == 0 && ltb 0x100000 (bit_and addr 0xFFFFF + size)))) [
          | inl e ↦ ground (arith, h, e)
          | inr e ↦ elim (Bool-cases (access_stays_on_page phys size)) [
            | inr e' ↦ ground (arith, h, e, e')
            | inl e' ↦ elim (Option-cases (lookup_map_range s phys size is_write)) [
              | inl e'' ↦ ground (arith, h, e, e', e'')
              | inr (map, e'') ↦
                  let found : access_can_direct a20_gate addr size is_write s
                      ≡ some (record { phys = phys; map = map }) =
                    rw (access_can_direct, e, e', e'') refl in
                  let same = some-injective _ _ (sym found ∙ h) in
                  rw (sym same) (refl, ground (arith, e), e', e'')
            ]
          ]
        ]

  pub lookup_map_range-some :
      (s : Memory D) (addr size : ℕ) (is_write : Bool) (map : Region D)
      → lookup_map_range s addr size is_write ≡ some map
      → ((lookup_map s addr is_write == 0xFF) ≡ false)
        × (s.mem (lookup_map s addr is_write) ≡ map)
        × (contains_range map addr size ≡ true)
  unfolding lookup_map_range
  lookup_map_range-some s addr size is_write map h =
      let k = lookup_map s addr is_write in
      elim (Bool-cases (k == 0xFF)) [
        | inl e ↦ ground (arith, h, e)
        | inr e ↦ elim (Bool-cases (contains_range (s.mem k) addr size)) [
          | inr e' ↦ ground (arith, h, e, e')
          | inl e' ↦
              let found : lookup_map_range s addr size is_write ≡ some (s.mem k) =
                rw (lookup_map_range, e, e') refl in
              let same : s.mem k ≡ map = some-injective _ _ (sym found ∙ h) in
              (e, same, subst (λ m. contains_range m addr size ≡ true) same e')
        ]
      ]
