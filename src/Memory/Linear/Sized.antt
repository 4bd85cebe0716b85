-- ===== src/Memory/Linear/Sized.antt =====
-- Why src/memory.c may read 2 or 4 bytes of a buffer at once: it is what the loop over the bytes
-- reads.
use pculator.Base.{
  ℕ, suc, ◌+◌, ◌<◌, ◌≡◌, refl, sym, ap, subst, ◌∙◌, false, arith, none, some, inl, inr, ◌⊎◌, ◌==◌,
  Bool-cases, Option-cases, bit_or, zero-bit_or, ◌<<<◌, u32,
}
use pculator.Memory.{
  Memory, Region, Pointer, offset, lookup_map, load, load_u16, load_u32, desc_read_u8,
  desc_read_u16_direct, desc_read_u32_direct,
}
use pculator.Memory.Cache.{wrcache_has_overlap, wrcache_read}
use pculator.Memory.Linear.{
  apply_a20, Direct, access_can_direct, read_phys_u8, read_bytes, read_linear_fallback, read_direct,
  read_linear_sized,
}
use pculator.Memory.Linear.Range.{
  entries_overlap-find_byte, apply_a20-add, same_page, apply_a20-lt, offset-add,
  contains_range-start, lookup_map-page, access_can_direct-some, lookup_map_range-some,
}

shift_zero : (b : ℕ) → bit_or 0 (b <<< 0) ≡ b
shift_zero b = zero-bit_or (b <<< 0) ∙ omega arith

module _ {D : Type 0} where
  read_phys_u8-at :
      (a20_gate addr phys : ℕ) (s : Memory D)
      → apply_a20 a20_gate addr ≡ phys
      → wrcache_read phys s ≡ none
      → (lookup_map s phys false == 0xFF) ≡ false
      → read_phys_u8 a20_gate addr s ≡ desc_read_u8 (s.mem (lookup_map s phys false)) phys s
  unfolding read_phys_u8
  read_phys_u8-at a20_gate addr phys s at miss named =
      subst
        (λ q.
          wrcache_read q s ≡ none
          → (lookup_map s q false == 0xFF) ≡ false
          → read_phys_u8 a20_gate addr s ≡ desc_read_u8 (s.mem (lookup_map s q false)) q s)
        at (λ miss' named'. rw (read_phys_u8, miss', named') refl) miss named

  desc_read_u8-plain :
      (map : Region D) (addr : ℕ) (s : Memory D) (p : Pointer)
      → map.desc.read ≡ some p
      → desc_read_u8 map addr s ≡ (load s p (offset addr map.start), s)
  unfolding desc_read_u8
  desc_read_u8-plain map addr s p plain = rw (desc_read_u8, plain) refl

  -- One byte of a direct access to a buffer.
  read_phys_u8-direct :
      (a20_gate addr size i : ℕ) (s : Memory D) (d : Direct D) (p : Pointer)
      → addr < 4294967296
      → i < size
      → access_can_direct a20_gate addr size false s ≡ some d
      → d.map.desc.read ≡ some p
      → wrcache_has_overlap d.phys size s ≡ false
      → read_phys_u8 a20_gate (u32 (addr + i)) s ≡ (load s p (offset d.phys d.map.start + i), s)
  unfolding read_phys_u8 wrcache_read wrcache_has_overlap desc_read_u8
  read_phys_u8-direct a20_gate addr size i s d p narrow below h plain apart =
      let (phys, whole, stays, found) = access_can_direct-some a20_gate addr size false s d h in
      let (named, map, contains) = lookup_map_range-some s d.phys size false d.map found in
      let at : apply_a20 a20_gate (u32 (addr + i)) ≡ d.phys + i =
        apply_a20-add a20_gate addr size i narrow below whole (rw (sym phys) stays)
        ∙ ap (λ a. a + i) (sym phys) in
      let look : lookup_map s (d.phys + i) false ≡ lookup_map s d.phys false =
        lookup_map-page s (d.phys + i) d.phys false (same_page d.phys size i stays below) in
      let named' : (lookup_map s (d.phys + i) false == 0xFF) ≡ false = rw look named in
      read_phys_u8-at a20_gate (u32 (addr + i)) (d.phys + i) s at
        (entries_overlap-find_byte s.wrcache d.phys size i apart below) named'
      ∙ ap (λ k. desc_read_u8 (s.mem k) (d.phys + i) s) look
      ∙ ap (λ m. desc_read_u8 m (d.phys + i) s) map
      ∙ desc_read_u8-plain d.map (d.phys + i) s p plain
      ∙ ap (λ k. (load s p k, s))
          (offset-add d.phys d.map.start size i (rw phys (apply_a20-lt a20_gate addr narrow)) stays
            below (contains_range-start d.map d.phys size contains))

  read_bytes-step :
      (a20_gate n i addr value byte : ℕ) (s : Memory D)
      → read_phys_u8 a20_gate (u32 (addr + i)) s ≡ (byte, s)
      → read_bytes a20_gate (suc n) i addr value s
        ≡ read_bytes a20_gate n (i + 1) addr (bit_or value (byte <<< (i <<< 3))) s
  unfolding read_bytes
  read_bytes-step a20_gate n i addr value byte s h =
      ap
        (λ (r : ℕ × Memory D).
          read_bytes a20_gate n (i + 1) addr (bit_or value (r.0 <<< (i <<< 3))) r.1)
        h

  first_byte : (s : Memory D) (p : Pointer) (o : ℕ) → bit_or 0 (load s p (o + 0) <<< 0) ≡ load s p o
  first_byte s p o =
      let same : o + 0 ≡ o = omega arith in shift_zero (load s p (o + 0)) ∙ ap (load s p) same

  fallback_two :
      (a20_gate addr : ℕ) (s : Memory D) (d : Direct D) (p : Pointer)
      → addr < 4294967296
      → access_can_direct a20_gate addr 2 false s ≡ some d
      → d.map.desc.read ≡ some p
      → wrcache_has_overlap d.phys 2 s ≡ false
      → (read_linear_fallback a20_gate addr 2 s ≡ (load_u16 s p (offset d.phys d.map.start), s))
        × (read_direct 2 d s ≡ some (load_u16 s p (offset d.phys d.map.start), s))
  unfolding read_linear_fallback read_direct load_u16 desc_read_u16_direct
  fallback_two a20_gate addr s d p narrow h plain apart =
      let o = offset d.phys d.map.start in
      let byte : (i : ℕ)
          → i < 2
          → read_phys_u8 a20_gate (u32 (addr + i)) s ≡ (load s p (o + i), s) =
        λ i below. read_phys_u8-direct a20_gate addr 2 i s d p narrow below h plain apart in
      (
        read_bytes-step a20_gate 1 0 addr 0 (load s p (o + 0)) s (byte 0 (omega arith))
            ∙ read_bytes-step a20_gate 0 1 addr (bit_or 0 (load s p (o + 0) <<< 0))
                (load s p (o + 1)) s (byte 1 (omega arith))
            ∙ ap (λ x. (bit_or x (load s p (o + 1) <<< 8), s)) (first_byte s p o),
        rw (read_direct, plain) refl,
      )

  fallback_four :
      (a20_gate addr : ℕ) (s : Memory D) (d : Direct D) (p : Pointer)
      → addr < 4294967296
      → access_can_direct a20_gate addr 4 false s ≡ some d
      → d.map.desc.read ≡ some p
      → wrcache_has_overlap d.phys 4 s ≡ false
      → (read_linear_fallback a20_gate addr 4 s ≡ (load_u32 s p (offset d.phys d.map.start), s))
        × (read_direct 4 d s ≡ some (load_u32 s p (offset d.phys d.map.start), s))
  unfolding read_linear_fallback read_direct load_u32 desc_read_u32_direct
  fallback_four a20_gate addr s d p narrow h plain apart =
      let o = offset d.phys d.map.start in
      let byte : (i : ℕ)
          → i < 4
          → read_phys_u8 a20_gate (u32 (addr + i)) s ≡ (load s p (o + i), s) =
        λ i below. read_phys_u8-direct a20_gate addr 4 i s d p narrow below h plain apart in
      let one = bit_or 0 (load s p (o + 0) <<< 0) in
      let two = bit_or one (load s p (o + 1) <<< 8) in
      let three = bit_or two (load s p (o + 2) <<< 16) in
      (
        read_bytes-step a20_gate 3 0 addr 0 (load s p (o + 0)) s (byte 0 (omega arith))
            ∙ read_bytes-step a20_gate 2 1 addr one (load s p (o + 1)) s (byte 1 (omega arith))
            ∙ read_bytes-step a20_gate 1 2 addr two (load s p (o + 2)) s (byte 2 (omega arith))
            ∙ read_bytes-step a20_gate 0 3 addr three (load s p (o + 3)) s (byte 3 (omega arith))
            ∙ ap
                (λ x. (
                  bit_or (bit_or (bit_or x (load s p (o + 1) <<< 8)) (load s p (o + 2) <<< 16))
                      (load s p (o + 3) <<< 24),
                  s,
                ))
                (first_byte s p o),
        rw (read_direct, plain) refl,
      )

  -- Both ways to read the bytes of a buffer.
  fallback_sized :
      (a20_gate addr size : ℕ) (s : Memory D) (d : Direct D) (p : Pointer)
      → addr < 4294967296
      → (size ≡ 2) ⊎ (size ≡ 4)
      → access_can_direct a20_gate addr size false s ≡ some d
      → d.map.desc.read ≡ some p
      → wrcache_has_overlap d.phys size s ≡ false
      → read_direct size d s ≡ some (read_linear_fallback a20_gate addr size s)
  fallback_sized a20_gate addr size s d p narrow (inl two) h plain apart =
      subst
        (λ n.
          access_can_direct a20_gate addr n false s ≡ some d
          → wrcache_has_overlap d.phys n s ≡ false
          → read_direct n d s ≡ some (read_linear_fallback a20_gate addr n s))
        (sym two)
        (λ h' apart'.
          let (slow, fast) = fallback_two a20_gate addr s d p narrow h' plain apart' in
          fast ∙ ap some (sym slow))
        h apart
  fallback_sized a20_gate addr size s d p narrow (inr four) h plain apart =
      subst
        (λ n.
          access_can_direct a20_gate addr n false s ≡ some d
          → wrcache_has_overlap d.phys n s ≡ false
          → read_direct n d s ≡ some (read_linear_fallback a20_gate addr n s))
        (sym four)
        (λ h' apart'.
          let (slow, fast) = fallback_four a20_gate addr s d p narrow h' plain apart' in
          fast ∙ ap some (sym slow))
        h apart

  -- Where a read of 2 or 4 bytes is of a buffer, the read at once and the loop over the bytes give the
  -- same value, whatever the state of the address line and whatever the write cache holds.
  pub read_linear_sized-fallback :
      (a20_gate addr size : ℕ) (s : Memory D)
      → addr < 4294967296
      → (size ≡ 2) ⊎ (size ≡ 4)
      → ((d : Direct D)
          → access_can_direct a20_gate addr size false s ≡ some d
          → (p : Pointer) × (d.map.desc.read ≡ some p))
      → read_linear_sized a20_gate addr size s ≡ read_linear_fallback a20_gate addr size s
  unfolding read_linear_sized
  read_linear_sized-fallback a20_gate addr size s narrow width plain =
      let wide : (size == 1) ≡ false = elim width [ inl e ↦ rw e refl | inr e ↦ rw e refl ] in
      elim (Option-cases (access_can_direct a20_gate addr size false s)) [
        | inl e ↦ rw (read_linear_sized, wide, e) refl
        | inr (d, e) ↦ elim (Bool-cases (wrcache_has_overlap d.phys size s)) [
          | inl e' ↦ rw (read_linear_sized, wide, e, e') refl
          | inr e' ↦
              let (p, buffer) = plain d e in
              rw
                (
                  read_linear_sized,
                  wide,
                  e,
                  e',
                  fallback_sized a20_gate addr size s d p narrow width e buffer e',
                )
                refl
        ]
      ]
