-- ===== src/Cpu/Segment/Registers/Encoding.antt =====
-- `cpu_commit_segdesc` of src/cpu/cpuhelper.h against the layout of a descriptor in memory.
use pculator.Base.{
  ℕ, ◌+◌, ◌*◌, ◌/◌, ◌%◌, ◌^◌, ◌≡◌, ◌<◌, refl, ap, ◌∙◌, inl, inr, ◌==◌, ◌!=◌, ◌&&◌, leb,
  if◌then◌else◌, Bool-cases, bit_and, bit_or, arith, has, ◌<<<◌, ◌>>>◌, u8, u16, u32, bit_or_fields,
  fields-bit_or, bit_and_mask, update_self, has-pow, bit_div,
}
use pculator.Cpu.Segment.{Bus, Processor, SegDesc, regcs, load_segdesc, read_byte, read_word}
use pculator.Cpu.Segment.Registers.{commit_segdesc, cpl_after, desc_base, desc_limit}

-- In the state `s` the table holds, at `addr`, the eight bytes of a descriptor: a limit of 20 bits, a
-- base of 32, the access byte and four flags. Reading the bytes and the first word leaves the state.
pub record Encodes {S : Type 0} (b : Bus S) (s : S) (addr base limit access flags : ℕ)
    : Type 0 where
  pub limit_low : b.readw_sys addr s ≡ (limit % 65536, s)
  pub base_low : b.read_sys (addr + 2) s ≡ (base % 256, s)
  pub base_mid : b.read_sys (addr + 3) s ≡ (base / 256 % 256, s)
  pub base_high : b.read_sys (addr + 4) s ≡ (base / 65536 % 256, s)
  pub access_byte : b.read_sys (addr + 5) s ≡ (access, s)
  pub flags_limit : b.read_sys (addr + 6) s ≡ (flags * 16 + limit / 65536, s)
  pub base_top : b.read_sys (addr + 7) s ≡ (base / 16777216, s)

base_joined :
    (base : ℕ)
    → base < 2 ^ 32
    → bit_or
        (bit_or (bit_or (base % 256) ((base / 256 % 256) <<< 8)) ((base / 65536 % 256) <<< 16))
        ((base / 16777216) <<< 24)
      ≡ base
base_joined base h =
    rw
      (
        fields-bit_or 8 (base / 256 % 256) (base % 256) (omega arith),
        fields-bit_or 16 (base / 65536 % 256) (base / 256 % 256 * 2 ^ 8 + base % 256) (omega arith),
        fields-bit_or 24 (base / 16777216)
            (base / 65536 % 256 * 2 ^ 16 + (base / 256 % 256 * 2 ^ 8 + base % 256)) (omega arith),
      )
      (omega arith)

desc_limit_lem :
    (limit flags : ℕ)
    → limit < 2 ^ 20
    → flags < 16
    → desc_limit (limit % 65536) (flags * 16 + limit / 65536)
      ≡ (if leb 8 flags then limit * 4096 + 4095 else limit)
unfolding desc_limit
desc_limit_lem limit flags h f =
    rw (whole, top)
      (elim (Bool-cases (leb 8 flags)) [
        | inl e ↦ rw (e, scaled, bit_or_fields 12 limit 4095 (omega arith)) refl
        | inr e ↦ rw e refl
      ])
  where
    fl : ℕ
    fl = flags * 16 + limit / 65536

    whole : bit_or (limit % 65536) (bit_and fl 0x0F <<< 16) ≡ limit
    whole =
        ap (λ (n : ℕ). bit_or (limit % 65536) (n <<< 16)) (bit_and_mask 4 fl)
        ∙ fields-bit_or 16 (fl % 16) (limit % 65536) (omega arith)
        ∙ omega arith

    top : has fl 0x80 ≡ leb 8 flags
    top = has-pow fl 7 ∙ bit_div fl 7 ∙ ground arith

    scaled : u32 (limit <<< 12) ≡ limit <<< 12
    scaled = omega arith

module _ {S : Type 0} (b : Bus S) where
  byte_lem :
      (a v : ℕ) (p : Processor S)
      → a < 2 ^ 32
      → b.read_sys a p.bus ≡ (v, p.bus)
      → v < 256
      → read_byte b a p ≡ (v, p)
  unfolding read_byte
  byte_lem a v p h e small = rw (same, e, fits) refl
    where
      same : u32 a ≡ a
      same = omega arith

      fits : u8 v ≡ v
      fits = omega arith

  word_lem :
      (a v : ℕ) (p : Processor S)
      → a < 2 ^ 32
      → b.readw_sys a p.bus ≡ (v, p.bus)
      → v < 65536
      → read_word b a p ≡ (v, p)
  unfolding read_word
  word_lem a v p h e small = rw (same, e, fits) refl
    where
      same : u32 a ≡ a
      same = omega arith

      fits : u16 v ≡ v
      fits = omega arith

  module _ (addr base limit access flags : ℕ) (p : Processor S) (low : addr + 7 < 2 ^ 32)
      (fits : base < 2 ^ 32) (short : limit < 2 ^ 20) (byte : access < 256) (four : flags < 16)
      (h : Encodes b p.bus addr base limit access flags) where
    abbrev seen : SegDesc
    seen = record {
      addr = addr;
      access = access;
      flags = flags * 16 + limit / 65536;
      dpl = bit_and (access >>> 5) 3;
    }

    load_segdesc_lem : load_segdesc b addr p ≡ (seen, p)
    unfolding load_segdesc
    load_segdesc_lem =
        rw
          (
            byte_lem (addr + 5) access p (omega (arith, low)) h.access_byte byte,
            byte_lem (addr + 6) (flags * 16 + limit / 65536) p (omega (arith, low)) h.flags_limit
                (omega (arith, four, short)),
          )
          refl

    desc_base_lem : desc_base b addr p ≡ (base, p)
    unfolding desc_base
    desc_base_lem =
        rw
          (
            byte_lem (addr + 2) (base % 256) p (omega (arith, low)) h.base_low (omega arith),
            byte_lem (addr + 3) (base / 256 % 256) p (omega (arith, low)) h.base_mid (omega arith),
            byte_lem (addr + 4) (base / 65536 % 256) p (omega (arith, low)) h.base_high
                (omega arith),
            byte_lem (addr + 7) (base / 16777216) p low h.base_top (omega (arith, fits)),
            base_joined base fits,
          )
          refl

    limit_word : read_word b addr p ≡ (limit % 65536, p)
    limit_word = word_lem addr (limit % 65536) p (omega (arith, low)) h.limit_low (omega arith)

    size : bit_and ((flags * 16 + limit / 65536) >>> 6) 1 ≡ flags / 4 % 2
    size = bit_and_mask 1 ((flags * 16 + limit / 65536) >>> 6) ∙ omega (arith, short)

    -- A segment register shows what a descriptor in the table encodes: where the eight bytes of a
    -- base of 32 bits, a limit of 20, an access byte and four flags are read and loaded, the
    -- register holds the selector and the base, the default size is bit 2 of the flags, and the limit
    -- is the limit of the descriptor, in bytes or, where bit 3 of the flags is set, in pages of 4096
    -- bytes, the last byte of the last page. The descriptor lies within the address space, and
    -- reading these bytes in the state of the processor gives them and does not change the state.
    pub commit_segdesc_lem :
        (reg selector : ℕ)
        → let (d, q) = load_segdesc b addr p in
          let r = commit_segdesc b reg selector d q in
          (r.segregs reg ≡ selector)
          × (r.segcache reg ≡ base)
          × (r.segis32 reg ≡ flags / 4 % 2)
          × (r.seglimit reg ≡ (if leb 8 flags then limit * 4096 + 4095 else limit))
          × (d.access ≡ access)
    unfolding commit_segdesc cpl_after
    commit_segdesc_lem reg selector =
        let kept = update_self p.segregs reg selector in
        let place = update_self p.segcache reg base in
        let wide =
          update_self p.segis32 reg (bit_and ((flags * 16 + limit / 65536) >>> 6) 1) ∙ size in
        let extent =
          update_self p.seglimit reg (desc_limit (limit % 65536) (flags * 16 + limit / 65536))
          ∙ desc_limit_lem limit flags short four in
        rw load_segdesc_lem (
          rw desc_base_lem (
            rw limit_word (elim (Bool-cases (reg == regcs && p.protected_mode != 0)) [
              | inl e ↦ rw e (kept, place, wide, extent, refl)
              | inr e ↦ rw e (kept, place, wide, extent, refl)
            ])))
