-- ===== src/Cpu/Segment/Registers.antt =====
-- src/cpu/cpuhelper.h, the segment registers: loading them, emptying them on a return to an outer
-- level, the linear base of a selector, and the flags that `iret` restores.
pub mod Cleanup
pub mod Reading
pub mod Load
pub mod Encoding
pub mod Iret
pub mod Kept
use pculator.Base.{
  ℕ, ◌+◌, ◌^◌, Bool, true, false, not, ◌&&◌, ◌||◌, Option, none, some, ◌==◌, ◌!=◌, ltb, leb,
  if◌then◌else◌, update, bit_and, bit_or, u16, u32, not32, has, ◌<<<◌, ◌>>>◌,
}
use pculator.Cpu.Segment.{
  Bus, Processor, Eflags, SegDesc, reges, regcs, regss, regds, regfs, reggs, selector_offset,
  selector_error_code, desc_is_present, desc_is_code, desc_is_conforming_code,
  desc_is_readable_code, desc_is_writable_data, read_segdesc, read_byte, read_word, raise,
}

-- The macro `makeflagsword` of src/cpu/cpu.h, which joins `of` twice.
unfoldable pub makeflagsword : Eflags → ℕ
makeflagsword x =
    let low =
      bit_or (bit_or (bit_or (bit_or (bit_or 2 x.cf) (x.pf <<< 2)) (x.af <<< 4)) (x.zf <<< 6))
        (x.sf <<< 7) in
    let mid =
      bit_or (bit_or (bit_or (bit_or low (x.tf <<< 8)) (x.ifl <<< 9)) (x.df <<< 10))
        (x.of <<< 11) in
    let high = bit_or (bit_or (bit_or mid (x.iopl <<< 12)) (x.nt <<< 14)) (x.rf <<< 16) in
    bit_or (bit_or (bit_or (bit_or high (x.v86f <<< 17)) (x.acf <<< 18)) (x.of <<< 11))
      (x.idf <<< 21)

-- `(old & ~mask) | (new & mask)`.
unfoldable pub merge : (mask old new : ℕ) → ℕ
merge mask old new = bit_or (bit_and old (not32 mask)) (bit_and new mask)

-- A field of one bit.
unfoldable pub flag_of : ℕ → ℕ → ℕ
flag_of word mask = if has word mask then 1 else 0

-- The fields that `cpu_restore_iret_flags` takes from the merged word.
unfoldable pub split_flags : ℕ → Eflags
unfolding flag_of
split_flags word = record {
  cf = flag_of word 1;
  pf = flag_of word (2 ^ 2);
  af = flag_of word (2 ^ 4);
  zf = flag_of word (2 ^ 6);
  sf = flag_of word (2 ^ 7);
  tf = flag_of word (2 ^ 8);
  ifl = flag_of word (2 ^ 9);
  df = flag_of word (2 ^ 10);
  of = flag_of word (2 ^ 11);
  iopl = bit_and word 0x3000 >>> 12;
  nt = flag_of word (2 ^ 14);
  rf = flag_of word (2 ^ 16);
  v86f = flag_of word (2 ^ 17);
  acf = flag_of word (2 ^ 18);
  idf = flag_of word (2 ^ 21);
}

-- CF, PF, AF, ZF, SF, TF, DF, OF and NT, with AC and ID where the operand has 32 bits.
unfoldable pub modifiable_mask : ℕ → ℕ
modifiable_mask isoper32 = if isoper32 != 0 then 0x244DD5 else 0x4DD5

-- The upper half of the old flags stays where the operand has 16 bits.
unfoldable pub widened : ℕ → ℕ → ℕ → ℕ
widened isoper32 old new =
    if isoper32 != 0 then new else bit_or (bit_and new 0xFFFF) (bit_and old 0xFFFF0000)

unfoldable pub merged_flags :
    (protected_mode isoper32 iopl current_cpl : ℕ) → (old new_eflags : ℕ) → ℕ
unfolding merge modifiable_mask widened
merged_flags protected_mode isoper32 iopl current_cpl old new_eflags =
    let new = widened isoper32 old new_eflags in
    let first = merge (modifiable_mask isoper32) old new in
    let second =
      if protected_mode == 0 || leb current_cpl iopl then merge 0x200 first new else first in
    if protected_mode == 0 || current_cpl == 0 then merge 0x3000 second new else second

-- The tests of `cpu_segment_usable_at_cpl` on the descriptor.
unfoldable pub desc_usable : ℕ → ℕ → SegDesc → Bool
desc_usable selector target_cpl d =
    let rpl = bit_and selector 3 in
    if not (desc_is_present d) || bit_and d.access 0x10 == 0
    then false
    else if desc_is_code d
    then desc_is_readable_code d
      && not (not (desc_is_conforming_code d) && (ltb d.dpl target_cpl || ltb d.dpl rpl))
    else leb target_cpl d.dpl && leb rpl d.dpl

-- The limit in bytes, of a limit of 20 bits and the flags of the descriptor.
unfoldable pub desc_limit : ℕ → ℕ → ℕ
desc_limit word flags =
    let limit = bit_or word (bit_and flags 0x0F <<< 16) in
    if has flags 0x80 then bit_or (u32 (limit <<< 12)) 0xFFF else limit

module _ {S : Type 0} where
  unfoldable pub restore_iret_flags : ℕ → (current_cpl target_cpl : ℕ) → Processor S → Processor S
  unfolding makeflagsword merged_flags split_flags
  restore_iret_flags new_eflags current_cpl target_cpl p =
      let flags = split_flags (
        merged_flags p.protected_mode p.isoper32 p.eflags.iopl current_cpl (makeflagsword p.eflags)
          new_eflags) in
      record p { eflags = flags; cpl = if flags.v86f != 0 then 3 else target_cpl }

  unfoldable pub null_seg : ℕ → Processor S → Processor S
  null_seg reg p = record p {
    segregs = update p.segregs reg 0;
    segcache = update p.segcache reg 0;
    segis32 = update p.segis32 reg 0;
    seglimit = update p.seglimit reg 0;
  }

  unfoldable pub usable_in : ℕ → ℕ → Option SegDesc × Processor S → Bool × Processor S
  unfolding desc_usable
  usable_in selector target_cpl (none, p) = (false, p)
  usable_in selector target_cpl (some d, p) = (desc_usable selector target_cpl d, p)

  unfoldable pub segment_usable_at_cpl : Bus S → ℕ → ℕ → Processor S → Bool × Processor S
  unfolding usable_in
  segment_usable_at_cpl b selector target_cpl p =
      if selector_offset selector == 0
      then (true, p)
      else usable_in selector target_cpl (read_segdesc b selector p)

  -- One of the four statements of `cpu_cleanup_outer_return_segments`.
  unfoldable pub cleanup : Bus S → ℕ → ℕ → Processor S → Processor S
  unfolding null_seg
  cleanup b target_cpl reg p =
      let (usable, q) = segment_usable_at_cpl b (p.segregs reg) target_cpl p in
      if usable then q else null_seg reg q

  unfoldable pub cleanup_outer_return_segments : Bus S → ℕ → Processor S → Processor S
  cleanup_outer_return_segments b target_cpl p =
      cleanup b target_cpl reggs
        (cleanup b target_cpl regfs (cleanup b target_cpl regds (cleanup b target_cpl reges p)))

  -- The base address in a descriptor.
  unfoldable pub desc_base : Bus S → ℕ → Processor S → ℕ × Processor S
  desc_base b addr p =
      let (low, q) = read_byte b (addr + 2) p in
      let (mid, r) = read_byte b (addr + 3) q in
      let (high, t) = read_byte b (addr + 4) r in
      let (top, u) = read_byte b (addr + 7) t in
      (bit_or (bit_or (bit_or low (mid <<< 8)) (high <<< 16)) (top <<< 24), u)

  -- The privilege level follows the code segment.
  unfoldable pub cpl_after : ℕ → ℕ → Processor S → Processor S
  cpl_after reg selector p =
      if reg == regcs && p.protected_mode != 0
      then record p { cpl = if p.eflags.v86f == 0 then bit_and selector 3 else 3 }
      else p

  unfoldable pub commit_segdesc : Bus S → ℕ → ℕ → SegDesc → Processor S → Processor S
  commit_segdesc b reg selector d p =
      let (base, q) = desc_base b d.addr p in
      let (word, r) = read_word b d.addr q in
      cpl_after reg selector (record r {
        segregs = update r.segregs reg selector;
        segcache = update r.segcache reg base;
        segis32 = update r.segis32 reg (bit_and (d.flags >>> 6) 1);
        seglimit = update r.seglimit reg (desc_limit word d.flags);
      })

  unfoldable pub commit_real_segment : ℕ → ℕ → Processor S → Processor S
  commit_real_segment reg selector p = record p {
    segregs = update p.segregs reg selector;
    segcache = update p.segcache reg (selector <<< 4);
    segis32 = update p.segis32 reg 0;
  }

  -- Segments as on the 8086: in real mode and in virtual mode.
  unfoldable pub real_segments : Processor S → Bool
  real_segments p = p.protected_mode == 0 || p.eflags.v86f != 0

  unfoldable pub commit_found : Bus S → ℕ → ℕ → Option SegDesc × Processor S → Bool × Processor S
  unfolding commit_segdesc
  commit_found b reg selector (none, p) = (false, p)
  commit_found b reg selector (some d, p) = (true, commit_segdesc b reg selector d p)

  -- `false` is the result 0.
  unfoldable pub commit_validated_segment : Bus S → ℕ → ℕ → Processor S → Bool × Processor S
  unfolding real_segments commit_real_segment null_seg commit_found
  commit_validated_segment b reg selector p =
      if real_segments p
      then (true, commit_real_segment reg selector p)
      else if selector_offset selector == 0 && (reg != regcs && reg != regss)
      then (true, null_seg reg p)
      else commit_found b reg selector (read_segdesc b selector p)

  unfoldable pub segtolinear : Bus S → ℕ → Processor S → ℕ × Processor S
  unfolding real_segments desc_base
  segtolinear b seg p =
      if real_segments p
      then (seg <<< 4, p)
      else desc_base b (u32 ((if has seg 4 then p.ldtr else p.gdtr) + bit_and seg 0xFFFFFFF8)) p

  -- The `switch` on the register: may it hold the segment?
  unfoldable pub register_accepts : Bus S → ℕ → ℕ → SegDesc → Processor S → Bool × Processor S
  unfolding segment_usable_at_cpl
  register_accepts b reg selector d p =
      if reg == regcs
      then (desc_is_code d, p)
      else if reg == regss
      then (desc_is_writable_data d && (bit_and selector 3 == p.cpl && d.dpl == p.cpl), p)
      else segment_usable_at_cpl b selector p.cpl p

  unfoldable pub put_accepted : Bus S → ℕ → ℕ → SegDesc → Bool × Processor S → Processor S
  unfolding commit_segdesc
  put_accepted b reg selector d (true, p) = commit_segdesc b reg selector d p
  put_accepted b reg selector d (false, p) = raise b 13 (selector_error_code selector) p

  unfoldable pub put_found : Bus S → ℕ → ℕ → Option SegDesc × Processor S → Processor S
  unfolding put_accepted register_accepts
  put_found b reg selector (none, p) = raise b 13 (selector_error_code selector) p
  put_found b reg selector (some d, p) =
      if not (desc_is_present d)
      then raise b (if reg == regss then 12 else 11) (selector_error_code selector) p
      else put_accepted b reg selector d (register_accepts b reg selector d p)

  unfoldable pub putsegreg : Bus S → ℕ → ℕ → Processor S → Processor S
  unfolding real_segments commit_real_segment null_seg put_found cpl_after
  putsegreg b reg writeval p =
      let selector = u16 writeval in
      if real_segments p
      then cpl_after reg selector (commit_real_segment reg selector p)
      else if selector_offset selector == 0
      then (if reg == regcs || reg == regss then raise b 13 0 p else null_seg reg p)
      else put_found b reg selector (read_segdesc b selector p)
