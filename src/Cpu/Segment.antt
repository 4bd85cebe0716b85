-- ===== src/Cpu/Segment.antt =====
-- src/cpu/cpuhelper.h, the segment descriptors of protected mode: selectors, the tests of a
-- descriptor, and how a descriptor is read. `S` is what the processor reads its tables through, the
-- machine of memory.c, which the interface `Bus` hides.
pub mod Validate
pub mod Registers
use pculator.Base.{
  ℕ, ◌+◌, Bool, true, false, not, ◌&&◌, ◌||◌, Option, none, some, ◌==◌, ltb, if◌then◌else◌, bit_and,
  bit_or, u8, u16, u32, has, ◌<<<◌, ◌>>>◌,
}
use pculator.Memory.Access.{cpu_read_sys, cpu_readw_sys, cpu_readl_sys}
use pculator.Memory.Paging.{Machine, exception}

-- `cpu_read_sys`, `cpu_readw_sys`, `cpu_readl_sys` and the macro `exception`.
pub record Bus (S : Type 0) : Type 0 where
  pub read_sys : ℕ → S → ℕ × S
  pub readw_sys : ℕ → S → ℕ × S
  pub readl_sys : ℕ → S → ℕ × S
  pub exception : ℕ → ℕ → S → S

-- The bits of EFLAGS that `CPU_t` keeps in fields of their own.
pub record Eflags : Type 0 where
  pub cf : ℕ
  pub pf : ℕ
  pub af : ℕ
  pub zf : ℕ
  pub sf : ℕ
  pub tf : ℕ
  pub ifl : ℕ
  pub df : ℕ
  pub of : ℕ
  pub iopl : ℕ
  pub nt : ℕ
  pub rf : ℕ
  pub v86f : ℕ
  pub acf : ℕ
  pub idf : ℕ

-- The fields of `CPU_t` that these functions use; `bus` is the state of memory and of the exception.
pub record Processor (S : Type 0) : Type 0 where
  pub bus : S
  pub gdtr : ℕ
  pub gdtl : ℕ
  pub ldtr : ℕ
  pub ldtl : ℕ
  pub idtr : ℕ
  pub idtl : ℕ
  pub trbase : ℕ
  pub trlimit : ℕ
  pub tr_selector : ℕ
  pub cpl : ℕ
  pub protected_mode : ℕ
  pub isoper32 : ℕ
  pub eflags : Eflags
  pub segregs : ℕ → ℕ
  pub segcache : ℕ → ℕ
  pub segis32 : ℕ → ℕ
  pub seglimit : ℕ → ℕ

abbrev pub reges : ℕ
reges = 0

abbrev pub regcs : ℕ
regcs = 1

abbrev pub regss : ℕ
regss = 2

abbrev pub regds : ℕ
regds = 3

abbrev pub regfs : ℕ
regfs = 4

abbrev pub reggs : ℕ
reggs = 5

-- `SEGDESC_t`.
pub record SegDesc : Type 0 where
  pub addr : ℕ
  pub access : ℕ
  pub flags : ℕ
  pub dpl : ℕ

-- `GATEDESC_t`.
pub record GateDesc : Type 0 where
  pub addr : ℕ
  pub access : ℕ
  pub flags : ℕ
  pub kind : ℕ
  pub dpl : ℕ
  pub present : ℕ
  pub param_count : ℕ
  pub target_selector : ℕ
  pub offset : ℕ

unfoldable pub selector_offset : ℕ → ℕ
selector_offset selector = bit_and selector 0xFFF8

unfoldable pub selector_error_code : ℕ → ℕ
selector_error_code selector = bit_and selector 0xFFFC

unfoldable pub normalize_selector : ℕ → ℕ → ℕ
normalize_selector selector rpl = bit_or (bit_and selector 0xFFFC) (bit_and rpl 3)

unfoldable pub desc_is_present : SegDesc → Bool
desc_is_present d = has d.access 0x80

unfoldable pub desc_is_system : SegDesc → Bool
desc_is_system d = bit_and d.access 0x10 == 0

unfoldable pub desc_is_code : SegDesc → Bool
desc_is_code d = bit_and d.access 0x18 == 0x18

unfoldable pub desc_is_conforming_code : SegDesc → Bool
unfolding desc_is_code
desc_is_conforming_code d = desc_is_code d && has d.access 0x04

unfoldable pub desc_is_readable_code : SegDesc → Bool
unfolding desc_is_code
desc_is_readable_code d = desc_is_code d && has d.access 0x02

unfoldable pub desc_is_writable_data : SegDesc → Bool
desc_is_writable_data d = bit_and d.access 0x18 == 0x10 && has d.access 0x02

unfoldable pub desc_type : SegDesc → ℕ
desc_type d = bit_and d.access 0x0F

unfoldable pub desc_is_call_gate : SegDesc → Bool
unfolding desc_is_system desc_type
desc_is_call_gate d = desc_is_system d && (desc_type d == 0x4 || desc_type d == 0xC)

unfoldable pub desc_is_task_gate : SegDesc → Bool
unfolding desc_is_system desc_type
desc_is_task_gate d = desc_is_system d && desc_type d == 0x5

unfoldable pub desc_is_tss : SegDesc → Bool
unfolding desc_is_system desc_type
desc_is_tss d = desc_is_system d && (desc_type d == 0x9 || desc_type d == 0xB)

unfoldable pub desc_is_busy_tss : SegDesc → Bool
unfolding desc_is_system desc_type
desc_is_busy_tss d = desc_is_system d && desc_type d == 0xB

unfoldable pub gate_is_32bit : ℕ → Bool
gate_is_32bit kind = kind == 0xC || kind == 0xE || kind == 0xF

module _ {S : Type 0} where
  unfoldable pub selector_table_base : Processor S → ℕ → ℕ
  selector_table_base p selector = if has selector 4 then p.ldtr else p.gdtr

  unfoldable pub selector_table_limit : Processor S → ℕ → ℕ
  selector_table_limit p selector = if has selector 4 then p.ldtl else p.gdtl

  -- `(uint8_t) cpu_read_sys(cpu, addr)` and its effect.
  unfoldable pub read_byte : Bus S → ℕ → Processor S → ℕ × Processor S
  read_byte b addr p = let (v, s) = b.read_sys (u32 addr) p.bus in (u8 v, record p { bus = s })

  unfoldable pub read_word : Bus S → ℕ → Processor S → ℕ × Processor S
  read_word b addr p = let (v, s) = b.readw_sys (u32 addr) p.bus in (u16 v, record p { bus = s })

  unfoldable pub read_long : Bus S → ℕ → Processor S → ℕ × Processor S
  read_long b addr p = let (v, s) = b.readl_sys (u32 addr) p.bus in (u32 v, record p { bus = s })

  unfoldable pub raise : Bus S → ℕ → ℕ → Processor S → Processor S
  raise b vector error p = record p { bus = b.exception vector error p.bus }

  unfoldable pub load_segdesc : Bus S → ℕ → Processor S → SegDesc × Processor S
  load_segdesc b addr p =
      let (access, q) = read_byte b (addr + 5) p in
      let (flags, r) = read_byte b (addr + 6) q in
      (record { addr = addr; access = access; flags = flags; dpl = bit_and (access >>> 5) 3 }, r)

  -- `none` for a selector beyond the limit of its table.
  unfoldable pub read_segdesc : Bus S → ℕ → Processor S → Option SegDesc × Processor S
  unfolding load_segdesc selector_offset selector_table_base selector_table_limit
  read_segdesc b selector p =
      if ltb (selector_table_limit p selector) (selector_offset selector + 7)
      then (none, p)
      else let (d, q) =
          load_segdesc b (u32 (selector_table_base p selector + selector_offset selector)) p in
        (some d, q)

  unfoldable pub load_gate_desc : Bus S → ℕ → ℕ → ℕ → Processor S → GateDesc × Processor S
  unfolding read_byte read_word gate_is_32bit
  load_gate_desc b addr access flags p =
      let (count, q) = read_byte b (addr + 4) p in
      let (target, r) = read_word b (addr + 2) q in
      let (low, t) = read_word b addr r in
      let (high, u) = read_word b (addr + 6) t in
      let kind = bit_and access 0x0F in
      let gate : GateDesc = record {
        addr = addr;
        access = access;
        flags = flags;
        kind = kind;
        dpl = bit_and (access >>> 5) 3;
        present = access >>> 7;
        param_count = bit_and count 0x1F;
        target_selector = target;
        offset = low;
      } in
      if gate_is_32bit kind
      then (record gate { offset = bit_or low (high <<< 16) }, u)
      else (gate, t)

  -- `none` for a vector beyond the limit of the table.
  unfoldable pub read_idt_gate : Bus S → ℕ → Processor S → Option GateDesc × Processor S
  unfolding read_byte load_gate_desc
  read_idt_gate b intnum p =
      let offset = intnum <<< 3 in
      let (access, q) = read_byte b (p.idtr + offset + 5) p in
      let (flags, r) = read_byte b (p.idtr + offset + 6) q in
      let (gate, t) = load_gate_desc b (u32 (p.idtr + offset)) access flags r in
      if ltb p.idtl (offset + 7) then (none, p) else (some gate, t)

-- The machine of src/memory.c as the bus of the processor.
unfoldable pub machine_bus : {D : Type 0} → Bus (Machine D)
machine_bus {D} = record {
  read_sys = cpu_read_sys;
  readw_sys = cpu_readw_sys;
  readl_sys = cpu_readl_sys;
  exception = λ vector error s. record s { cpu = exception vector error s.cpu };
}
