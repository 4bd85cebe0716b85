-- ===== src/Tests/Segments.antt =====
-- Segment descriptors on a small descriptor table.
use pculator.Base.{
  ℕ, zero, suc, ◌+◌, ◌*◌, ◌≡◌, refl, none, some, ◌==◌, ◌>>>◌, if◌then◌else◌, bit_and,
}
use pculator.Cpu.Segment.{
  Bus, Processor, Eflags, SegDesc, selector_offset, read_segdesc, desc_is_code, read_byte,
  desc_is_present, desc_is_conforming_code,
}
use pculator.Cpu.Segment.Validate.{
  validate_return_cs, validate_gate_target_code, validate_direct_call_target, fetch_tss_stack,
  resolve_task_switch_target, and_then, code_verdict, return_target,
}
use pculator.Cpu.Segment.Validate.Verdicts.{Settled, IsProtection}
use pculator.Cpu.Segment.Validate.Return.{IsReturn, validate_return_cs_lem}
use pculator.Cpu.Segment.Validate.Targets.{
  IsEntry, IsCall, validate_gate_target_code_lem, validate_direct_call_target_lem,
}
use pculator.Cpu.Segment.Validate.Stack.{Fetched, fetch_tss_stack_lem}
use pculator.Cpu.Segment.Validate.Task.{Resolved, resolve_task_switch_target_lem}
use pculator.Cpu.Segment.Registers.{cleanup_outer_return_segments}
use pculator.Cpu.Segment.Registers.Cleanup.{OuterReturn, cleanup_outer_return_segments_lem}

-- A table at address 0: 8 is code and 16 a stack of level 0, 24 code and 32 data of level 3, 40 an
-- available task of level 0. Every segment has the base 0x12345678 and the limit 0xABCDE in pages.
abbrev access_of : ℕ → ℕ
access_of zero = 0
access_of (suc zero) = 0x9A
access_of (suc (suc zero)) = 0x92
access_of (suc (suc (suc zero))) = 0xFA
access_of (suc (suc (suc (suc zero)))) = 0xF2
access_of (suc (suc (suc (suc (suc _))))) = 0x89

abbrev mem : ℕ → ℕ
mem a =
    if bit_and a 7 == 0
    then 0xDE
    else if bit_and a 7 == 1
    then 0xBC
    else if bit_and a 7 == 2
    then 0x78
    else if bit_and a 7 == 3
    then 0x56
    else if bit_and a 7 == 4
    then 0x34
    else if bit_and a 7 == 5
    then access_of (a >>> 3)
    else if bit_and a 7 == 6
    then 0xCA
    else 0x12

-- The state is the last exception.
abbrev table : Bus ℕ
table = record {
  read_sys = λ a s. (mem a, s);
  readw_sys = λ a s. (mem a + mem (a + 1) * 256, s);
  readl_sys = λ a s. (mem a, s);
  exception = λ vector error s. vector;
}

abbrev quiet_flags : Eflags
quiet_flags = record {
  cf = 0;
  pf = 0;
  af = 0;
  zf = 0;
  sf = 0;
  tf = 0;
  ifl = 1;
  df = 0;
  of = 0;
  iopl = 0;
  nt = 0;
  rf = 1;
  v86f = 0;
  acf = 0;
  idf = 0;
}

abbrev at_level : ℕ → Processor ℕ
at_level cpl = record {
  bus = 0;
  gdtr = 0;
  gdtl = 47;
  ldtr = 0;
  ldtl = 0;
  idtr = 0;
  idtl = 0;
  trbase = 0;
  trlimit = 103;
  tr_selector = 40;
  cpl = cpl;
  protected_mode = 1;
  isoper32 = 1;
  eflags = quiet_flags;
  segregs = λ _. 16;
  segcache = λ _. 0;
  segis32 = λ _. 0;
  seglimit = λ _. 0;
}

validate_return_cs_lem_example :
    Settled table
      (IsReturn table 0x1B (at_level 0))
      IsProtection
      0x1B
      (validate_return_cs table 0x1B (at_level 0))
validate_return_cs_lem_example = validate_return_cs_lem table 0x1B (at_level 0)

validate_gate_target_code_lem_example :
    Settled table
      (IsEntry table 8 (at_level 3))
      IsProtection
      8
      (validate_gate_target_code table 8 (at_level 3))
validate_gate_target_code_lem_example = validate_gate_target_code_lem table 8 (at_level 3)

validate_direct_call_target_lem_example :
    Settled table
      (IsCall table 0x1B (at_level 3))
      IsProtection
      0x1B
      (validate_direct_call_target table 0x1B (at_level 3))
validate_direct_call_target_lem_example = validate_direct_call_target_lem table 0x1B (at_level 3)

fetch_tss_stack_lem_example : Fetched table 1 (at_level 3) (fetch_tss_stack table 1 (at_level 3))
fetch_tss_stack_lem_example = fetch_tss_stack_lem table 1 (at_level 3)

abbrev task_desc : SegDesc
task_desc = record { addr = 40; access = 0x89; flags = 0xCA; dpl = 0 }

resolve_task_switch_target_lem_example :
    Resolved table 40 task_desc
      (at_level 0)
      (resolve_task_switch_target table 40 task_desc (at_level 0))
resolve_task_switch_target_lem_example =
    resolve_task_switch_target_lem table 40 task_desc (at_level 0)

cleanup_outer_return_segments_lem_example :
    OuterReturn table 3 (at_level 3) (cleanup_outer_return_segments table 3 (at_level 3))
cleanup_outer_return_segments_lem_example = cleanup_outer_return_segments_lem table 3 (at_level 3)

-- A return to level 3 is marked as one to an outer level.
returned :
    (validate_return_cs table 0x1B (at_level 0)).0
    ≡ some (record { selector = 0x1B; target_cpl = 3; outer = 1 })
unfolding validate_return_cs selector_offset read_segdesc and_then code_verdict desc_is_code
    read_byte desc_is_present return_target desc_is_conforming_code
returned = refl

-- Code at level 3 returns to code of level 0.
no_gain : (validate_return_cs table 8 (at_level 3)).0 ≡ none
unfolding validate_return_cs selector_offset read_segdesc and_then code_verdict desc_is_code
    read_byte desc_is_present return_target desc_is_conforming_code
no_gain = refl
