-- ===== src/Cpu/Segment/Registers/Load.antt =====
-- `putsegreg` of src/cpu/cpuhelper.h in protected mode: loading a segment register.
use pculator.Base.{ℕ, ◌≡◌, ◌≢◌, ◌⊎◌, true, some, ◌==◌, if◌then◌else◌, bit_and, update}
use pculator.Cpu.Segment.{
  Bus, Processor, SegDesc, regcs, regss, selector_offset, selector_error_code, desc_is_present,
  desc_is_code, desc_is_writable_data, read_segdesc, raise,
}
use pculator.Cpu.Segment.Registers.{null_seg}
use pculator.Cpu.Segment.Registers.Reading.{SameRegisters, IsOpen}

-- The descriptor `d` may be loaded into the register. That of a data segment is read a second time,
-- in the state that the first reading left.
pub record MayHold {S : Type 0} (b : Bus S) (reg selector : ℕ) (p : Processor S) (d : SegDesc)
    : Type 0 where
  pub present : desc_is_present d ≡ true
  pub code : reg ≡ regcs → desc_is_code d ≡ true
  pub writable : reg ≡ regss → desc_is_writable_data d ≡ true
  pub stack_level : reg ≡ regss → (bit_and selector 3 ≡ p.cpl) × (d.dpl ≡ p.cpl)
  pub usable :
      reg ≢ regcs
      → reg ≢ regss
      → (e : SegDesc) × ((read_segdesc b selector (read_segdesc b selector p).1).0 ≡ some e)
        × IsOpen p.cpl selector e

-- What becomes of a load.
pub data Loaded {S : Type 0} (b : Bus S) (reg selector : ℕ) (p r : Processor S) : Type 0 where
  emptied :
      selector_offset selector ≡ 0
      → reg ≢ regcs
      → reg ≢ regss
      → r ≡ null_seg reg p
      → Loaded b reg selector p r
  loaded :
      (d : SegDesc)
      → selector_offset selector ≢ 0
      → (read_segdesc b selector p).0 ≡ some d
      → MayHold b reg selector p d
      → r.segregs ≡ update p.segregs reg selector
      → r.cpl ≡ (if reg == regcs then bit_and selector 3 else p.cpl)
      → Loaded b reg selector p r
  load_fault :
      (vector error : ℕ) (q : Processor S)
      → (vector ≡ 13) ⊎ ((vector ≡ 11) ⊎ (vector ≡ 12))
      → (error ≡ 0) ⊎ (error ≡ selector_error_code selector)
      → r ≡ raise b vector error q
      → SameRegisters p q
      → Loaded b reg selector p r
