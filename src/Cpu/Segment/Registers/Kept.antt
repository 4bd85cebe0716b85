-- ===== src/Cpu/Segment/Registers/Kept.antt =====
-- The flags that an `iret` of src/cpu/cpuhelper.h leaves as they were.
use pculator.Base.{ℕ}
use pculator.Cpu.Segment.{Processor, Eflags}
use pculator.Cpu.Segment.Registers.{makeflagsword, merged_flags, restore_iret_flags}

-- The word that the fields are taken from.
module _ (pm iso iopl cpl old new : ℕ) where
  abbrev merged : ℕ
  merged = merged_flags pm iso iopl cpl old new

module _ {S : Type 0} (new_eflags current_cpl target_cpl : ℕ) (p : Processor S) where
  -- The flags afterwards.
  abbrev after : Eflags
  after = (restore_iret_flags new_eflags current_cpl target_cpl p).eflags

  abbrev word : ℕ
  word =
      merged_flags p.protected_mode p.isoper32 p.eflags.iopl current_cpl (makeflagsword p.eflags)
        new_eflags
