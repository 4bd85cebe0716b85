-- ===== src/Flash/Commands.antt =====
-- What the program and erase commands of src/chipset/intel_flash.c do to the bytes.
use pculator.Base.{
  ℕ, ◌%◌, ◌≡◌, refl, ap, ◌∙◌, inl, inr, Bool, true, false, not, ◌||◌, ◌==◌, ltb, if◌then◌else◌,
  Bool-cases, arith, update, update_self, bit_and_mask, ==_self,
}
use pculator.Flash.{
  Flash, block_boot, mask_addr, addr_in_block, program, accept_command, write, read,
  cmd_erase_setup, cmd_program_setup, cmd_program_setup_alt, cmd_read_status, cmd_read_array,
}
use pculator.Flash.Boot.{IsBxt, boot_lem}

-- A command may be given: the chip does not wait for the second write of an erasure or of a program.
unfoldable pub takes_command : Flash → Bool
takes_command f = not (
    f.command == cmd_erase_setup
    || f.command == cmd_program_setup
    || f.command == cmd_program_setup_alt)

mask_lem : (f : Flash) (addr : ℕ) → f.size ≡ 0x20000 → mask_addr f addr ≡ addr % 0x20000
unfolding mask_addr
mask_lem f addr e = rw e (bit_and_mask 17 addr)

setup_lem :
    (addr : ℕ) (f : Flash)
    → f.size ≡ 0x20000
    → takes_command f ≡ true
    → write addr cmd_program_setup f
      ≡ record f { command = cmd_program_setup; program_addr = addr % 0x20000 }
unfolding write accept_command takes_command
setup_lem addr f size ready =
    let idle : (f.command == cmd_erase_setup) ≡ false = ground (arith, ready) in
    let idle' : (f.command == cmd_program_setup || f.command == cmd_program_setup_alt) ≡ false =
      ground (arith, ready) in
    rw (idle, idle', mask_lem f addr size) refl

-- The second write, where the boot block has been looked at.
stored : ℕ → ℕ → Flash → ℕ → ℕ
stored at value f = if ltb at 0x1E000 then update f.array at value else f.array

byte_lem :
    (addr value : ℕ) (f : Flash)
    → IsBxt f
    → f.command ≡ cmd_program_setup
    → f.program_addr ≡ addr % 0x20000
    → write addr value f ≡ record f {
      array = stored (addr % 0x20000) value f;
      command = cmd_read_status;
      status = 0x80;
    }
unfolding write program stored addr_in_block
byte_lem addr value f l setup same =
    let at = addr % 0x20000 in
    let matched : (at == f.program_addr) ≡ true = rw same (==_self at) in
    let free : addr_in_block f block_boot at ≡ not (ltb at 0x1E000) =
      boot_lem f at l ∙ ground arith in
    rw (setup, mask_lem f addr l.size, matched, free)
      (elim (Bool-cases (ltb at 0x1E000)) [ inl e ↦ rw e refl | inr e ↦ rw e refl ])

-- The chip goes back to its array.
array_lem :
    (addr : ℕ) (f : Flash)
    → f.command ≡ cmd_read_status
    → write addr cmd_read_array f ≡ record f { command = cmd_read_array }
unfolding write accept_command
array_lem addr f e = rw e refl

-- Programming a byte: after the set-up command at an address and a byte at the same address, the chip
-- shows that it is ready, and once it is told to read its array, it holds the byte at the address,
-- unless that lies in the boot block, and every other byte is as before. The chip has the layout of
-- 128 KB and takes a command; an address counts modulo its size.
pub write-program :
    (addr value elsewhere : ℕ) (f : Flash)
    → IsBxt f
    → takes_command f ≡ true
    → let g = write addr value (write addr cmd_program_setup f) in
      let r = write elsewhere cmd_read_array g in
      let at = addr % 0x20000 in
      (read elsewhere g ≡ 0x80)
      × (r.array ≡ (if ltb at 0x1E000 then update f.array at value else f.array))
      × (read addr r ≡ (if ltb at 0x1E000 then value else f.array at))
unfolding stored read mask_addr
write-program addr value elsewhere f l ready =
    let at = addr % 0x20000 in
    let f' : Flash = record f { command = cmd_program_setup; program_addr = at } in
    let l' : IsBxt f' = record {
      size = l.size;
      block_start = l.block_start;
      block_end = l.block_end;
      block_len = l.block_len;
    } in
    let g : Flash = record f' {
      array = stored at value f;
      command = cmd_read_status;
      status = 0x80;
    } in
    let third : stored at value f (mask_addr f addr)
        ≡ (if ltb at 0x1E000 then value else f.array at) =
      ap (stored at value f) (mask_lem f addr l.size) ∙ elim (Bool-cases (ltb at 0x1E000)) [
        | inl e ↦ rw e (update_self f.array at value)
        | inr e ↦ rw e refl
      ] in
    rw (setup_lem addr f l.size ready) (
      rw (byte_lem addr value f' l' refl refl)
        (rw (array_lem elsewhere g refl) (refl, refl, third)))
