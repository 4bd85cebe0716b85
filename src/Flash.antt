-- ===== src/Flash.antt =====
-- src/chipset/intel_flash.c and intel_flash.h, the flash chip that holds the BIOS: its command state
-- machine and its blocks. The array of bytes is a function on addresses. A NULL pointer, `malloc`, the
-- file that is loaded, and the blocks that `intel_flash_init_bxt` leaves empty have no field of their
-- own: an empty block has the length 0.
pub mod Boot
pub mod Commands
use pculator.Base.{
  ℕ, zero, suc, ◌+◌, ◌-◌, Bool, true, false, not, ◌&&◌, ◌||◌, Option, none, some, ◌==◌, ltb, leb,
  if◌then◌else◌, update, bit_and, u8, has,
}

-- `INTEL_FLASH_t`.
pub record Flash : Type 0 where
  pub command : ℕ
  pub status : ℕ
  pub array : ℕ → ℕ
  pub flash_id : ℕ
  pub program_addr : ℕ
  pub size : ℕ
  pub block_start : ℕ → ℕ
  pub block_end : ℕ → ℕ
  pub block_len : ℕ → ℕ

abbrev pub block_main1 : ℕ
block_main1 = 0

abbrev pub block_data1 : ℕ
block_data1 = 4

abbrev pub block_data2 : ℕ
block_data2 = 5

abbrev pub block_boot : ℕ
block_boot = 6

abbrev pub block_count : ℕ
block_count = 7

abbrev pub cmd_read_array : ℕ
cmd_read_array = 0xFF

abbrev pub cmd_iid : ℕ
cmd_iid = 0x90

abbrev pub cmd_read_status : ℕ
cmd_read_status = 0x70

abbrev pub cmd_clear_status : ℕ
cmd_clear_status = 0x50

abbrev pub cmd_erase_setup : ℕ
cmd_erase_setup = 0x20

abbrev pub cmd_erase_confirm : ℕ
cmd_erase_confirm = 0xD0

abbrev pub cmd_program_setup : ℕ
cmd_program_setup = 0x40

abbrev pub cmd_program_setup_alt : ℕ
cmd_program_setup_alt = 0x10

unfoldable pub mask_addr : Flash → ℕ → ℕ
mask_addr f addr = if f.size == 0 then 0 else bit_and addr (f.size - 1)

unfoldable pub addr_in_block : Flash → ℕ → ℕ → Bool
addr_in_block f index addr =
    if leb block_count index
    then false
    else if f.block_len index == 0
    then false
    else leb (f.block_start index) addr && leb addr (f.block_end index)

unfoldable pub reset : Flash → Flash
reset f = record f { command = cmd_read_array; status = 0; program_addr = 0 }

-- The layout of the chip of 128 KB.
abbrev pub bxt : Flash
bxt = record {
  command = 0;
  status = 0;
  array = λ _. 0xFF;
  flash_id = 0x94;
  program_addr = 0;
  size = 0x20000;
  block_start =
      update
        (update (update (update (λ _. 0) block_main1 0x00000) block_data1 0x1C000) block_data2
          0x1D000)
        block_boot 0x1E000;
  block_end =
      update
        (update (update (update (λ _. 0) block_main1 0x1BFFF) block_data1 0x1CFFF) block_data2
          0x1DFFF)
        block_boot 0x1FFFF;
  block_len =
      update
        (update (update (update (λ _. 0) block_main1 0x1C000) block_data1 0x01000) block_data2
          0x01000)
        block_boot 0x02000;
}

-- `none` is the result -1 for a size that is not 128 KB.
unfoldable pub init_bxt : ℕ → Option Flash
unfolding reset
init_bxt size = if size == 0x20000 then some (reset bxt) else none

-- `none` is a file that cannot be opened; else its length and its bytes. A file that is too short is
-- read as far as it goes, and `false` is the result -1.
unfoldable pub load_file : Option (ℕ × (ℕ → ℕ)) → Flash → Bool × Flash
load_file none f = (false, f)
load_file (some (length, bytes)) f = (
  leb f.size length,
  record f { array = λ a. if ltb a f.size && ltb a length then bytes a else f.array a },
)

unfoldable pub read : ℕ → Flash → ℕ
unfolding mask_addr
read addr f =
    let masked = mask_addr f addr in
    if f.command == cmd_iid
    then (if has masked 1 then bit_and f.flash_id 0xFF else 0x89)
    else if f.command == cmd_read_status
    then f.status
    else f.array masked

-- `memset` of one block to 0xFF.
unfoldable pub fill_block : ℕ → Flash → Flash
fill_block i f = record f {
  array = λ a.
      if leb (f.block_start i) a && ltb a (f.block_start i + f.block_len i)
      then 0xFF
      else f.array a;
}

unfoldable pub erase_block : ℕ → ℕ → Flash → Flash
erase_block i addr f = if i == f.program_addr && addr_in_block f i addr then fill_block i f else f

-- The first `n` rounds of the loop over the blocks but the last.
unfoldable pub erase_blocks : ℕ → ℕ → Flash → Flash
erase_blocks zero addr f = f
erase_blocks (suc n) addr f = erase_block n addr (erase_blocks n addr f)

unfoldable pub confirm_erase : ℕ → ℕ → Flash → Flash
confirm_erase addr value f =
    let erased =
      if value == cmd_erase_confirm
      then record (erase_blocks (block_count - 1) addr f) { status = 0x80 }
      else f in
    record erased { command = cmd_read_status }

unfoldable pub program : ℕ → ℕ → Flash → Flash
program addr value f =
    let stored =
      if addr == f.program_addr && not (addr_in_block f block_boot addr)
      then record f { array = update f.array addr value }
      else f in
    record stored { command = cmd_read_status; status = 0x80 }

-- The index of the first block from `i` on that has the address, with `n` blocks left; the field stays
-- where there is none.
unfoldable pub select_block : ℕ → ℕ → ℕ → Flash → Flash
select_block zero i addr f = f
select_block (suc n) i addr f =
    let rest = select_block n (i + 1) addr f in
    if addr_in_block f i addr then record f { program_addr = i } else rest

unfoldable pub accept_command : ℕ → ℕ → Flash → Flash
accept_command addr value f =
    let g = record f { command = value } in
    if value == cmd_clear_status
    then record g { status = 0 }
    else if value == cmd_erase_setup
    then select_block block_count 0 addr g
    else if value == cmd_program_setup || value == cmd_program_setup_alt
    then record g { program_addr = addr }
    else g

unfoldable pub write : ℕ → ℕ → Flash → Flash
unfolding mask_addr
write addr value f =
    let masked = mask_addr f addr in
    if f.command == cmd_erase_setup
    then confirm_erase masked value f
    else if f.command == cmd_program_setup || f.command == cmd_program_setup_alt
    then program masked value f
    else accept_command masked value f
