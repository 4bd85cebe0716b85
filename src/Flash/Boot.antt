-- ===== src/Flash/Boot.antt =====
-- The boot block of the chip of src/chipset/intel_flash.c.
use pculator.Base.{
  ℕ, zero, suc, ◌+◌, ◌≡◌, ◌≤◌, ◌<◌, refl, sym, ◌∙◌, inl, inr, subst, false, not, ◌&&◌, ◌||◌, List,
  [], ◌∷◌, ◌==◌, leb, ltb, Bool-cases, choose, arith, update_ne,
}
use pculator.Flash.{
  Flash, bxt, block_boot, block_count, mask_addr, addr_in_block, fill_block, erase_block,
  erase_blocks, confirm_erase, program, select_block, accept_command, write, cmd_erase_confirm,
  cmd_erase_setup, cmd_clear_status, cmd_program_setup, cmd_program_setup_alt,
}

-- The chip has the layout of `intel_flash_init_bxt`.
pub record IsBxt (f : Flash) : Type 0 where
  pub size : f.size ≡ 0x20000
  pub block_start : f.block_start ≡ bxt.block_start
  pub block_end : f.block_end ≡ bxt.block_end
  pub block_len : f.block_len ≡ bxt.block_len

-- The layout does not depend on the other fields.
relaid :
    (f : Flash) (command status program_addr : ℕ) (array : ℕ → ℕ)
    → IsBxt f
    → IsBxt (record f {
      command = command;
      status = status;
      program_addr = program_addr;
      array = array;
    })
relaid f command status program_addr array l = record {
  size = l.size;
  block_start = l.block_start;
  block_end = l.block_end;
  block_len = l.block_len;
}

-- A block that may be erased ends below the boot block.
below : (i : ℕ) → i < 6 → bxt.block_start i + bxt.block_len i ≤ 0x1E000
below zero h = omega arith
below (suc zero) h = omega arith
below (suc (suc zero)) h = omega arith
below (suc (suc (suc zero))) h = omega arith
below (suc (suc (suc (suc zero)))) h = omega arith
below (suc (suc (suc (suc (suc zero))))) h = omega arith
below (suc (suc (suc (suc (suc (suc i)))))) h = absurd (omega arith)

pub boot_lem :
    (f : Flash) (addr : ℕ)
    → IsBxt f
    → addr_in_block f block_boot addr ≡ (leb 0x1E000 addr && leb addr 0x1FFFF)
unfolding addr_in_block
boot_lem f addr l = rw (l.block_len, l.block_start, l.block_end) refl

module _ (a : ℕ) (boot : 0x1E000 ≤ a) (inside : a < 0x20000) where
  -- The byte at `a`, and the layout, are as they were.
  record Kept (f g : Flash) : Type 0 where
    byte : g.array a ≡ f.array a
    layout : IsBxt g

  fill_block-Kept : (i : ℕ) (f : Flash) → i < 6 → IsBxt f → Kept f (fill_block i f)
  unfolding fill_block
  fill_block-Kept i f h l =
      let end : f.block_start i + f.block_len i ≤ 0x1E000 =
        subst (λ (s : ℕ → ℕ). s i + f.block_len i ≤ 0x1E000) (sym l.block_start)
          (subst (λ (s : ℕ → ℕ). bxt.block_start i + s i ≤ 0x1E000) (sym l.block_len)
            (below i h)) in
      let out : (leb (f.block_start i) a && ltb a (f.block_start i + f.block_len i)) ≡ false =
        ground (arith, end, boot) in
      record { byte = rw out refl; layout = relaid f _ _ _ _ l }

  Kept-self : (f : Flash) → IsBxt f → Kept f f
  Kept-self f l = record { byte = refl; layout = l }

  erase_blocks-Kept : (n addr : ℕ) (f : Flash) → n ≤ 6 → IsBxt f → Kept f (erase_blocks n addr f)
  unfolding erase_blocks erase_block
  erase_blocks-Kept zero addr f h l = Kept-self f l
  erase_blocks-Kept (suc n) addr f h l =
      let before = erase_blocks-Kept n addr f (omega (arith, h)) l in
      let g = erase_blocks n addr f in
      let filled = fill_block-Kept n g (omega (arith, h)) before.layout in
      choose (Kept f) (n == g.program_addr && addr_in_block g n addr) (fill_block n g) g
        (record { byte = filled.byte ∙ before.byte; layout = filled.layout }) before

  confirm_erase-Kept : (addr value : ℕ) (f : Flash) → IsBxt f → Kept f (confirm_erase addr value f)
  unfolding confirm_erase
  confirm_erase-Kept addr value f l =
      let erased = erase_blocks-Kept 6 addr f (omega arith) l in
      elim (Bool-cases (value == cmd_erase_confirm)) [
        | inl e ↦ rw e (record { byte = erased.byte; layout = relaid _ _ _ _ _ erased.layout })
        | inr e ↦ rw e (record { byte = refl; layout = relaid f _ _ _ _ l })
      ]

  program-Kept : (addr value : ℕ) (f : Flash) → IsBxt f → Kept f (program addr value f)
  unfolding program
  program-Kept addr value f l =
      elim (Bool-cases (addr == f.program_addr && not (addr_in_block f block_boot addr))) [
        | inl e ↦ rw e (record {
          byte =
              update_ne f.array addr a value
                (λ same. absurd (ground (arith, e, same, boot, inside, boot_lem f addr l)));
          layout = relaid f _ _ _ _ l;
        })
        | inr e ↦ rw e (record { byte = refl; layout = relaid f _ _ _ _ l })
      ]

  select_block-Kept : (n i addr : ℕ) (f : Flash) → IsBxt f → Kept f (select_block n i addr f)
  unfolding select_block
  select_block-Kept zero i addr f l = Kept-self f l
  select_block-Kept (suc n) i addr f l =
      choose (Kept f) (addr_in_block f i addr) _ _
        (record { byte = refl; layout = relaid f _ _ _ _ l }) (select_block-Kept n (i + 1) addr f l)

  write-Kept : (addr value : ℕ) (f : Flash) → IsBxt f → Kept f (write addr value f)
  unfolding write accept_command
  write-Kept addr value f l =
      let masked = mask_addr f addr in
      let g : Flash = record f { command = value } in
      let plain : Kept f g = record { byte = refl; layout = relaid f _ _ _ _ l } in
      let chosen = select_block-Kept block_count 0 masked g plain.layout in
      choose (Kept f) (f.command == cmd_erase_setup) _ _ (confirm_erase-Kept masked value f l) (
        choose (Kept f) (f.command == cmd_program_setup || f.command == cmd_program_setup_alt) _ _
          (program-Kept masked value f l)
          (choose (Kept f) (value == cmd_clear_status) _ _
            (record { byte = refl; layout = relaid f _ _ _ _ l })
            (choose (Kept f) (value == cmd_erase_setup) _ _
              (record { byte = chosen.byte; layout = chosen.layout })
              (choose (Kept f) (value == cmd_program_setup || value == cmd_program_setup_alt) _ _
                (record { byte = refl; layout = relaid f _ _ _ _ l }) plain))))

-- A sequence of writes, each an address and a value.
pub writes : List (ℕ × ℕ) → Flash → Flash
writes [] f = f
writes ((addr, value) ∷ es) f = writes es (write addr value f)

-- No sequence of writes changes the boot block: whatever commands are given, in whatever order and at
-- whatever addresses, a byte from 0x1E000 to 0x1FFFF of a chip of 128 KB is what it was.
pub writes-boot :
    (es : List (ℕ × ℕ)) (f : Flash) (a : ℕ)
    → IsBxt f
    → 0x1E000 ≤ a
    → a < 0x20000
    → (writes es f).array a ≡ f.array a
unfolding writes
writes-boot [] f a l boot inside = refl
writes-boot ((addr, value) ∷ es) f a l boot inside =
    let one = write-Kept a boot inside addr value f l in
    writes-boot es (write addr value f) a one.layout boot inside ∙ one.byte
