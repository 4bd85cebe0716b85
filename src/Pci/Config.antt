-- ===== src/Pci/Config.antt =====
-- The configuration ports 0xCF8-0xCFF of src/pci.c.
use pculator.Base.{
  ℕ, ◌+◌, ◌-◌, Bool, not, ◌&&◌, ◌||◌, Option, none, some, ◌==◌, ◌!=◌, ltb, leb, if◌then◌else◌,
  bit_and, bit_or, u8, u16, not32, ◌<<<◌, ◌>>>◌,
}
use pculator.Pci.{Function, Pci, Sys, max_slots, max_functions}

-- The fields of the configuration address.
abbrev pub address_bus : ℕ → ℕ
address_bus address = bit_and (address >>> 16) 0xFF

abbrev pub address_slot : ℕ → ℕ
address_slot address = bit_and (address >>> 11) 0x1F

abbrev pub address_function : ℕ → ℕ
address_function address = bit_and (address >>> 8) 0x07

-- `(uint8_t) ((config_address & 0xFC) + reg_offset)`
abbrev pub register_address : ℕ → ℕ → ℕ
register_address address reg_offset = u8 (bit_and address 0xFC + reg_offset)

-- `(uint8_t) (port - 0x0CF8)`
abbrev pub port_offset : ℕ → ℕ
port_offset port = u8 (port + 65536 - 0x0CF8)

-- `(address & ~(0xFF << shift)) | (value << shift)`
unfoldable pub set_byte : ℕ → ℕ → ℕ → ℕ
set_byte address shift value = bit_or (bit_and address (not32 (0xFF <<< shift))) (value <<< shift)

module _ {D : Type 0} where
  unfoldable pub config_enabled : Pci D → Bool
  config_enabled p = p.config_type == 1 && bit_and p.config_address 0x80000000 != 0

  unfoldable pub current_function : Pci D → Option (Function D)
  current_function p =
      let slot = address_slot p.config_address in
      let function = address_function p.config_address in
      if not (config_enabled p)
      then none
      else if address_bus p.config_address != 0
          || (leb max_slots slot || leb max_functions function)
      then none
      else if (p.slot slot).present == 0
      then none
      else if ((p.slot slot).function function).present == 0
      then none
      else some ((p.slot slot).function function)

  call_read : Option (D → ℕ → ℕ → ℕ × D) → ℕ → ℕ → D → ℕ × D
  call_read none function addr d = (0xFF, d)
  call_read (some f) function addr d = f d function addr

  call_write : Option (D → ℕ → ℕ → ℕ → D) → ℕ → ℕ → ℕ → D → D
  call_write none function addr value d = d
  call_write (some f) function addr value d = f d function addr value

  unfoldable pub read_config_byte : ℕ → Sys D → ℕ × Sys D
  unfolding call_read
  read_config_byte reg_offset s =
      let address = s.pci.config_address in
      elim (current_function s.pci) [
        | none ↦ (0xFF, s)
        | some f ↦
            let (value, d) =
              call_read f.read (address_function address) (register_address address reg_offset)
                s.dev in
            (value, record s { dev = d })
      ]

  unfoldable pub write_config_byte : ℕ → ℕ → Sys D → Sys D
  unfolding call_write
  write_config_byte reg_offset value s =
      let address = s.pci.config_address in
      elim (current_function s.pci) [
        | none ↦ s
        | some f ↦ record s {
          dev =
              call_write f.write (address_function address) (register_address address reg_offset)
                value s.dev;
        }
      ]

  unfoldable pub port_readb : ℕ → Sys D → ℕ × Sys D
  port_readb port s =
      let offset = port_offset port in
      if ltb offset 4
      then (bit_and (s.pci.config_address >>> (offset <<< 3)) 0xFF, s)
      else if ltb offset 8
      then read_config_byte (offset - 4) s
      else (0xFF, s)

  unfoldable pub port_writeb : ℕ → ℕ → Sys D → Sys D
  port_writeb port value s =
      let offset = port_offset port in
      if ltb offset 4
      then record s {
        pci = record s.pci { config_address = set_byte s.pci.config_address (offset <<< 3) value };
      }
      else if ltb offset 8
      then write_config_byte (offset - 4) value s
      else s

  unfoldable pub port_readw : ℕ → Sys D → ℕ × Sys D
  port_readw port s =
      let (lo, s') = port_readb port s in
      let (hi, s'') = port_readb (u16 (port + 1)) s' in (bit_or lo (hi <<< 8), s'')

  unfoldable pub port_writew : ℕ → ℕ → Sys D → Sys D
  port_writew port value s =
      port_writeb (u16 (port + 1)) (u8 (value >>> 8)) (port_writeb port (u8 value) s)

  -- C leaves the order of the four calls open; they are taken from left to right.
  unfoldable pub read_config_dword : Sys D → ℕ × Sys D
  read_config_dword s =
      let (b0, s0) = read_config_byte 0 s in
      let (b1, s1) = read_config_byte 1 s0 in
      let (b2, s2) = read_config_byte 2 s1 in
      let (b3, s3) = read_config_byte 3 s2 in
      (bit_or (bit_or (bit_or b0 (b1 <<< 8)) (b2 <<< 16)) (b3 <<< 24), s3)

  unfoldable pub read_two_words : ℕ → Sys D → ℕ × Sys D
  read_two_words port s =
      let (lo, s') = port_readw port s in
      let (hi, s'') = port_readw (u16 (port + 2)) s' in (bit_or lo (hi <<< 16), s'')

  unfoldable pub port_readl : ℕ → Sys D → ℕ × Sys D
  port_readl port s =
      if port == 0x0CF8
      then (s.pci.config_address, s)
      else (if port == 0x0CFC then read_config_dword s else read_two_words port s)

  unfoldable pub port_writel : ℕ → ℕ → Sys D → Sys D
  port_writel port value s =
      if port == 0x0CF8
      then record s { pci = record s.pci { config_address = value } }
      else port_writeb (u16 (port + 3)) (u8 (value >>> 24)) (
          port_writeb (u16 (port + 2)) (u8 (value >>> 16))
            (port_writeb (u16 (port + 1)) (u8 (value >>> 8)) (port_writeb port (u8 value) s)))
