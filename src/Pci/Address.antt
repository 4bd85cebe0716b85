-- ===== src/Pci/Address.antt =====
-- The bytes of the configuration address register of src/pci.c, at ports 0xCF8 to 0xCFB.
use pculator.Base.{
  ℕ, ◌+◌, ◌-◌, ◌*◌, ◌%◌, ◌^◌, ◌<◌, ◌≡◌, sym, ap, ◌∙◌, true, false, not, ◌&&◌, ◌||◌, ◌==◌, ltb, leb,
  if◌then◌else◌, arith, bit, bit_and, bit-bit_and, bit-bit_or, bit-mod_pow, bit-zero,
  bit-complement, bit-byte_high, byte_ext, bit_and_mask, not32, ◌<<<◌, ◌>>>◌, bit-shift_right,
  bit-shift_left, inl, inr, Bool-cases,
}
use pculator.Pci.{Sys}
use pculator.Pci.Config.{port_offset, set_byte, port_readb, port_writeb}

byte_mask : (j : ℕ) → bit 0xFF j ≡ ltb j 8
byte_mask j = bit-complement 8 0 j (omega arith) ∙ ground (arith, bit-zero j)

-- `~(0xFF << m)` within 32 bits.
bit-window : (m i : ℕ) → i < 32 → bit (not32 (0xFF <<< m)) i ≡ not (leb m i && ltb (i - m) 8)
bit-window m i h =
    bit-complement 32 ((0xFF <<< m) % 2 ^ 32) i (omega arith)
    ∙ ground (arith, bit-mod_pow 32 (0xFF <<< m) i, bit-shift_left 0xFF m i, byte_mask (i - m))

bit-set_byte :
    (address m value i : ℕ)
    → i < 32
    → bit (set_byte address m value) i
      ≡ (bit address i && not (leb m i && ltb (i - m) 8) || leb m i && bit value (i - m))
unfolding set_byte
bit-set_byte address m value i h = ground (
  arith,
  bit-bit_or (bit_and address (not32 (0xFF <<< m))) (value <<< m) i,
  bit-bit_and address (not32 (0xFF <<< m)) i,
  bit-window m i h,
  bit-shift_left value m i,
)

-- Byte `j` of the register.
byte_of : ℕ → ℕ → ℕ
byte_of address j = bit_and (address >>> (j <<< 3)) 0xFF

bit-byte_of : (address j i : ℕ) → i < 8 → bit (byte_of address j) i ≡ bit address (j * 8 + i)
unfolding byte_of
bit-byte_of address j i h = ground (
  arith,
  bit-bit_and (address >>> (j <<< 3)) 0xFF i,
  byte_mask i,
  bit-shift_right address (j <<< 3) i,
)

byte_of-lt : (address j : ℕ) → byte_of address j < 256
unfolding byte_of
byte_of-lt address j = omega (arith, bit_and_mask 8 (address >>> (j <<< 3)))

own_bit :
    (address k j value i : ℕ)
    → (j == k) ≡ true
    → i < 8
    → (bit address (j * 8 + i) && not (leb (k <<< 3) (j * 8 + i) && ltb (j * 8 + i - (k <<< 3)) 8)
        || leb (k <<< 3) (j * 8 + i) && bit value (j * 8 + i - (k <<< 3)))
      ≡ bit value i
own_bit address k j value i e h = ground (arith, ap (bit value) same)
  where
    same : j * 8 + i - k * 8 ≡ i
    same = ground arith

other_bit :
    (address k j value i : ℕ)
    → (j == k) ≡ false
    → i < 8
    → value < 256
    → (bit address (j * 8 + i) && not (leb (k <<< 3) (j * 8 + i) && ltb (j * 8 + i - (k <<< 3)) 8)
        || leb (k <<< 3) (j * 8 + i) && bit value (j * 8 + i - (k <<< 3)))
      ≡ bit address (j * 8 + i)
other_bit address k j value i e h r = elim (Bool-cases (ltb (j * 8 + i - (k <<< 3)) 8)) [
  | inl near ↦ ground arith
  | inr far ↦ ground (arith, bit-byte_high value (j * 8 + i - (k <<< 3)) r far)
]

byte_of-set_byte :
    (address k j value : ℕ)
    → k < 4
    → j < 4
    → value < 256
    → byte_of (set_byte address (k <<< 3) value) j ≡ (if j == k then value else byte_of address j)
byte_of-set_byte address k j value p q r = elim (Bool-cases (j == k)) [
  | inl e ↦ rw e (
      byte_ext _ value (byte_of-lt (set_byte address (k <<< 3) value) j) r (λ i h.
        bit-byte_of (set_byte address (k <<< 3) value) j i h
        ∙ bit-set_byte address (k <<< 3) value (j * 8 + i) (omega arith)
        ∙ own_bit address k j value i e h))
  | inr e ↦ rw e (
      byte_ext _ _ (byte_of-lt (set_byte address (k <<< 3) value) j) (byte_of-lt address j) (λ i h.
        bit-byte_of (set_byte address (k <<< 3) value) j i h
        ∙ bit-set_byte address (k <<< 3) value (j * 8 + i) (omega arith)
        ∙ other_bit address k j value i e h r
        ∙ sym (bit-byte_of address j i h)))
]

within : (j : ℕ) → j < 4 → ltb j 4 ≡ true
within j h = ground arith

offset : (j : ℕ) → j < 4 → port_offset (0x0CF8 + j) ≡ j
offset j h = omega arith

module _ {D : Type 0} where
  -- A byte written to one of the four ports of the address register is what that port reads next, and
  -- the other three read as before.
  pub port_readb-port_writeb :
      (k j value : ℕ) (s : Sys D)
      → k < 4
      → j < 4
      → value < 256
      → (port_readb (0x0CF8 + j) (port_writeb (0x0CF8 + k) value s)).0
        ≡ (if j == k then value else (port_readb (0x0CF8 + j) s).0)
  unfolding port_readb port_writeb byte_of
  port_readb-port_writeb k j value s p q r =
      rw (offset k p, offset j q, within k p, within j q)
        (byte_of-set_byte s.pci.config_address k j value p q r)
