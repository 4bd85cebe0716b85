-- ===== src/Cpu/Flags.antt =====
-- The status flags of src/cpu/cpuhelper.h, and the parity table of src/cpu/cpu.c.
pub mod Parity
pub mod Spec
pub mod Subtract
use pculator.Base.{
  ℕ, ◌+◌, ◌-◌, ◌*◌, ◌%◌, ◌^◌, List, [], ◌∷◌, Bool, ◌==◌, if◌then◌else◌, get_or, bit_and, bit_xor,
  has, ◌<<<◌,
}

pub data Width : Type 0 where
  byte word dword : Width

abbrev pub bits : Width → ℕ
bits byte = 8
bits word = 16
bits dword = 32

-- The flags that arithmetic sets, each 0 or 1.
pub record Flags : Type 0 where
  pub zf : ℕ
  pub sf : ℕ
  pub pf : ℕ
  pub cf : ℕ
  pub of : ℕ
  pub af : ℕ

abbrev pub flag : Bool → ℕ
flag b = if b then 1 else 0

unfoldable pub parity_table : List ℕ
parity_table =
    1 ∷ 0 ∷ 0 ∷ 1 ∷ 0 ∷ 1 ∷ 1 ∷ 0 ∷ 0 ∷ 1 ∷ 1 ∷ 0 ∷ 1 ∷ 0 ∷ 0 ∷ 1 ∷ 0 ∷ 1 ∷ 1 ∷ 0 ∷ 1 ∷ 0 ∷ 0 ∷ 1
    ∷ 1 ∷ 0 ∷ 0 ∷ 1 ∷ 0 ∷ 1 ∷ 1 ∷ 0 ∷ 0 ∷ 1 ∷ 1 ∷ 0 ∷ 1 ∷ 0 ∷ 0 ∷ 1 ∷ 1 ∷ 0 ∷ 0 ∷ 1 ∷ 0 ∷ 1 ∷ 1 ∷ 0
    ∷ 1 ∷ 0 ∷ 0 ∷ 1 ∷ 0 ∷ 1 ∷ 1 ∷ 0 ∷ 0 ∷ 1 ∷ 1 ∷ 0 ∷ 1 ∷ 0 ∷ 0 ∷ 1 ∷ 0 ∷ 1 ∷ 1 ∷ 0 ∷ 1 ∷ 0 ∷ 0 ∷ 1
    ∷ 1 ∷ 0 ∷ 0 ∷ 1 ∷ 0 ∷ 1 ∷ 1 ∷ 0 ∷ 1 ∷ 0 ∷ 0 ∷ 1 ∷ 0 ∷ 1 ∷ 1 ∷ 0 ∷ 0 ∷ 1 ∷ 1 ∷ 0 ∷ 1 ∷ 0 ∷ 0 ∷ 1
    ∷ 1 ∷ 0 ∷ 0 ∷ 1 ∷ 0 ∷ 1 ∷ 1 ∷ 0 ∷ 0 ∷ 1 ∷ 1 ∷ 0 ∷ 1 ∷ 0 ∷ 0 ∷ 1 ∷ 0 ∷ 1 ∷ 1 ∷ 0 ∷ 1 ∷ 0 ∷ 0 ∷ 1
    ∷ 1 ∷ 0 ∷ 0 ∷ 1 ∷ 0 ∷ 1 ∷ 1 ∷ 0 ∷ 0 ∷ 1 ∷ 1 ∷ 0 ∷ 1 ∷ 0 ∷ 0 ∷ 1 ∷ 1 ∷ 0 ∷ 0 ∷ 1 ∷ 0 ∷ 1 ∷ 1 ∷ 0
    ∷ 1 ∷ 0 ∷ 0 ∷ 1 ∷ 0 ∷ 1 ∷ 1 ∷ 0 ∷ 0 ∷ 1 ∷ 1 ∷ 0 ∷ 1 ∷ 0 ∷ 0 ∷ 1 ∷ 1 ∷ 0 ∷ 0 ∷ 1 ∷ 0 ∷ 1 ∷ 1 ∷ 0
    ∷ 0 ∷ 1 ∷ 1 ∷ 0 ∷ 1 ∷ 0 ∷ 0 ∷ 1 ∷ 0 ∷ 1 ∷ 1 ∷ 0 ∷ 1 ∷ 0 ∷ 0 ∷ 1 ∷ 1 ∷ 0 ∷ 0 ∷ 1 ∷ 0 ∷ 1 ∷ 1 ∷ 0
    ∷ 1 ∷ 0 ∷ 0 ∷ 1 ∷ 0 ∷ 1 ∷ 1 ∷ 0 ∷ 0 ∷ 1 ∷ 1 ∷ 0 ∷ 1 ∷ 0 ∷ 0 ∷ 1 ∷ 0 ∷ 1 ∷ 1 ∷ 0 ∷ 1 ∷ 0 ∷ 0 ∷ 1
    ∷ 1 ∷ 0 ∷ 0 ∷ 1 ∷ 0 ∷ 1 ∷ 1 ∷ 0 ∷ 0 ∷ 1 ∷ 1 ∷ 0 ∷ 1 ∷ 0 ∷ 0 ∷ 1 ∷ 1 ∷ 0 ∷ 0 ∷ 1 ∷ 0 ∷ 1 ∷ 1 ∷ 0
    ∷ 1 ∷ 0 ∷ 0 ∷ 1 ∷ 0 ∷ 1 ∷ 1 ∷ 0 ∷ 0 ∷ 1 ∷ 1 ∷ 0 ∷ 1 ∷ 0 ∷ 0 ∷ 1 ∷ []

-- `parity[value]`, at an index below 256.
unfoldable pub parity : ℕ → ℕ
unfolding parity_table
parity value = get_or parity_table value 0

-- A cast to the width.
abbrev pub cast : Width → ℕ → ℕ
cast w n = n % 2 ^ bits w

-- The type that `dst` is computed in has twice the width.
abbrev pub double_width : Width → ℕ
double_width w = 2 ^ (2 * bits w)

-- 0x80, 0x8000 and 0x80000000.
abbrev pub sign : Width → ℕ
sign w = 2 ^ (bits w - 1)

-- 0xFF00, 0xFFFF0000 and 0xFFFFFFFF00000000.
abbrev pub high : Width → ℕ
high w = (2 ^ bits w - 1) * 2 ^ bits w

-- flag_szp8, flag_szp16, flag_szp32. For a byte the code leaves out the `& 255`.
unfoldable pub flag_szp : Width → ℕ → Flags → Flags
flag_szp w value f = record f {
  zf = flag (value == 0);
  sf = flag (has value (sign w));
  pf = parity (bit_and value 255);
}

-- flag_log8, flag_log16, flag_log32.
unfoldable pub flag_log : Width → ℕ → Flags → Flags
flag_log w value f = record (flag_szp w value f) { cf = 0; of = 0 }

-- flag_adc8, flag_adc16, flag_adc32.
unfoldable pub flag_adc : Width → ℕ → ℕ → ℕ → Flags → Flags
flag_adc w v1 v2 v3 f =
    let dst = (v1 + v2 + v3) % double_width w in
    record (flag_szp w (cast w dst) f) {
      of = flag (bit_and (bit_and (bit_xor dst v1) (bit_xor dst v2)) (sign w) == sign w);
      cf = flag (has dst (high w));
      af = flag (bit_and (bit_xor (bit_xor v1 v2) dst) 0x10 == 0x10);
    }

-- flag_add8, flag_add16, flag_add32.
unfoldable pub flag_add : Width → ℕ → ℕ → Flags → Flags
flag_add w v1 v2 f =
    let dst = (v1 + v2) % double_width w in
    record (flag_szp w (cast w dst) f) {
      cf = flag (has dst (high w));
      of = flag (bit_and (bit_and (bit_xor dst v1) (bit_xor dst v2)) (sign w) == sign w);
      af = flag (bit_and (bit_xor (bit_xor v1 v2) dst) 0x10 == 0x10);
    }

-- flag_sbb8, flag_sbb16, flag_sbb32.
unfoldable pub flag_sbb : Width → ℕ → ℕ → ℕ → Flags → Flags
flag_sbb w v1 v2 v3 f =
    let src_with_cf = (v2 + v3) % double_width w in
    let dst = (v1 + double_width w - src_with_cf) % double_width w in
    record (flag_szp w (cast w dst) f) {
      cf = flag (has dst (high w));
      of = flag (has (bit_and (bit_xor dst v1) (bit_xor v1 v2)) (sign w));
      af = flag (has (bit_xor (bit_xor v1 v2) dst) 0x10);
    }

-- flag_sub8, flag_sub16, flag_sub32.
unfoldable pub flag_sub : Width → ℕ → ℕ → Flags → Flags
flag_sub w v1 v2 f =
    let dst = (v1 + double_width w - v2) % double_width w in
    record (flag_szp w (cast w dst) f) {
      cf = flag (has dst (high w));
      of = flag (has (bit_and (bit_xor dst v1) (bit_xor v1 v2)) (sign w));
      af = flag (has (bit_xor (bit_xor v1 v2) dst) 0x10);
    }
