-- ===== src/Pit/Program.antt =====
-- Programming a counter of src/chipset/i8253.c, and reading it back.
use pculator.Base.{
  ℕ, ◌+◌, ◌*◌, ◌≡◌, ◌<◌, refl, ap, ◌∙◌, inl, inr, false, ◌==◌, ◌||◌, if◌then◌else◌, Bool-cases,
  bit_and, bit_or, u8, u16, ◌<<<◌, ◌>>>◌, arith, update, update_self, two_bytes, bit_and_mask,
  ==_self,
}
use pculator.Pit.{I8253, load_counter, set_out, load, flip, write_data, write_control, write, read}

port_of : (c : ℕ) → c < 3 → bit_and c 3 ≡ c
port_of c h = bit_and_mask 2 c ∙ omega (arith, h)

-- A counter that takes its low byte first, and which byte is next.
record Expects (t : I8253) (c next : ℕ) : Type 0 where
  both : t.rlmode c ≡ 3
  turn : t.dataflipflop c ≡ next

set_out-counter :
    (c : ℕ) (t : I8253)
    → ((set_out c t).counter ≡ t.counter)
      × ((set_out c t).active ≡ t.active)
      × ((set_out c t).rlmode ≡ t.rlmode)
      × ((set_out c t).dataflipflop ≡ t.dataflipflop)
unfolding set_out
set_out-counter c t = elim (Bool-cases (t.mode c == 0 || t.mode c == 1)) [
  | inl e ↦ rw e (refl, refl, refl, refl)
  | inr e ↦ rw e (elim (Bool-cases (t.mode c == 2 || t.mode c == 3)) [
    | inl f ↦ rw f (refl, refl, refl, refl)
    | inr f ↦ rw f (refl, refl, refl, refl)
  ])
]

-- The count that a load of `n` gives: 0 stands for 65536.
unfoldable pub count_of : ℕ → ℕ
count_of n = if n == 0 then 65536 else n

load_lem :
    (c n : ℕ) (t : I8253)
    → ((load c n t).counter c ≡ count_of n)
      × ((load c n t).active c ≡ 1)
      × ((load c n t).rlmode ≡ t.rlmode)
unfolding load load_counter count_of
load_lem c n t =
    let loaded : I8253 = load_counter c (record t { reload = update t.reload c n }) in
    let (counts, actives, modes, flips) = set_out-counter c loaded in
    let set : update t.reload c n c ≡ n = update_self t.reload c n in
    (
      ap (λ (f : ℕ → ℕ). f c) counts ∙ rw (==_self c) refl,
      ap (λ (f : ℕ → ℕ). f c) actives ∙ update_self t.active c 1,
      modes,
    )

module _ (c : ℕ) (known : c < 3) where
  control_lem :
      (control : ℕ) (t : I8253)
      → control >>> 6 ≡ c
      → bit_and (control >>> 4) 3 ≡ 3
      → Expects (write 3 control t) c 0
  unfolding write write_control
  control_lem control t e f =
      let legal : (c == 3) ≡ false = ground (arith, known) in
      rw (e, f, legal)
        (record { both = update_self t.rlmode c 3; turn = update_self t.dataflipflop c 0 })

  low_lem :
      (low : ℕ) (t : I8253)
      → Expects t c 0
      → Expects (write c low t) c 1
        × ((write c low t).reload c ≡ bit_or (bit_and (t.reload c) 0xFF00) low)
  unfolding write write_data flip
  low_lem low t h =
      let legal : (c == 3) ≡ false = ground (arith, known) in
      rw (port_of c known, legal, h.both, h.turn)
        (
          (record { both = h.both; turn = update_self t.dataflipflop c _ }),
          update_self t.reload c _,
        )

  high_lem :
      (high n : ℕ) (t : I8253)
      → Expects t c 1
      → bit_or (bit_and (t.reload c) 0x00FF) (high <<< 8) ≡ n
      → ((write c high t).counter c ≡ count_of n)
        × ((write c high t).active c ≡ 1)
        × ((write c high t).rlmode c ≡ 3)
  unfolding write write_data flip
  high_lem high n t h e =
      let legal : (c == 3) ≡ false = ground (arith, known) in
      let (counted, on, modes) = load_lem c n t in
      rw (port_of c known, legal, h.both, h.turn, e)
        (counted, on, ap (λ (f : ℕ → ℕ). f c) modes ∙ h.both)

  latch_lem :
      (t : I8253)
      → let r = write 3 (c <<< 6) t in
        (r.latch c ≡ u16 (t.counter c))
        × (r.dataflipflop c ≡ 0)
        × (r.active ≡ t.active)
        × (r.rlmode ≡ t.rlmode)
  unfolding write write_control
  latch_lem t =
      let legal : (c == 3) ≡ false = ground (arith, known) in
      let select : (c <<< 6) >>> 6 ≡ c = omega arith in
      let command : bit_and ((c <<< 6) >>> 4) 3 ≡ 0 =
        bit_and_mask 2 ((c <<< 6) >>> 4) ∙ omega arith in
      rw (select, command, legal)
        (update_self t.latch c _, update_self t.dataflipflop c 0, refl, refl)

  byte_lem :
      (t : I8253)
      → t.active c ≡ 1
      → t.rlmode c ≡ 3
      → read c t ≡ ((if t.dataflipflop c == 0 then u8 (t.latch c) else t.latch c >>> 8), flip c t)
  unfolding read
  byte_lem t on both =
      let legal : (c == 3) ≡ false = ground (arith, known) in
      rw (port_of c known, legal, on, both) refl

  read_lem :
      (t : I8253)
      → t.active c ≡ 1
      → t.rlmode c ≡ 3
      → t.dataflipflop c ≡ 0
      → let (first, u) = read c t in (first ≡ u8 (t.latch c)) × ((read c u).0 ≡ t.latch c >>> 8)
  unfolding flip
  read_lem t on both turn =
      let turned : (flip c t).dataflipflop c ≡ 1 = update_self t.dataflipflop c _ ∙ rw turn refl in
      rw (byte_lem t on both)
        (rw (byte_lem (flip c t) on both) (rw turn (refl, rw (==_self c) refl)))

  -- The latch holds the two bytes of the count.
  value_lem :
      (n low high latch : ℕ) {x : ℕ}
      → low < 256
      → high < 256
      → n ≡ low + high * 256
      → x ≡ count_of n
      → latch ≡ u16 x
      → (u8 latch ≡ low) × (latch >>> 8 ≡ high)
  unfolding count_of
  value_lem n low high latch l h e counted latched =
      (ground (arith, e, counted, latched), ground (arith, e, counted, latched))

  -- A counter is read back as it was programmed. After a control word that selects the counter and its
  -- low and high bytes in turn, the two bytes set the count, of which 0 stands for 65536; and after a
  -- latch command the counter is read as the same two bytes in the same order. The bytes are below 256,
  -- and the counter is one of the three.
  pub read-write :
      (control low high : ℕ) (t : I8253)
      → control >>> 6 ≡ c
      → bit_and (control >>> 4) 3 ≡ 3
      → low < 256
      → high < 256
      → let loaded = write c high (write c low (write 3 control t)) in
        let (first, rest) = read c (write 3 (c <<< 6) loaded) in
        (loaded.counter c ≡ count_of (low + high * 256)) × (first ≡ low) × ((read c rest).0 ≡ high)
  read-write control low high t e f l h =
      let ready = control_lem control t e f in
      let (half, stored) = low_lem low (write 3 control t) ready in
      let (counted, on, both) =
        high_lem high (low + high * 256) (write c low (write 3 control t)) half (
          ap (λ (n : ℕ). bit_or (bit_and n 0x00FF) (high <<< 8)) stored
          ∙ two_bytes ((write 3 control t).reload c) low high l) in
      let loaded = write c high (write c low (write 3 control t)) in
      let (latched, turn, actives, modes) = latch_lem loaded in
      let (first, second) =
        read_lem (write 3 (c <<< 6) loaded) (ap (λ (f : ℕ → ℕ). f c) actives ∙ on)
          (ap (λ (f : ℕ → ℕ). f c) modes ∙ both) turn in
      let kept = value_lem (low + high * 256) low high _ l h refl counted latched in
      (counted, first ∙ kept.0, second ∙ kept.1)
