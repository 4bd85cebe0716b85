-- ===== src/Pic/Programming.antt =====
-- The initialisation words and the end of an interrupt in `i8259_write` of src/chipset/i8259.c.
use pculator.Base.{
  ℕ, ◌<◌, ◌≡◌, ◌≢◌, refl, ap, ◌∙◌, true, false, not, ◌&&◌, ◌==◌, if◌then◌else◌, arith, List, [],
  ◌∷◌, bit, bit_and, has, update, update_self, update_ne, update-update, inl, inr, Bool-cases,
  bit-clear, bit-and_not8, bit-zero,
}
use pculator.Pic.{Pic, Pics, end_of_interrupt, write, icw_word, write_command, write_data}

-- The bits of the service and of the request register after an OCW2, line by line: a specific end
-- of interrupt (0x60) clears its line in both; one that is not specific (0x20) clears the service
-- register, and withdraws the requests of every line that was in service; any other leaves both.
pub end_of_interrupt_lem :
    (value k : ℕ) (p : Pic)
    → k < 8
    → let q = end_of_interrupt value p in
      let kind = bit_and value 0xE0 in
      (bit q.isr k ≡ (
        if kind == 0x60
        then bit p.isr k && not (k == bit_and value 7)
        else if kind == 0x20
        then false
        else bit p.isr k))
      × (bit q.irr k ≡ (
          if kind == 0x60
          then bit p.irr k && not (k == bit_and value 7)
          else if kind == 0x20
          then bit p.irr k && not (bit p.isr k)
          else bit p.irr k))
      × (q.imr ≡ p.imr)
unfolding end_of_interrupt
end_of_interrupt_lem value k p h = ground (
  arith,
  bit-clear p.isr (bit_and value 7) k h,
  bit-clear p.irr (bit_and value 7) k h,
  bit-and_not8 p.irr p.isr k h,
  bit-zero k,
)

-- The words that the controller expects after ICW1.
abbrev pub words : ℕ → ℕ → ℕ → ℕ → List ℕ
words icw1 icw2 icw3 icw4 =
    if has icw1 0x02
    then icw2 ∷ icw4 ∷ []
    else (if has icw1 0x01 then icw2 ∷ icw3 ∷ icw4 ∷ [] else icw2 ∷ icw3 ∷ [])

-- Writes to the odd port, in order.
abbrev pub write_all : ℕ → List ℕ → Pics → Pics
write_all a [] s = s
write_all a (x ∷ xs) s = write_all a xs (write a 1 x s)

word_step :
    (s : Pics) (a value : ℕ) (p : Pic)
    → (p.icwstep == 5) ≡ false
    → write a 1 value (update s a p) ≡ update s a (icw_word value p)
unfolding write write_data
word_step s a value p h = rw (update_self s a p, h) (update-update s a p (icw_word value p))

pub record Programmed (p q : Pic) (icw1 icw2 : ℕ) : Type 0 where
  pub ready : q.icwstep ≡ 5
  pub unmasked : q.imr ≡ 0
  pub vector : q.intoffset ≡ bit_and icw2 0xF8
  pub first : q.icw 1 ≡ icw1
  pub reads_irr : q.readmode ≡ 0
  pub requests_kept : q.irr ≡ p.irr
  pub service_kept : q.isr ≡ p.isr

landed :
    (s t : Pics) (a icw1 icw2 : ℕ) (q : Pic)
    → t ≡ update s a q
    → Programmed (s a) q icw1 icw2
    → Programmed (s a) (t a) icw1 icw2 × ((b : ℕ) → b ≢ a → t b ≡ s b)
landed s t a icw1 icw2 q e h = rw e (rw (update_self s a q) h, λ b n. update_ne s a b q n)

-- What ICW1 leaves.
abbrev begun : Pic → ℕ → Pic
begun p icw1 = record p { imr = 0; icw = update p.icw 1 icw1; icwstep = 2; readmode = 0 }

begun_lem :
    (s : Pics) (a icw1 : ℕ)
    → has icw1 0x10 ≡ true
    → write a 0 icw1 s ≡ update s a (begun (s a) icw1)
unfolding write write_command
begun_lem s a icw1 h = rw h

module _ (s : Pics) (a icw1 icw2 icw3 icw4 : ℕ) where
  abbrev p2 : Pic
  p2 = icw_word icw2 (begun (s a) icw1)

  second : write a 1 icw2 (update s a (begun (s a) icw1)) ≡ update s a p2
  unfolding icw_word
  second = word_step s a icw2 (begun (s a) icw1) refl

  two_words :
      (x : ℕ)
      → write a 1 x (write a 1 icw2 (update s a (begun (s a) icw1))) ≡ update s a (icw_word x p2)
  unfolding icw_word
  two_words x = ap (write a 1 x) second ∙ word_step s a x p2 (ground arith)

  three_words :
      has icw1 0x02 ≡ false
      → has icw1 0x01 ≡ true
      → write a 1 icw4 (write a 1 icw3 (write a 1 icw2 (update s a (begun (s a) icw1))))
        ≡ update s a (icw_word icw4 (icw_word icw3 p2))
  unfolding icw_word
  three_words c f =
      ap (write a 1 icw4) (two_words icw3) ∙ word_step s a icw4 (icw_word icw3 p2) (ground arith)

-- After ICW1, a command with bit 4 set, and the words that the code then expects (ICW2; in single
-- mode ICW4; else ICW3, and ICW4 if bit 0 of ICW1 says so), the controller is ready for masks: every
-- line is unmasked, the vector base is ICW2 without its low three bits, and reads give the request
-- register; the requests, the lines in service and the other controllers stay.
pub initialisation :
    (s : Pics) (a icw1 icw2 icw3 icw4 : ℕ)
    → has icw1 0x10 ≡ true
    → let t = write_all a (words icw1 icw2 icw3 icw4) (write a 0 icw1 s) in
      Programmed (s a) (t a) icw1 icw2 × ((b : ℕ) → b ≢ a → t b ≡ s b)
unfolding icw_word
initialisation s a icw1 icw2 icw3 icw4 h = elim (Bool-cases (has icw1 0x02)) [
  | inl single ↦
      rw (single, begun_lem s a icw1 h)
        (landed s _ a icw1 icw2 _ (two_words s a icw1 icw2 icw3 icw4 icw4) (ground arith))
  | inr cascade ↦ elim (Bool-cases (has icw1 0x01)) [
    | inl four ↦
        rw (cascade, four, begun_lem s a icw1 h)
          (landed s _ a icw1 icw2 _ (three_words s a icw1 icw2 icw3 icw4 cascade four)
            (ground arith))
    | inr three ↦
        rw (cascade, three, begun_lem s a icw1 h)
          (landed s _ a icw1 icw2 _ (two_words s a icw1 icw2 icw3 icw4 icw3) (ground arith))
  ]
]
