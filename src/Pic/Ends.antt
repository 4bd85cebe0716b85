-- ===== src/Pic/Ends.antt =====
-- OCW2, the end of interrupt of src/chipset/i8259.c, as the port write brings it about: the
-- synchronisation of the cascade line that follows it included.
use pculator.Base.{
  ℕ, ◌<◌, ◌≡◌, ◌≢◌, ◌⊎◌, refl, sym, ap, ◌∙◌, true, false, not, ◌&&◌, ◌==◌, if◌then◌else◌, arith,
  bit, bit_and, has, update, update_self, update_ne, inl, inr, Bool, ◌||◌,
}
use pculator.Pic.{Pic, Pics, write, end_of_interrupt}
use pculator.Pic.Cascade.{IsLinked, IsCascaded, OnlyLine}
use pculator.Pic.Writes.{IsEnd, resync_registers, write-IsCascaded}
use pculator.Pic.Programming.{end_of_interrupt_lem}

-- Whether an OCW2 ends the service of line `k`: the line that a specific end of interrupt names, and
-- for one that is not specific every line.
abbrev pub ends : (value k : ℕ) → Bool
ends value k =
    let kind = bit_and value 0xE0 in if kind == 0x60 then k == bit_and value 7 else kind == 0x20

-- Whether it withdraws the request of line `k`: the line that it names, or one that was in service.
abbrev pub withdraws : (value k isr : ℕ) → Bool
withdraws value k isr = ends value k && (bit_and value 0xE0 == 0x60 || bit isr k)

-- The controller `c` of the pair `m`, `a` after the end of interrupt.
pub record Ended (s t : Pics) (m a c value : ℕ) : Type 0 where
  pub service : (k : ℕ) → k < 8 → bit (t c).isr k ≡ (bit (s c).isr k && not (ends value k))
  pub requests :
      (k : ℕ)
      → k < 8
      → (c ≢ m) ⊎ (k ≢ 2)
      → bit (t c).irr k ≡ (bit (s c).irr k && not (withdraws value k (s c).isr))
  pub masks : (t c).imr ≡ (s c).imr
  pub cascade : IsCascaded t m a
  pub linked : IsLinked t m a
  pub master :
      c ≢ m
      → ((k : ℕ) → k < 8 → k ≢ 2 → bit (t m).irr k ≡ bit (s m).irr k)
        × (t m ≡ record (s m) { irr = (t m).irr })
  pub others : (b : ℕ) → b ≢ c → b ≢ m → t b ≡ s b

-- The registers that the switch leaves.
abbrev after : ℕ → Pic → Pic
after value p = end_of_interrupt value (record p { ocw = update p.ocw 2 value })

after_service :
    (value k : ℕ) (p : Pic)
    → k < 8
    → (bit (after value p).isr k ≡ (bit p.isr k && not (ends value k)))
      × (bit (after value p).irr k ≡ (bit p.irr k && not (withdraws value k p.isr)))
      × ((after value p).imr ≡ p.imr)
after_service value k p h =
    let (service, requests, masks) =
      end_of_interrupt_lem value k (record p { ocw = update p.ocw 2 value }) h in
    (ground (arith, service), ground (arith, requests), masks)

-- What the synchronisation keeps of the controller that was written to.
kept_end :
    (s t : Pics) (m a c : ℕ) (q : Pic)
    → IsEnd m a c
    → m ≢ a
    → OnlyLine (update s c q) t m
    → ((t c).isr ≡ q.isr)
      × ((t c).imr ≡ q.imr)
      × ((k : ℕ) → k < 8 → (c ≢ m) ⊎ (k ≢ 2) → bit (t c).irr k ≡ bit q.irr k)
kept_end s t m a c q (inl e) apart o =
    let here : update s c q m ≡ q = ap (update s c q) (sym e) ∙ update_self s c q in
    let same = ap t e ∙ o.master_kept in
    (
      ap (λ (p : Pic). p.isr) same ∙ ap (λ (p : Pic). p.isr) here,
      ap (λ (p : Pic). p.imr) same ∙ ap (λ (p : Pic). p.imr) here,
      λ k h free.
          ap (λ (p : Pic). bit p.irr k) (ap t e)
          ∙ o.requests k h (elim free [ inl apart ↦ absurd (apart e) | inr other ↦ other ])
          ∙ ap (λ (p : Pic). bit p.irr k) here,
    )
kept_end s t m a c q (inr e) apart o =
    let same : t c ≡ q = o.others c (λ z. apart (sym z ∙ e)) ∙ update_self s c q in
    rw same (refl, refl, λ k _ _. refl)

-- An end of interrupt (OCW2) written to either controller of a linked pair: a specific one (0x60 and
-- the line) ends the service of the line that it names and withdraws its request; one that is not
-- specific (0x20) ends the service of every line and withdraws the requests of those that were in
-- service; any other command ends none. The other lines and the masks of the controller stay, but for
-- the master's request line 2, which is then in step with the slave whatever the command says of
-- it. When the slave is written to, nothing else of the master changes; the pair stays linked, and
-- every further controller stays as it was.
pub write-Ended :
    (s : Pics) (m a c value : ℕ)
    → IsEnd m a c
    → IsLinked s m a
    → has value 0x10 ≡ false
    → (bit_and value 0x08 == 0) ≡ true
    → Ended s (write c 0 value s) m a c value
unfolding resync_registers
write-Ended s m a c value e l command kind =
    let (cascade, linked, line) =
      write-IsCascaded s m a c 0 value e l (inl (ground arith, command, kind)) in
    let (isr, imr, irr) = kept_end s (write c 0 value s) m a c (after value (s c)) e l.apart line in
    record {
      service = λ k h. ap (λ x. bit x k) isr ∙ (after_service value k (s c) h).0;
      requests = λ k h free. irr k h free ∙ (after_service value k (s c) h).1;
      masks = imr ∙ (after_service value 0 (s c) (omega arith)).2;
      cascade = cascade;
      linked = linked;
      master = λ apart.
          let same : update s c (after value (s c)) m ≡ s m =
            update_ne s c m (after value (s c)) (λ z. apart (sym z)) in
          (
            λ k h free. line.requests k h free ∙ ap (λ (p : Pic). bit p.irr k) same,
            line.master_kept ∙ ap (λ (p : Pic). record p { irr = (write c 0 value s m).irr }) same,
          );
      others = λ b x y. line.others b y ∙ update_ne s c b (after value (s c)) x;
    }
