-- ===== src/Pic/Writes.antt =====
-- What the port writes and the acknowledgement of src/chipset/i8259.c do to a pair of controllers.
use pculator.Base.{
  ℕ, ◌≡◌, ◌⊎◌, refl, ap, ◌∙◌, true, false, some, none, ◌==◌, if◌then◌else◌, arith, bit_and, has,
  update, update_self, ==_iff, inl, inr, Bool-cases,
}
use pculator.Pic.{
  Pic, Pics, sync_to, sync_cascade, sync_down, sync_links, end_of_interrupt, write, write_command,
  write_data,
}
use pculator.Pic.Cascade.{
  IsLinked, IsCascaded, OnlyLine, sync_to-IsCascaded, sync_to-OnlyLine, sync_cascade_up,
  sync_slave_up, sync_slave_top,
}

-- `p` has the pointers of `q`.
abbrev SameLinks : Pic → Pic → Type 0
SameLinks p q = (p.master ≡ q.master) × (p.slave ≡ q.slave)

update-SameLinks :
    (s : Pics) (c : ℕ) (p : Pic) → SameLinks p (s c) → (b : ℕ) → SameLinks (update s c p b) (s b)
update-SameLinks s c p h b = elim (Bool-cases (b == c)) [
  | inl e ↦ rw ((==_iff b c).0 e) (rw (update_self s c p) h)
  | inr e ↦ rw e (refl, refl)
]

pub IsLinked-of_same :
    {s t : Pics} {m a : ℕ} → ((b : ℕ) → SameLinks (t b) (s b)) → IsLinked s m a → IsLinked t m a
IsLinked-of_same {s} {t} {m} {a} h l = record {
  up = (h a).0 ∙ l.up;
  down = (h m).1 ∙ l.down;
  top = (h m).0 ∙ l.top;
  bottom = (h a).1 ∙ l.bottom;
  apart = l.apart;
}

-- The two controllers of the pair.
abbrev pub IsEnd : ℕ → ℕ → ℕ → Type 0
IsEnd m a c = (c ≡ m) ⊎ (c ≡ a)

sync_down-some : (u : Pics) (c b : ℕ) → (u c).slave ≡ some b → sync_down c u ≡ sync_cascade b u
unfolding sync_down
sync_down-some u c b e = rw (e, sync_down)

sync_down-none : (u : Pics) (c : ℕ) → (u c).slave ≡ none → sync_down c u ≡ u
unfolding sync_down
sync_down-none u c e = rw (e, sync_down)

sync_links_slave : (u : Pics) (m a : ℕ) → IsLinked u m a → sync_links a u ≡ sync_to m a u
unfolding sync_links
sync_links_slave u m a l = rw (sync_down-none u a l.bottom) (sync_slave_up u m a l.up)

sync_links_master : (u : Pics) (m a : ℕ) → IsLinked u m a → sync_links m u ≡ sync_to m a u
unfolding sync_links
sync_links_master u m a l =
    rw (sync_down-some u m a l.down, sync_cascade_up u m a l.up)
      (sync_slave_top (sync_to m a u) m
        (ap (λ (p : Pic). p.master) (sync_to-OnlyLine u m a).master_kept ∙ l.top))

pub sync_links_end :
    (u : Pics) (m a c : ℕ) → IsEnd m a c → IsLinked u m a → sync_links c u ≡ sync_to m a u
sync_links_end u m a c (inl e) l = rw e (sync_links_master u m a l)
sync_links_end u m a c (inr e) l = rw e (sync_links_slave u m a l)

OnlyLine-SameLinks : {s t : Pics} {m : ℕ} → OnlyLine s t m → (b : ℕ) → SameLinks (t b) (s b)
OnlyLine-SameLinks {s} {t} {m} o b = elim (Bool-cases (b == m)) [
  | inl e ↦
      rw ((==_iff b m).0 e)
        (ap (λ (p : Pic). p.master) o.master_kept, ap (λ (p : Pic). p.slave) o.master_kept)
  | inr e ↦ rw (o.others b (λ q. ground arith)) (refl, refl)
]

-- The synchronisation that follows a write to one end of the pair.
pub resync :
    (s : Pics) (m a c : ℕ) (p : Pic)
    → IsEnd m a c
    → IsLinked s m a
    → SameLinks p (s c)
    → let t = sync_links c (update s c p) in
      IsCascaded t m a × OnlyLine (update s c p) t m × IsLinked t m a
resync s m a c p e l h =
    let u : Pics = update s c p in
    let l' : IsLinked u m a = IsLinked-of_same (update-SameLinks s c p h) l in
    rw (sync_links_end u m a c e l') (
      sync_to-IsCascaded u m a l.apart,
      sync_to-OnlyLine u m a,
      IsLinked-of_same (OnlyLine-SameLinks (sync_to-OnlyLine u m a)) l',
    )

-- The writes after which `i8259_write` synchronises: an OCW2, and the mask once initialised.
abbrev pub Resyncs : Pic → ℕ → ℕ → Type 0
Resyncs p portnum value =
    ((bit_and portnum 1 == 0) ≡ true)
      × (has value 0x10 ≡ false)
      × ((bit_and value 0x08 == 0) ≡ true)
    ⊎ ((bit_and portnum 1 == 0) ≡ false) × (p.icwstep ≡ 5)

-- The registers that such a write leaves before it synchronises: an OCW2 or the mask.
unfoldable pub resync_registers : ℕ → ℕ → Pic → Pic
resync_registers portnum value p =
    if bit_and portnum 1 == 0
    then end_of_interrupt value (record p { ocw = update p.ocw 2 value })
    else record p { imr = value }

write-resync :
    (s : Pics) (c portnum value : ℕ)
    → Resyncs (s c) portnum value
    → write c portnum value s ≡ sync_links c (update s c (resync_registers portnum value (s c)))
unfolding write write_command write_data resync_registers
write-resync s c portnum value (inl h) = rw (h.0, h.1, h.2)
write-resync s c portnum value (inr h) = rw (h.0, h.1)

end_of_interrupt-SameLinks : (value : ℕ) (p : Pic) → SameLinks (end_of_interrupt value p) p
unfolding end_of_interrupt
end_of_interrupt-SameLinks value p = ground arith

resync_registers-SameLinks :
    (portnum value : ℕ) (p : Pic) → SameLinks (resync_registers portnum value p) p
unfolding resync_registers
resync_registers-SameLinks portnum value p = elim (Bool-cases (bit_and portnum 1 == 0)) [
  | inl e ↦ rw e (end_of_interrupt-SameLinks value (record p { ocw = update p.ocw 2 value }))
  | inr e ↦ rw e (refl, refl)
]

-- An OCW2 or a new mask written to either controller of a linked pair leaves the cascade line in
-- step with the slave and the pair linked; past the written registers only that line changes.
pub write-IsCascaded :
    (s : Pics) (m a c portnum value : ℕ)
    → IsEnd m a c
    → IsLinked s m a
    → Resyncs (s c) portnum value
    → let t = write c portnum value s in
      IsCascaded t m a
      × IsLinked t m a
      × OnlyLine (update s c (resync_registers portnum value (s c))) t m
write-IsCascaded s m a c portnum value e l r =
    let w =
      resync s m a c (resync_registers portnum value (s c)) e l
        (resync_registers-SameLinks portnum value (s c)) in
    rw (write-resync s c portnum value r) (w.0, w.2, w.1)
