-- ===== src/Pic/Cascade.antt =====
-- The cascade line of src/chipset/i8259.c: bit 2 of the master's request register stands for the
-- slave as a whole, and `i8259_sync_cascade` keeps it so.
use pculator.Base.{
  ℕ, ◌<◌, ◌≡◌, ◌≢◌, sym, ap, subst, ◌∙◌, Bool, true, false, ◌&&◌, not, none, some, ◌==◌, ◌!=◌,
  if◌then◌else◌, arith, bit, bit_and, bit_or, not8, ◌<<<◌, update, update_self, update_ne, ==_ne,
  ==_self, inl, inr, Bool-cases, bit-clear, bit-raise, bit-bit_or, bit-one_shift, has-pow,
}
use pculator.Pic.{
  Pic, Pics, has_pending, sync_to, sync_cascade, sync_slave, doirq, clearirq, setlevelirq,
}

-- `a` is the slave of `m`, and there is no third controller.
pub record IsLinked (s : Pics) (m a : ℕ) : Type 0 where
  pub up : (s a).master ≡ some m
  pub down : (s m).slave ≡ some a
  pub top : (s m).master ≡ none
  pub bottom : (s a).slave ≡ none
  pub apart : m ≢ a

-- The master sees a request on line 2 exactly when it does not serve that line already and the
-- slave has a request that is not masked.
abbrev pub IsCascaded : Pics → ℕ → ℕ → Type 0
IsCascaded s m a = bit (s m).irr 2 ≡ (not (bit (s m).isr 2) && (has_pending (s a) != 0))

-- A change of the cascade line and of nothing else.
pub record OnlyLine (s t : Pics) (m : ℕ) : Type 0 where
  pub others : (b : ℕ) → b ≢ m → t b ≡ s b
  pub requests : (k : ℕ) → k < 8 → k ≢ 2 → bit (t m).irr k ≡ bit (s m).irr k
  pub master_kept : t m ≡ record (s m) { irr = (t m).irr }

line_after :
    (x k : ℕ) (b : Bool)
    → k < 8
    → bit (if b then bit_or x (1 <<< 2) else bit_and x (not8 (1 <<< 2))) k
      ≡ (if k == 2 then b else bit x k)
line_after x k true h = ground (arith, bit-bit_or x (1 <<< 2) k, bit-one_shift 2 k)
line_after x k false h = ground (arith, bit-clear x 2 k h)

-- The value that `sync_to` computes for the line.
abbrev line : Pics → ℕ → ℕ → Bool
line s m a = bit_and (s m).isr (1 <<< 2) == 0 && has_pending (s a) != 0

line_lem : (s : Pics) (m a : ℕ) → line s m a ≡ (not (bit (s m).isr 2) && (has_pending (s a) != 0))
line_lem s m a = ground (arith, has-pow (s m).isr 2)

sync_to_irr :
    (s : Pics) (m a : ℕ)
    → (sync_to m a s m).irr
      ≡ (if line s m a then bit_or (s m).irr (1 <<< 2) else bit_and (s m).irr (not8 (1 <<< 2)))
unfolding sync_to
sync_to_irr s m a = ground (arith, ==_self m)

sync_to_master :
    (s : Pics) (m a : ℕ) → sync_to m a s m ≡ record (s m) { irr = (sync_to m a s m).irr }
unfolding sync_to
sync_to_master s m a = ground (arith, ==_self m)

sync_to_others : (s : Pics) (m a b : ℕ) → b ≢ m → sync_to m a s b ≡ s b
unfolding sync_to
sync_to_others s m a b h = ground (arith, ==_ne b m h)

pub sync_to-OnlyLine : (s : Pics) (m a : ℕ) → OnlyLine s (sync_to m a s) m
sync_to-OnlyLine s m a = record {
  others = λ b h. sync_to_others s m a b h;
  requests = λ k l h.
      ap (λ x. bit x k) (sync_to_irr s m a) ∙ line_after (s m).irr k (line s m a) l ∙ ground arith;
  master_kept = sync_to_master s m a;
}

pub sync_to-IsCascaded : (s : Pics) (m a : ℕ) → m ≢ a → IsCascaded (sync_to m a s) m a
sync_to-IsCascaded s m a h =
    rw (sync_to_others s m a a (λ e. h (sym e)), ap (λ (p : Pic). p.isr) (sync_to_master s m a))
      (ap (λ x. bit x 2) (sync_to_irr s m a)
        ∙ line_after (s m).irr 2 (line s m a) (omega arith)
        ∙ line_lem s m a)

pub sync_cascade_up :
    (u : Pics) (m a : ℕ) → (u a).master ≡ some m → sync_cascade a u ≡ sync_to m a u
unfolding sync_cascade
sync_cascade_up u m a e = rw (e, sync_cascade)

-- A controller with a master is synchronised with it, and one without is left alone.
pub sync_slave_up : (u : Pics) (m a : ℕ) → (u a).master ≡ some m → sync_slave a u ≡ sync_to m a u
unfolding sync_slave
sync_slave_up u m a e = rw (e, sync_slave) (sync_cascade_up u m a e)

pub sync_slave_top : (u : Pics) (a : ℕ) → (u a).master ≡ none → sync_slave a u ≡ u
unfolding sync_slave
sync_slave_top u a e = rw (e, sync_slave)

-- What a write to the slave's registers leaves once the line is synchronised.
pub slave_write :
    (s : Pics) (m a : ℕ) (p : Pic)
    → m ≢ a
    → p.master ≡ some m
    → let t = sync_slave a (update s a p) in
      (t a ≡ p) × IsCascaded t m a × OnlyLine (update s a p) t m
slave_write s m a p h e =
    rw (sync_slave_up (update s a p) m a (ap (λ (q : Pic). q.master) (update_self s a p) ∙ e)) (
      sync_to_others (update s a p) m a a (λ q. h (sym q)) ∙ update_self s a p,
      sync_to-IsCascaded (update s a p) m a h,
      sync_to-OnlyLine (update s a p) m a,
    )

-- Line `n` of controller `a` takes the level, its other lines and registers stay, and so does
-- every controller other than `a` and its master `m`.
pub record Drives (s t : Pics) (m a n : ℕ) (level : Bool) : Type 0 where
  pub lines : (k : ℕ) → k < 8 → bit (t a).irr k ≡ (if k == n then level else bit (s a).irr k)
  pub kept : t a ≡ record (s a) { irr = (t a).irr }
  pub elsewhere : (b : ℕ) → b ≢ a → b ≢ m → t b ≡ s b

driven :
    (s : Pics) (m a n irr : ℕ) (level : Bool)
    → IsLinked s m a
    → ((k : ℕ) → k < 8 → bit irr k ≡ (if k == n then level else bit (s a).irr k))
    → let t = sync_slave a (update s a (record (s a) { irr = irr })) in
      Drives s t m a n level × IsCascaded t m a × OnlyLine (update s a (t a)) t m
driven s m a n irr level l h = (
  record {
    lines = λ k b. ap (λ (q : Pic). bit q.irr k) w.0 ∙ h k b;
    kept = w.0 ∙ ap (λ (q : Pic). record (s a) { irr = q.irr }) (sym w.0);
    elsewhere = λ b x y. w.2.others b y ∙ update_ne s a b p x;
  },
  w.1,
  subst (λ q. OnlyLine (update s a q) (sync_slave a (update s a p)) m) (sym w.0) w.2,
)
  where
    p : Pic
    p = record (s a) { irr = irr }

    w :
        let t = sync_slave a (update s a p) in
        (t a ≡ p) × IsCascaded t m a × OnlyLine (update s a p) t m
    w = slave_write s m a p l.apart l.up

-- For a slave that is linked to a master, setting a line to a level sets that line's request bit
-- accordingly and no other, and leaves the cascade line of the master in step with the slave; the
-- master's other lines and registers stay.
pub setlevelirq-slave :
    (s : Pics) (m a n level : ℕ)
    → IsLinked s m a
    → let t = setlevelirq a n level s in
      Drives s t m a n (level != 0) × IsCascaded t m a × OnlyLine (update s a (t a)) t m
unfolding setlevelirq doirq clearirq
setlevelirq-slave s m a n level l = elim (Bool-cases (level != 0)) [
  | inl e ↦ rw e (driven s m a n _ true l (λ k h. bit-raise (s a).irr n k h ∙ ground arith))
  | inr e ↦ rw e (driven s m a n _ false l (λ k h. bit-clear (s a).irr n k h ∙ ground arith))
]
