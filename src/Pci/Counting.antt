-- ===== src/Pci/Counting.antt =====
-- The reference counts of src/pci.c: each counts the pins that assert an interrupt and are routed
-- to it.
use pculator.Base.{
  ℕ, zero, suc, ◌+◌, ◌*◌, ◌≤◌, ◌<◌, ◌≡◌, ◌≢◌, refl, false, ◌&&◌, ◌==◌, ◌!=◌, if◌then◌else◌, arith,
  inl, inr, Bool-cases, ==_iff, ==_self,
}
use pculator.Pci.{Pci, max_slots, slot_route_pin, set_state, set_refcount}

pub sum_to : ℕ → (ℕ → ℕ) → ℕ
sum_to zero f = 0
sum_to (suc n) f = sum_to n f + f n

pub sum_to_ext : (n : ℕ) (f g : ℕ → ℕ) → ((i : ℕ) → i < n → f i ≡ g i) → sum_to n f ≡ sum_to n g
unfolding sum_to
sum_to_ext zero f g h = refl
sum_to_ext (suc n) f g h =
    omega (arith, sum_to_ext n f g (λ i l. h i (omega arith)), h n (omega arith))

pub sum_to-zero : (n : ℕ) (f : ℕ → ℕ) → ((i : ℕ) → i < n → f i ≡ 0) → sum_to n f ≡ 0
unfolding sum_to
sum_to-zero zero f h = refl
sum_to-zero (suc n) f h =
    omega (arith, sum_to-zero n f (λ i l. h i (omega arith)), h n (omega arith))

-- One term changes, from `f i` to `g i`.
sum_to_change :
    (n i : ℕ) (f g : ℕ → ℕ)
    → i < n
    → ((j : ℕ) → j ≢ i → f j ≡ g j)
    → sum_to n g + f i ≡ sum_to n f + g i
unfolding sum_to
sum_to_change zero i f g l h = absurd (omega arith)
sum_to_change (suc n) i f g l h = elim (Bool-cases (i == n)) [
  | inl e ↦
      rw ((==_iff i n).0 e)
        (omega (arith, sum_to_ext n f g (λ j b. h j (omega (arith, (==_iff i n).0 e)))))
  | inr e ↦ omega (arith, sum_to_change n i f g (ground arith) h, h n (ground arith))
]

sum_to-le : (n k : ℕ) (f : ℕ → ℕ) → ((i : ℕ) → f i ≤ k) → sum_to n f ≤ n * k
unfolding sum_to
sum_to-le zero k f h = omega arith
sum_to-le (suc n) k f h = omega (arith, sum_to-le n k f h, h n)

module _ {D : Type 0} where
  -- 1 if pin `i` of the slot asserts its interrupt and is routed to `r`.
  pub asserts : Pci D → ℕ → ℕ → ℕ → ℕ
  asserts p r slot i =
      if (p.slot slot).irq_state i != 0 && slot_route_pin p slot (i + 1) == r + 1 then 1 else 0

  -- The asserting pins that are routed to `r`.
  pub total : Pci D → ℕ → ℕ
  total p r = sum_to max_slots (λ slot. sum_to 4 (asserts p r slot))

  -- Each count is the number of the pins that it stands for.
  abbrev pub Counted : Pci D → Type 0
  Counted p = (r : ℕ) → r < 4 → p.route_refcount r ≡ total p r

  asserts-le : (p : Pci D) (r slot i : ℕ) → asserts p r slot i ≤ 1
  unfolding asserts
  asserts-le p r slot i = ground arith

  -- No count can pass 128, so that a byte holds it.
  pub total-le : (p : Pci D) (r : ℕ) → total p r ≤ 128
  unfolding total
  total-le p r =
      sum_to-le max_slots 4 _ (λ slot. sum_to-le 4 1 (asserts p r slot) (asserts-le p r slot))

  pub slot_route_pin-set_state :
      (p : Pci D) (slot i v b q : ℕ)
      → slot_route_pin (set_state slot i v p) b q ≡ slot_route_pin p b q
  unfolding slot_route_pin set_state
  slot_route_pin-set_state p slot i v b q = ground arith

  pub state-set_state :
      (p : Pci D) (slot i v b j : ℕ)
      → ((set_state slot i v p).slot b).irq_state j
        ≡ (if b == slot && j == i then v else (p.slot b).irq_state j)
  unfolding set_state
  state-set_state p slot i v b j = elim (Bool-cases (b == slot)) [
    | inl e ↦ rw ((==_iff b slot).0 e) (ground (arith, ==_self slot))
    | inr e ↦ rw e
  ]

  asserts-set_state :
      (p : Pci D) (slot i v r b j : ℕ)
      → (b == slot && j == i) ≡ false
      → asserts p r b j ≡ asserts (set_state slot i v p) r b j
  unfolding asserts
  asserts-set_state p slot i v r b j h =
      rw (state-set_state p slot i v b j, slot_route_pin-set_state p slot i v b (j + 1), h)

  -- A change of one pin's state changes the total by what that pin counts.
  pub total-set_state :
      (p : Pci D) (slot i v r : ℕ)
      → slot < max_slots
      → i < 4
      → total (set_state slot i v p) r + asserts p r slot i
        ≡ total p r + asserts (set_state slot i v p) r slot i
  unfolding total
  total-set_state p slot i v r s4 i4 =
      let q : Pci D = set_state slot i v p in
      omega (
        arith,
        sum_to_change max_slots slot (λ b. sum_to 4 (asserts p r b)) (λ b. sum_to 4 (asserts q r b))
            s4 (λ b n. sum_to_ext 4 _ _ (λ j l. asserts-set_state p slot i v r b j (ground arith))),
        sum_to_change 4 i (asserts p r slot) (asserts q r slot) i4
            (λ j n. asserts-set_state p slot i v r slot j (ground arith)),
      )

  pub total-set_refcount : (p : Pci D) (r v q : ℕ) → total (set_refcount r v p) q ≡ total p q
  unfolding total asserts slot_route_pin set_refcount
  total-set_refcount p r v q = refl

  -- The pin starts to assert its interrupt (`v` is 1), or ceases to (`v` is 0).
  pub asserts-old :
      (p : Pci D) (slot i q : ℕ)
      → asserts p q slot i ≡ (
          if (p.slot slot).irq_state i != 0 && slot_route_pin p slot (i + 1) == q + 1 then 1 else 0)
  unfolding asserts
  asserts-old p slot i q = refl

  pub asserts-new :
      (p : Pci D) (slot i v q : ℕ)
      → asserts (set_state slot i v p) q slot i
        ≡ (if v != 0 && slot_route_pin p slot (i + 1) == q + 1 then 1 else 0)
  unfolding asserts
  asserts-new p slot i v q = rw (
    slot_route_pin-set_state p slot i v slot (i + 1),
    state-set_state p slot i v slot i,
    ==_self slot,
    ==_self i,
  )

  pub total_ext :
      (p q : Pci D) (r : ℕ)
      → ((slot i : ℕ) → slot < max_slots → i < 4 → asserts p r slot i ≡ asserts q r slot i)
      → total p r ≡ total q r
  unfolding total
  total_ext p q r h = sum_to_ext max_slots _ _ (λ slot b. sum_to_ext 4 _ _ (λ i l. h slot i b l))

  pub total_quiet :
      (p : Pci D) (r : ℕ)
      → ((slot i : ℕ) → slot < max_slots → i < 4 → asserts p r slot i ≡ 0)
      → total p r ≡ 0
  unfolding total
  total_quiet p r h = sum_to-zero max_slots _ (λ slot b. sum_to-zero 4 _ (λ i l. h slot i b l))

  -- What a pin counts depends on two fields of its slot.
  pub asserts_same :
      (p q : Pci D) (r slot i : ℕ)
      → (p.slot slot).irq_state ≡ (q.slot slot).irq_state
      → (p.slot slot).swizzle ≡ (q.slot slot).swizzle
      → asserts p r slot i ≡ asserts q r slot i
  unfolding asserts slot_route_pin
  asserts_same p q r slot i e w = rw (e, w)

  pub asserts_quiet :
      (p : Pci D) (r slot i : ℕ) → (p.slot slot).irq_state i ≡ 0 → asserts p r slot i ≡ 0
  unfolding asserts
  asserts_quiet p r slot i h = rw h
