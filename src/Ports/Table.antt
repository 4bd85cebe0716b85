-- ===== src/Ports/Table.antt =====
-- Which slot src/ports.c finds for an address, after handlers are registered and removed.
use pculator.Base.{
  ℕ, zero, suc, ◌≤◌, ◌<◌, ◌≡◌, ◌≢◌, refl, sym, ap, ◌∙◌, Bool, true, false, ◌&&◌, arith, Option,
  none, some, inl, inr, ◌==◌, ltb, Bool-cases, ==_iff, if◌then◌else◌, update, update_self,
  update_ne,
}
use pculator.Ports.{Port, Ports, serves, highest, no_port, overlaps, drop_range}

-- The lookup of an address that a new handler in slot `i` serves, from the lookup before.
abbrev pub joined : ℕ → Option ℕ → Option ℕ
joined i none = some i
joined i (some j) = if ltb j i then some i else some j

joined-below :
    (i n : ℕ) (o : Option ℕ) → ((j : ℕ) → o ≡ some j → j < n) → n ≤ i → joined i o ≡ some i
joined-below i n none h le = refl
joined-below i n (some j) h le = let low = h j refl in ground (arith, low, le)

module _ {D : Type 0} where
  -- Every slot in use is one of the 64, and among those that a lookup searches.
  unfoldable pub IsSearched : Ports D → Type 0
  IsSearched s = (i : ℕ) → Port.used (s.ports i) ≢ 0 → (i < s.searched) × (i < 64)

  pub serves-unused : (p : Port D) (addr : ℕ) → p.used ≡ 0 → serves p addr ≡ false
  unfolding serves
  serves-unused p addr h = ground (arith, h)

  -- A lookup over more slots finds the same when the further ones are not in use.
  pub highest-more :
      (m n : ℕ) (ports : ℕ → Port D) (addr : ℕ)
      → n ≤ m
      → ((i : ℕ) → n ≤ i → Port.used (ports i) ≡ 0)
      → highest m ports addr ≡ highest n ports addr
  unfolding highest
  highest-more zero n ports addr below h =
      let same : 0 ≡ n = omega arith in ap (λ k. highest k ports addr) same
  highest-more (suc m) n ports addr below h = elim (Bool-cases (n == suc m)) [
    | inl e ↦ ap (λ k. highest k ports addr) (sym ((==_iff n (suc m)).0 e))
    | inr e ↦
        let low : n ≤ m = ground (arith, below, e) in
        rw (serves-unused (ports m) addr (h m low)) (highest-more m n ports addr low h)
  ]

  highest-lt : (n : ℕ) (ports : ℕ → Port D) (addr j : ℕ) → highest n ports addr ≡ some j → j < n
  unfolding highest
  highest-lt zero ports addr j h = ground (arith, h)
  highest-lt (suc n) ports addr j h =
      let rest = highest-lt n ports addr j in
      elim (Bool-cases (serves (ports n) addr)) [
        | inl e ↦ ground (arith, h, e)
        | inr e ↦ ground (arith, rest, h, e)
      ]

  highest-above :
      (n i : ℕ) (p : Port D) (ports : ℕ → Port D) (addr : ℕ)
      → n ≤ i
      → highest n (update ports i p) addr ≡ highest n ports addr
  unfolding highest
  highest-above zero i p ports addr h = refl
  highest-above (suc n) i p ports addr h =
      let rest = highest-above n i p ports addr (omega arith) in
      rw (update_ne ports i n p (omega arith), rest) refl

  -- After a slot that was not in use is given a handler.
  pub highest-update :
      (n i : ℕ) (p : Port D) (ports : ℕ → Port D) (addr : ℕ)
      → Port.used (ports i) ≡ 0
      → i < n
      → highest n (update ports i p) addr
        ≡ (if serves p addr then joined i (highest n ports addr) else highest n ports addr)
  unfolding highest
  highest-update zero i p ports addr unused h = absurd (omega arith)
  highest-update (suc n) i p ports addr unused h = elim (Bool-cases (n == i)) [
    | inl e ↦
        let same : n ≡ i = (==_iff n i).0 e in
        let at : update ports i p n ≡ p = ap (update ports i p) same ∙ update_self ports i p in
        let top : joined i (highest n ports addr) ≡ some i =
          joined-below i n (highest n ports addr) (highest-lt n ports addr) (omega (arith, same)) in
        let off : serves (ports n) addr ≡ false = serves-unused (ports n) addr (rw same unused) in
        rw (highest-above n i p ports addr (omega (arith, same)), off, top)
          (ap (λ q. if serves q addr then some n else highest n ports addr) at
            ∙ ap (λ k. if serves p addr then some k else highest n ports addr) same)
    | inr e ↦
        let rest = highest-update n i p ports addr unused (ground (arith, e, h)) in
        rw (update_ne ports i n p (ground (arith, e)), rest)
          (elim (Bool-cases (serves (ports n) addr)) [
            | inl e' ↦ rw e' (ground (arith, e, h))
            | inr e' ↦ rw e' refl
          ])
  ]

  -- A lookup finds nothing among slots that do not serve the address.
  pub highest-none :
      (n : ℕ) (ports : ℕ → Port D) (addr : ℕ)
      → ((i : ℕ) → i < n → serves (ports i) addr ≡ false)
      → highest n ports addr ≡ none
  unfolding highest
  highest-none zero ports addr h = refl
  highest-none (suc n) ports addr h =
      ground (arith, h n (omega arith), highest-none n ports addr (λ i b. h i (omega arith)))

  drop_step :
      (ports : ℕ → Port D) (n i : ℕ) (b : Bool)
      → (if b then update ports n no_port else ports) i ≡ (if i == n && b then no_port else ports i)
  drop_step ports n i true = ground arith
  drop_step ports n i false = ground arith

  outside : (n : ℕ) (b : Bool) (p : Port D) → (if ltb n n && b then no_port else p) ≡ p
  outside n b p = ground arith

  pub drop_range-get :
      (n start end : ℕ) (ports : ℕ → Port D) (i : ℕ)
      → drop_range n start end ports i
        ≡ (if ltb i n && overlaps start end (ports i) then no_port else ports i)
  unfolding drop_range
  drop_range-get zero start end ports i = ground arith
  drop_range-get (suc n) start end ports i =
      let rest = drop_range-get n start end ports i in
      let here : drop_range n start end ports n ≡ ports n =
        drop_range-get n start end ports n ∙ outside n (overlaps start end (ports n)) (ports n) in
      drop_step (drop_range n start end ports) n i
        (overlaps start end (drop_range n start end ports n))
      ∙ ap (λ p. if i == n && overlaps start end p then no_port else drop_range n start end ports i)
          here
      ∙ elim (Bool-cases (i == n)) [
        | inl e ↦ rw e (
            ap
              (λ k.
                if overlaps start end (ports k) then no_port else drop_range n start end ports i)
              (sym ((==_iff i n).0 e))
            ∙ ground (arith, rest, e))
        | inr e ↦ ground (arith, rest, e)
      ]

  pub drop_range-used :
      (n start end : ℕ) (ports : ℕ → Port D) (i : ℕ)
      → Port.used (drop_range n start end ports i) ≢ 0
      → Port.used (ports i) ≢ 0
  unfolding no_port
  drop_range-used n start end ports i used =
      let get = drop_range-get n start end ports i in
      elim (Bool-cases (ltb i n && overlaps start end (ports i))) [
        | inl e ↦ absurd (used (ap Port.used (get ∙ ap (λ b. if b then no_port else ports i) e)))
        | inr e ↦ λ z. used (ap Port.used (get ∙ ap (λ b. if b then no_port else ports i) e) ∙ z)
      ]

  -- No slot serves an address of a range once those that overlap it are dropped.
  pub drop_range-serves :
      (n start end : ℕ) (ports : ℕ → Port D) (i addr : ℕ)
      → i < n
      → start ≤ addr
      → addr < end
      → serves (drop_range n start end ports i) addr ≡ false
  unfolding no_port serves overlaps
  drop_range-serves n start end ports i addr below from inside =
      let get = drop_range-get n start end ports i in
      elim (Bool-cases (overlaps start end (ports i))) [
        | inl e ↦
            let gone : drop_range n start end ports i ≡ no_port = get ∙ ground (arith, e, below) in
            ap (λ p. serves p addr) gone
        | inr e ↦
            let kept : drop_range n start end ports i ≡ ports i = get ∙ ground (arith, e) in
            ap (λ p. serves p addr) kept ∙ ground (arith, e, from, inside)
      ]
