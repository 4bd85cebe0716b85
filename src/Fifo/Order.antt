-- ===== src/Fifo/Order.antt =====
-- The queue of src/disk/fifo.c as a list: first in, first out.
use native.Mathlib.Nat.{mod-eq_of_lt}
use pculator.Base.{
  ℕ, zero, suc, ◌+◌, ◌<◌, ◌≤◌, ◌≡◌, refl, sym, ap, subst, ◌∙◌, List, [], ◌∷◌, ◌++◌, length, get_or,
  arith, Bool, ltb, not, ◌||◌, Option, some, none, ==_iff, Bool-cases, inl, inr, ◌==◌,
}
use pculator.Fifo.{Fifo, put, take, clear, make, set_ready}
use pculator.Fifo.Queue.{Holds, item, put-Holds, take-Holds}

-- The bytes of the queue, from the oldest on.
pub record Represents (f : Fifo) (xs : List ℕ) : Type 0 where
  pub holds : Holds f (length xs)
  pub items : (i : ℕ) → i < length xs → item f i ≡ get_or xs i 0

abbrev pub put_all : List ℕ → Fifo → Fifo
put_all [] f = f
put_all (x ∷ xs) f = put_all xs (put x f)

abbrev pub take_all : ℕ → Fifo → List ℕ
take_all zero f = []
take_all (suc n) f = let (val, g) = take f in val ∷ take_all n g

get_or-old : (xs : List ℕ) (v i : ℕ) → i < length xs → get_or (xs ++ v ∷ []) i 0 ≡ get_or xs i 0
get_or-old [] v i h = absurd (omega arith)
get_or-old (x ∷ xs) v zero h = refl
get_or-old (x ∷ xs) v (suc i) h = get_or-old xs v i (omega arith)

get_or-new : (xs : List ℕ) (v : ℕ) → get_or (xs ++ v ∷ []) (length xs) 0 ≡ v
get_or-new [] v = refl
get_or-new (x ∷ xs) v = get_or-new xs v

length-new : (xs : List ℕ) (v : ℕ) → length (xs ++ v ∷ []) ≡ suc (length xs)
length-new [] v = refl
length-new (x ∷ xs) v = ap suc (length-new xs v)

-- Putting a byte in appends it.
pub put-Represents :
    (xs : List ℕ) (v : ℕ) (f : Fifo)
    → Represents f xs
    → length xs < f.len
    → Represents (put v f) (xs ++ v ∷ [])
put-Represents xs v f r room =
    let (held, new, old) = put-Holds v (length xs) f r.holds room in
    record {
      holds = subst (Holds (put v f)) (sym (length-new xs v)) held;
      items = λ i l. elim (Bool-cases (i == length xs)) [
        | inl e ↦ rw ((==_iff i (length xs)).0 e) (new ∙ sym (get_or-new xs v))
        | inr e ↦
            let below : i < length xs = ground (arith, length-new xs v) in
            old i below ∙ r.items i below ∙ sym (get_or-old xs v i below)
      ];
    }

-- The bytes come out from the oldest on.
take_all-Represents : (xs : List ℕ) (f : Fifo) → Represents f xs → take_all (length xs) f ≡ xs
take_all-Represents [] f r = refl
take_all-Represents (x ∷ xs) f r =
    let (first, held, rest) = take-Holds (length xs) f r.holds in
    let others : Represents ((take f).1) xs = record {
      holds = held;
      items = λ i l. rest i l ∙ r.items (suc i) (omega arith);
    } in
    ap (λ (v : ℕ). v ∷ take_all (length xs) ((take f).1)) (first ∙ r.items 0 (omega arith))
    ∙ ap (λ (ys : List ℕ). x ∷ ys) (take_all-Represents xs ((take f).1) others)

len-put : (v : ℕ) (f : Fifo) → (put v f).len ≡ f.len
unfolding put set_ready
len-put v f = ground arith

append-new : (xs ys : List ℕ) (y : ℕ) → (xs ++ y ∷ []) ++ ys ≡ xs ++ y ∷ ys
append-new [] ys y = refl
append-new (x ∷ xs) ys y = ap (λ (zs : List ℕ). x ∷ zs) (append-new xs ys y)

append-none : (xs : List ℕ) → xs ≡ xs ++ []
append-none [] = refl
append-none (x ∷ xs) = ap (λ (zs : List ℕ). x ∷ zs) (append-none xs)

put_all-Represents :
    (ys xs : List ℕ) (f : Fifo)
    → Represents f xs
    → length xs + length ys ≤ f.len
    → Represents (put_all ys f) (xs ++ ys)
put_all-Represents [] xs f r h = subst (Represents f) (append-none xs) r
put_all-Represents (y ∷ ys) xs f r h =
    subst (Represents (put_all ys (put y f))) (append-new xs ys y) (
      put_all-Represents ys (xs ++ y ∷ []) (put y f) (put-Represents xs y f r (omega arith))
        (omega (arith, length-new xs y, len-put y f)))

make-Represents :
    (allocated : Bool) (len : ℕ) (f : Fifo)
    → make allocated len ≡ some f
    → Represents f [] × (f.len ≡ len)
unfolding make clear
make-Represents allocated len f e = elim (Bool-cases (ltb len 1 || not allocated)) [
  | inl g ↦ absurd (ground arith)
  | inr g ↦
      subst (λ (q : Fifo). Represents q [] × (q.len ≡ len)) (given (rw g at e))
        (
          record {
            holds = record {
              start_within = ground arith;
              end_after = sym (mod-eq_of_lt (ground arith));
              at_most = omega arith;
              is_full = ground arith;
              is_empty = refl;
            };
            items = λ i l. absurd (omega arith);
          },
          refl,
        )
]
  where
    given : {q : Fifo} → some q ≡ some f → q ≡ f
    given {q} eq = ap (λ (o : Option Fifo). elim o as (λ _. Fifo) [ none ↦ f | some x ↦ x ]) eq

-- A queue that `fifo_init` makes, takes any bytes that fit its length, and then gives these bytes back
-- in their order.
pub make-take_all :
    (allocated : Bool) (len : ℕ) (f : Fifo) (xs : List ℕ)
    → make allocated len ≡ some f
    → length xs ≤ len
    → take_all (length xs) (put_all xs f) ≡ xs
make-take_all allocated len f xs e h =
    let (fresh, size) = make-Represents allocated len f e in
    take_all-Represents xs (put_all xs f) (put_all-Represents xs [] f fresh (omega (arith, size)))
