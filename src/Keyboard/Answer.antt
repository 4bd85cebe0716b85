-- ===== src/Keyboard/Answer.antt =====
-- The answer of a device of src/input/kbc_at_device.c to a command: the bytes that go into its command
-- queue, and the polls that bring them out.
use mathlib.Core.List.{append_assoc, append-nil, map}
use pculator.Base.{
  ℕ, zero, suc, ◌+◌, ◌≡◌, ◌≤◌, refl, sym, ap, subst, ◌∙◌, inl, inr, true, false, Option, none, some,
  List, [], ◌∷◌, ◌++◌, ◌==◌, ◌!=◌, if◌then◌else◌, Bool-cases, arith, update, update_self, ==_iff,
  update_ne, bit_and, bit_and_mask, length,
}
use pculator.Keyboard.{
  Device, main_want_in, main_in, queue_reset, queue_add, send, is_free, send_answer, advance, poll,
}

-- The bytes of a queue from `start` up to `end`.
Holds : (ℕ → ℕ) → ℕ → List ℕ → ℕ → Type 0
Holds q start [] end = start ≡ end
Holds q start (b ∷ bs) end = (q start ≡ b) × Holds q (suc start) bs end

Holds-length :
    (q : ℕ → ℕ) (start end : ℕ) (bs : List ℕ) → Holds q start bs end → start + length bs ≡ end
unfolding Holds
Holds-length q start end [] h = omega (arith, h)
Holds-length q start end (b ∷ bs) (_, h) = omega (arith, Holds-length q (suc start) end bs h)

-- A byte more at the end.
Holds-add :
    (q : ℕ → ℕ) (start end v : ℕ) (bs : List ℕ)
    → Holds q start bs end
    → Holds (update q end v) start (bs ++ (v ∷ [])) (suc end)
unfolding Holds
Holds-add q start end v [] h = (rw h (update_self q end v), ap suc h)
Holds-add q start end v (b ∷ bs) (e, h) = (
  update_ne q end start v
        (λ same. absurd (omega (arith, same, Holds-length q (suc start) end bs h)))
      ∙ e,
  Holds-add q (suc start) end v bs h,
)

module _ {D : Type 0} where
  -- A device puts the bytes of an answer into its command queue.
  pub answer : List ℕ → Device D → Device D
  answer [] k = k
  answer (b ∷ bs) k = answer bs (queue_add b false k)

  record Pending (k : Device D) (bs : List ℕ) : Type 0 where
    bytes : Holds k.cmd_queue k.cmd_queue_start bs k.cmd_queue_end
    bound : k.cmd_queue_end ≤ 15

  answer-Pending :
      (bs acc : List ℕ) (k : Device D)
      → k.cmd_queue_end + length bs ≤ 15
      → Pending k acc
      → Pending (answer bs k) (acc ++ bs)
  unfolding answer queue_add
  answer-Pending [] acc k h p = subst (λ xs. Pending k xs) (sym (append-nil acc)) p
  answer-Pending (b ∷ bs) acc k h p =
      let next : bit_and (k.cmd_queue_end + 1) 0x0F ≡ suc (k.cmd_queue_end) =
        bit_and_mask 4 (k.cmd_queue_end + 1) ∙ omega (arith, h) in
      let one : Pending (queue_add b false k) (acc ++ (b ∷ [])) = record {
        bytes =
            subst
              (λ n.
                Holds (update k.cmd_queue k.cmd_queue_end b) k.cmd_queue_start (acc ++ (b ∷ [])) n)
              (sym next) (Holds-add k.cmd_queue k.cmd_queue_start k.cmd_queue_end b acc p.bytes);
        bound = omega (arith, next, h);
      } in
      subst (λ xs. Pending (answer bs (queue_add b false k)) xs) (append_assoc acc (b ∷ []) bs)
        (answer-Pending bs (acc ++ (b ∷ [])) (queue_add b false k) (omega (arith, next, h)) one)

  module _ (process_cmd execute_bat : Device D → Device D) where
    -- The controller has taken the byte at the port, and polls the device.
    pub round : Device D → Device D
    round k = poll process_cmd execute_bat (record k { out_new = none })

    pub rounds : ℕ → Device D → Device D
    rounds zero k = k
    rounds (suc n) k = rounds n (round k)

    -- The bytes that `n` rounds bring to the port, of which a round may bring none.
    pub received : ℕ → Device D → List (Option ℕ)
    received zero k = []
    received (suc n) k = (round k).out_new ∷ received n (round k)

    round-state :
        (k : Device D)
        → k.state ≡ main_want_in
        → round k ≡ advance main_in (send_answer (record k { out_new = none }))
    unfolding round poll
    round-state k state = rw state refl

    -- One poll of a device that gives an answer.
    round_lem :
        (b : ℕ) (bs : List ℕ) (k : Device D)
        → k.state ≡ main_want_in
        → Pending k (b ∷ bs)
        → ((round k).out_new ≡ some b)
          × Pending (round k) bs
          × ((round k).state
              ≡ (if suc k.cmd_queue_start == k.cmd_queue_end then main_in else main_want_in))
          × ((round k).cmd_queue_start ≡ suc k.cmd_queue_start)
          × ((round k).cmd_queue_end ≡ k.cmd_queue_end)
    unfolding send_answer is_free send advance Holds
    round_lem b bs k state p =
        let total = Holds-length k.cmd_queue k.cmd_queue_start k.cmd_queue_end (b ∷ bs) p.bytes in
        let waiting : (k.cmd_queue_start != k.cmd_queue_end) ≡ true = ground (arith, total) in
        let next : bit_and (k.cmd_queue_start + 1) 0x0F ≡ suc k.cmd_queue_start =
          bit_and_mask 4 (k.cmd_queue_start + 1) ∙ omega (arith, total, p.bound) in
        let (first, others) = p.bytes in
        rw (round-state k state) (
          rw (waiting, first, next)
            (elim (Bool-cases (suc k.cmd_queue_start == k.cmd_queue_end)) [
              | inl e ↦ rw e (refl, (record { bytes = others; bound = p.bound }), refl, refl, refl)
              | inr e ↦ rw e (refl, (record { bytes = others; bound = p.bound }), state, refl, refl)
            ]))

    -- The polls of a device with an answer.
    drains :
        (b : ℕ) (bs : List ℕ) (k : Device D)
        → k.state ≡ main_want_in
        → Pending k (b ∷ bs)
        → (received (length (b ∷ bs)) k ≡ map some (b ∷ bs))
          × ((rounds (length (b ∷ bs)) k).state ≡ main_in)
          × ((rounds (length (b ∷ bs)) k).cmd_queue_start
              ≡ (rounds (length (b ∷ bs)) k).cmd_queue_end)
    unfolding received rounds
    drains b [] k state p =
        let (out, left, after, start, end) = round_lem b [] k state p in
        let total = Holds-length k.cmd_queue k.cmd_queue_start k.cmd_queue_end (b ∷ []) p.bytes in
        let empty : suc k.cmd_queue_start ≡ k.cmd_queue_end = omega (arith, total) in
        let done : (suc k.cmd_queue_start == k.cmd_queue_end) ≡ true = (==_iff _ _).1 empty in
        (ap (λ (x : Option ℕ). x ∷ []) out, after ∙ rw done refl, start ∙ empty ∙ sym end)
    drains b (c ∷ bs) k state p =
        let (out, left, after, start, end) = round_lem b (c ∷ bs) k state p in
        let total =
          Holds-length k.cmd_queue k.cmd_queue_start k.cmd_queue_end (b ∷ c ∷ bs) p.bytes in
        let more : (suc k.cmd_queue_start == k.cmd_queue_end) ≡ false = ground (arith, total) in
        let (rest, last, drained) = drains c bs (round k) (after ∙ rw more refl) left in
        ((λ i. out i ∷ rest i), last, drained)

    -- An answer comes out, and the device comes to rest. Where a device has reset its command queue, puts
    -- an answer of one to 15 bytes into it and goes to the state that waits for more input, exactly as
    -- many polls as the answer has bytes bring these bytes to the port, in order and one with each poll,
    -- and then the queue is empty and the device in the state for the next byte of the command. The
    -- controller takes a byte before it polls again.
    pub received-answer :
        (b : ℕ) (bs : List ℕ) (k : Device D)
        → length (b ∷ bs) ≤ 15
        → let ready : Device D = record (answer (b ∷ bs) (queue_reset false k)) {
          state = main_want_in;
        } in
          let last : Device D = rounds (length (b ∷ bs)) ready in
          (received (length (b ∷ bs)) ready ≡ map some (b ∷ bs))
          × (last.state ≡ main_in)
          × (last.cmd_queue_start ≡ last.cmd_queue_end)
    unfolding queue_reset Holds
    received-answer b bs k short =
        let full =
          answer-Pending (b ∷ bs) [] (queue_reset false k) (omega (arith, short))
            (record { bytes = refl; bound = omega arith }) in
        drains b bs (record (answer (b ∷ bs) (queue_reset false k)) { state = main_want_in }) refl
          (record { bytes = full.bytes; bound = full.bound })
