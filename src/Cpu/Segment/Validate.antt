-- ===== src/Cpu/Segment/Validate.antt =====
-- src/cpu/cpuhelper.h, the checks of a selector before control or a stack is handed over. A check
-- comes to a verdict on the descriptor, which a refusal turns into the exception; an accepted stack or
-- code selector carries the descriptor that the check read, where the C function returns 1.
pub mod Verdicts
pub mod Return
pub mod Targets
pub mod Stack
pub mod Task
use pculator.Base.{
  ℕ, ◌+◌, Bool, true, false, not, ◌&&◌, ◌||◌, Option, none, some, ◌==◌, ◌!=◌, ltb, if◌then◌else◌,
  bit_and, u16, u32, has, ◌<<<◌,
}
use pculator.Cpu.Segment.{
  Bus, Processor, SegDesc, GateDesc, selector_offset, selector_error_code, normalize_selector,
  desc_is_present, desc_is_code, desc_is_conforming_code, desc_is_writable_data, desc_is_task_gate,
  desc_is_tss, desc_is_busy_tss, read_segdesc, load_gate_desc, read_word, read_long, raise,
}

pub data Verdict (A : Type 0) : Type 0 where
  refused : (vector error : ℕ) → Verdict A
  accepted : A → Verdict A

-- `CODETARGET_t`.
pub record CodeTarget : Type 0 where
  pub selector : ℕ
  pub target_cpl : ℕ
  pub conforming : ℕ
  pub outer : ℕ

-- `RETURNCS_t`.
pub record ReturnCs : Type 0 where
  pub selector : ℕ
  pub target_cpl : ℕ
  pub outer : ℕ

unfoldable pub and_then : {A B : Type 0} → Verdict A → (A → Verdict B) → Verdict B
and_then (refused vector error) next = refused vector error
and_then (accepted a) next = next a

-- The tests of `cpu_validate_stack_selector` on the descriptor.
unfoldable pub stack_verdict :
    (invalid_vector not_present_vector : ℕ) → ℕ → ℕ → SegDesc → Verdict SegDesc
stack_verdict invalid missing selector target_cpl d =
    if not (desc_is_writable_data d)
    then refused invalid (selector_error_code selector)
    else if not (desc_is_present d)
    then refused missing (selector_error_code selector)
    else if bit_and selector 3 != target_cpl || d.dpl != target_cpl
    then refused invalid (selector_error_code selector)
    else accepted d

-- The tests of `cpu_read_code_desc` on the descriptor.
unfoldable pub code_verdict : (not_present_vector : ℕ) → ℕ → SegDesc → Verdict SegDesc
code_verdict missing selector d =
    if not (desc_is_code d)
    then refused 13 (selector_error_code selector)
    else if not (desc_is_present d)
    then refused missing (selector_error_code selector)
    else accepted d

unfoldable pub gate_target : (cpl : ℕ) → ℕ → SegDesc → Verdict CodeTarget
gate_target cpl selector d =
    if ltb cpl d.dpl
    then refused 13 (selector_error_code selector)
    else if desc_is_conforming_code d
    then accepted (record {
      selector = normalize_selector selector cpl;
      target_cpl = cpl;
      conforming = 1;
      outer = 0;
    })
    else accepted (record {
      selector = normalize_selector selector d.dpl;
      target_cpl = d.dpl;
      conforming = 0;
      outer = if ltb d.dpl cpl then 1 else 0;
    })

unfoldable pub direct_target : (cpl : ℕ) → ℕ → SegDesc → Verdict CodeTarget
direct_target cpl selector d =
    let rpl = bit_and selector 3 in
    let epl = if ltb cpl rpl then rpl else cpl in
    let target : CodeTarget = record {
      selector = normalize_selector selector cpl;
      target_cpl = cpl;
      conforming = if desc_is_conforming_code d then 1 else 0;
      outer = 0;
    } in
    if desc_is_conforming_code d
    then (if ltb epl d.dpl then refused 13 (selector_error_code selector) else accepted target)
    else if d.dpl != cpl || ltb cpl rpl
    then refused 13 (selector_error_code selector)
    else accepted target

unfoldable pub return_target : (cpl : ℕ) → ℕ → SegDesc → Verdict ReturnCs
return_target cpl selector d =
    let rpl = bit_and selector 3 in
    if desc_is_conforming_code d
    then (if rpl != cpl || ltb cpl d.dpl
        then refused 13 (selector_error_code selector)
        else accepted (record { selector = selector; target_cpl = cpl; outer = 0 }))
    else if ltb rpl cpl
    then refused 13 (selector_error_code selector)
    else if d.dpl != rpl
    then refused 13 (selector_error_code selector)
    else accepted
        (record { selector = selector; target_cpl = rpl; outer = if ltb cpl rpl then 1 else 0 })

-- The last three tests of `cpu_resolve_task_switch_target`.
unfoldable pub task_verdict : ℕ → SegDesc → Verdict ℕ
task_verdict selector d =
    if not (desc_is_tss d)
    then refused 13 (selector_error_code selector)
    else if not (desc_is_present d)
    then refused 11 (selector_error_code selector)
    else if desc_is_busy_tss d
    then refused 13 (selector_error_code selector)
    else accepted (bit_and selector 0xFFFC)

module _ {S : Type 0} where
  -- The verdict on what `cpu_read_segdesc` found.
  unfoldable pub judged :
      {A : Type 0}
      → ℕ
      → ℕ
      → (SegDesc → Verdict A)
      → Option SegDesc × Processor S
      → Verdict A × Processor S
  judged invalid selector judge (none, p) = (refused invalid (selector_error_code selector), p)
  judged invalid selector judge (some d, p) = (judge d, p)

  -- The two checks that come before every other: a null selector, and the limit of the table.
  unfoldable pub checked :
      {A : Type 0} → Bus S → ℕ → ℕ → (SegDesc → Verdict A) → Processor S → Verdict A × Processor S
  unfolding judged
  checked b invalid selector judge p =
      if selector_offset selector == 0
      then (refused invalid 0, p)
      else judged invalid selector judge (read_segdesc b selector p)

  -- `exception(...); return 0;` for a refusal.
  unfoldable pub settle : {A : Type 0} → Bus S → Verdict A × Processor S → Option A × Processor S
  settle b (refused vector error, p) = (none, raise b vector error p)
  settle b (accepted a, p) = (some a, p)

  unfoldable pub validate_stack_selector :
      Bus S
      → ℕ
      → ℕ
      → (invalid_vector not_present_vector : ℕ) → Processor S
      → Option SegDesc × Processor S
  unfolding settle checked
  validate_stack_selector b selector target_cpl invalid missing p =
      settle b (checked b invalid selector (stack_verdict invalid missing selector target_cpl) p)

  unfoldable pub read_code_desc : Bus S → ℕ → ℕ → Processor S → Option SegDesc × Processor S
  unfolding settle checked
  read_code_desc b selector missing p =
      settle b (checked b 13 selector (code_verdict missing selector) p)

  unfoldable pub validate_gate_target_code :
      Bus S → ℕ → Processor S → Option CodeTarget × Processor S
  unfolding settle checked
  validate_gate_target_code b selector p = settle b (
      checked b 13 selector
        (λ d. and_then (code_verdict 11 selector d) (gate_target p.cpl selector)) p)

  unfoldable pub validate_direct_call_target :
      Bus S → ℕ → Processor S → Option CodeTarget × Processor S
  unfolding settle checked
  validate_direct_call_target b selector p = settle b (
      checked b 13 selector
        (λ d. and_then (code_verdict 11 selector d) (direct_target p.cpl selector)) p)

  unfoldable pub validate_return_cs : Bus S → ℕ → Processor S → Option ReturnCs × Processor S
  unfolding settle checked
  validate_return_cs b selector p = settle b (
      checked b 13 selector
        (λ d. and_then (code_verdict 11 selector d) (return_target p.cpl selector)) p)

  unfoldable pub validate_return_ss : Bus S → ℕ → ℕ → Processor S → Option SegDesc × Processor S
  unfolding validate_stack_selector
  validate_return_ss b selector target_cpl p = validate_stack_selector b selector target_cpl 13 12 p

  -- The selector and the descriptor that a task gate leads to.
  unfoldable pub gate_task : Bus S → ℕ → ℕ → SegDesc → Processor S → Verdict ℕ × Processor S
  unfolding judged
  gate_task b selector epl d p =
      let (gate, q) = load_gate_desc b d.addr d.access d.flags p in
      let target = gate.target_selector in
      if ltb gate.dpl epl
      then (refused 13 (selector_error_code selector), q)
      else if gate.present == 0
      then (refused 11 (selector_error_code selector), q)
      else if selector_offset target == 0
      then (refused 13 0, q)
      else if has target 4
      then (refused 13 (selector_error_code target), q)
      else judged 13 target (task_verdict target) (read_segdesc b target q)

  unfoldable pub resolve_task_switch_target :
      Bus S → ℕ → SegDesc → Processor S → Option ℕ × Processor S
  unfolding settle gate_task
  resolve_task_switch_target b selector d p =
      let rpl = bit_and selector 3 in
      let epl = if ltb p.cpl rpl then rpl else p.cpl in
      if desc_is_task_gate d
      then settle b (gate_task b selector epl d p)
      else if has selector 4
      then settle b (refused 13 (selector_error_code selector), p)
      else if ltb d.dpl epl
      then settle b (refused 13 (selector_error_code selector), p)
      else settle b (task_verdict selector d, p)

  -- The selector and the pointer of the stack for `target_cpl`, and whether they are valid.
  unfoldable pub fetch_tss_stack : Bus S → ℕ → Processor S → Option (ℕ × ℕ) × Processor S
  unfolding settle validate_stack_selector
  fetch_tss_stack b target_cpl p =
      let addval = target_cpl <<< 3 in
      let (new_esp, q) = read_long b (p.trbase + 4 + addval) p in
      let (new_ss, r) = read_word b (p.trbase + 8 + addval) q in
      let (stack, t) = validate_stack_selector b new_ss target_cpl 10 12 r in
      if ltb 2 target_cpl
      then (none, raise b 10 p.tr_selector p)
      else if ltb p.trlimit (10 + addval)
      then (none, raise b 10 p.tr_selector p)
      else (
        elim stack as (λ _. Option (ℕ × ℕ)) [ none ↦ none | some _ ↦ some (new_ss, new_esp) ],
        t,
      )
