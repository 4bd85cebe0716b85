-- ===== src/Cpu/Segment/Validate/Task.antt =====
-- `cpu_resolve_task_switch_target` of src/cpu/cpuhelper.h: the task that a selector names, at once or
-- through a task gate.
use pculator.Base.{
  ℕ, ◌+◌, ◌≡◌, ◌≢◌, ◌≤◌, refl, sym, ap, inl, inr, true, false, Option, none, some, ◌==◌, ltb,
  if◌then◌else◌, Bool-cases, bit_and, arith, ◌>>>◌, has,
}
use pculator.Cpu.Segment.{
  Bus, Processor, SegDesc, GateDesc, selector_offset, selector_error_code, desc_is_present,
  desc_is_tss, desc_is_busy_tss, desc_is_task_gate, read_segdesc, load_gate_desc, raise, read_byte,
  read_word, gate_is_32bit,
}
use pculator.Cpu.Segment.Validate.{
  Verdict, refused, accepted, resolve_task_switch_target, gate_task, task_verdict, settle, judged,
}
use pculator.Cpu.Segment.Validate.Verdicts.{IsProtection}

-- A task that may be switched to: its descriptor is an available task state segment.
pub record AvailableTask (target task : ℕ) (d : SegDesc) : Type 0 where
  pub global : has target 4 ≡ false
  pub segment : desc_is_tss d ≡ true
  pub present : desc_is_present d ≡ true
  pub idle : desc_is_busy_tss d ≡ false
  pub stripped : task ≡ bit_and target 0xFFFC

-- The right to use a gate or a task: its level is not below the weaker of the current level and the
-- requested one.
pub IsPrivileged : (cpl selector dpl : ℕ) → Type 0
IsPrivileged cpl selector dpl = (cpl ≤ dpl) × (bit_and selector 3 ≤ dpl)

-- The selector in a task gate: the word two bytes into it, after the byte at 4 has been read.
abbrev pub gate_selector : {S : Type 0} → Bus S → SegDesc → Processor S → ℕ × Processor S
gate_selector b d p = read_word b (d.addr + 2) (read_byte b (d.addr + 4) p).1

-- The state once the gate is read: its first word comes last.
abbrev pub gate_read : {S : Type 0} → Bus S → SegDesc → Processor S → Processor S
gate_read b d p = (read_word b d.addr (gate_selector b d p).1).1

pub data Resolved {S : Type 0} (b : Bus S) (selector : ℕ) (d : SegDesc) (p : Processor S)
    (r : Option ℕ × Processor S) : Type 0 where
  at_once :
      (task : ℕ)
      → r.0 ≡ some task
      → desc_is_task_gate d ≡ false
      → IsPrivileged p.cpl selector d.dpl
      → AvailableTask selector task d
      → Resolved b selector d p r
  through_gate :
      (task target : ℕ) (found : SegDesc)
      → r.0 ≡ some task
      → desc_is_task_gate d ≡ true
      → IsPrivileged p.cpl selector (bit_and (d.access >>> 5) 3)
      → (d.access >>> 7) ≢ 0
      → target ≡ (gate_selector b d p).0
      → selector_offset target ≢ 0
      → (read_segdesc b target (gate_read b d p)).0 ≡ some found
      → AvailableTask target task found
      → Resolved b selector d p r
  task_fault :
      (vector error : ℕ) (q : Processor S)
      → IsProtection vector
      → r ≡ (none, raise b vector error q)
      → Resolved b selector d p r

-- The verdict on the descriptor of a task.
data Tested (selector : ℕ) (d : SegDesc) (v : Verdict ℕ) : Type 0 where
  passed :
      (task : ℕ)
      → v ≡ accepted task
      → desc_is_tss d ≡ true
      → desc_is_present d ≡ true
      → desc_is_busy_tss d ≡ false
      → task ≡ bit_and selector 0xFFFC
      → Tested selector d v
  failed : (vector error : ℕ) → v ≡ refused vector error → IsProtection vector → Tested selector d v

task_verdict-Tested : (selector : ℕ) (d : SegDesc) → Tested selector d (task_verdict selector d)
unfolding task_verdict IsProtection
task_verdict-Tested selector d = elim (Bool-cases (desc_is_tss d)) [
  | inr e ↦ rw e (failed 13 (selector_error_code selector) refl (inl refl))
  | inl e ↦ rw e (elim (Bool-cases (desc_is_present d)) [
    | inr f ↦ rw f (failed 11 (selector_error_code selector) refl (inr refl))
    | inl f ↦ rw f (elim (Bool-cases (desc_is_busy_tss d)) [
      | inl g ↦ rw g (failed 13 (selector_error_code selector) refl (inl refl))
      | inr g ↦ rw g (passed (bit_and selector 0xFFFC) refl e f g refl)
    ])
  ])
]

module _ {S : Type 0} (b : Bus S) (selector : ℕ) (d : SegDesc) (p : Processor S) where
  -- What the caller states of the weaker of two levels.
  abbrev weaker : ℕ
  weaker = if ltb p.cpl (bit_and selector 3) then bit_and selector 3 else p.cpl

  found_task :
      (target : ℕ) (r : Option SegDesc × Processor S)
      → r.0 ≡ (read_segdesc b target (gate_read b d p)).0
      → desc_is_task_gate d ≡ true
      → IsPrivileged p.cpl selector (bit_and (d.access >>> 5) 3)
      → (d.access >>> 7) ≢ 0
      → target ≡ (gate_selector b d p).0
      → selector_offset target ≢ 0
      → has target 4 ≡ false
      → Resolved b selector d p (settle b (judged 13 target (task_verdict target) r))
  unfolding settle judged IsProtection
  found_task target (none, t) same gate right present named real global =
      task_fault 13 (selector_error_code target) t (inl refl) refl
  found_task target (some found, t) same gate right present named real global =
      elim (task_verdict-Tested target found) [
        | passed task accept segment here idle stripped ↦ rw accept (
            through_gate task target found refl gate right present named real (sym same) (record {
              global = global;
              segment = segment;
              present = here;
              idle = idle;
              stripped = stripped;
            }))
        | failed vector error refuse known ↦ rw refuse (task_fault vector error t known refl)
      ]

  -- A task gate has the layout of the short gates.
  task_gate_short : desc_is_task_gate d ≡ true → gate_is_32bit (bit_and d.access 0x0F) ≡ false
  unfolding desc_is_task_gate gate_is_32bit
  task_gate_short gate = ground (arith, gate)

  same_fields :
      desc_is_task_gate d ≡ true
      → let (gate, q) = load_gate_desc b d.addr d.access d.flags p in
        (gate.dpl ≡ bit_and (d.access >>> 5) 3)
        × (gate.present ≡ d.access >>> 7)
        × (gate.target_selector ≡ (gate_selector b d p).0)
        × (q ≡ gate_read b d p)
  unfolding load_gate_desc
  same_fields gate = rw (task_gate_short gate) (refl, refl, refl, refl)

  gate_path :
      desc_is_task_gate d ≡ true
      → Resolved b selector d p (settle b (gate_task b selector weaker d p))
  unfolding gate_task settle IsProtection IsPrivileged
  gate_path gate =
      let g : GateDesc = (load_gate_desc b d.addr d.access d.flags p).0 in
      let q = (load_gate_desc b d.addr d.access d.flags p).1 in
      let (level, present, named, last) = same_fields gate in
      elim (Bool-cases (ltb g.dpl weaker)) [
        | inl e ↦ rw e (task_fault 13 (selector_error_code selector) q (inl refl) refl)
        | inr e ↦ rw e (elim (Bool-cases (g.present == 0)) [
          | inl f ↦ rw f (task_fault 11 (selector_error_code selector) q (inr refl) refl)
          | inr f ↦ rw f (elim (Bool-cases (selector_offset g.target_selector == 0)) [
            | inl h ↦ rw h (task_fault 13 0 q (inl refl) refl)
            | inr h ↦ rw h (elim (Bool-cases (has g.target_selector 4)) [
              | inl k ↦
                  rw k (task_fault 13 (selector_error_code g.target_selector) q (inl refl) refl)
              | inr k ↦ rw k (
                  found_task g.target_selector (read_segdesc b g.target_selector q)
                    (ap (λ (x : Processor S). (read_segdesc b g.target_selector x).0) last) gate
                    (ground (arith, e, level), ground (arith, e, level))
                    (λ zero_now. ground (arith, f, present, zero_now)) named
                    (λ zero_now. ground (arith, h, zero_now)) k)
            ])
          ])
        ])
      ]

  direct_path :
      desc_is_task_gate d ≡ false
      → has selector 4 ≡ false
      → IsPrivileged p.cpl selector d.dpl
      → Resolved b selector d p (settle b (task_verdict selector d, p))
  unfolding settle
  direct_path direct global right = elim (task_verdict-Tested selector d) [
    | passed task accept segment here idle stripped ↦ rw accept (
        at_once task refl direct right (record {
          global = global;
          segment = segment;
          present = here;
          idle = idle;
          stripped = stripped;
        }))
    | failed vector error refuse known ↦ rw refuse (task_fault vector error p known refl)
  ]

  -- A task switch starts only an available task that the code may use. Either the selector names the
  -- task itself, or it is the descriptor of a present task gate, and the task is the one that the word
  -- two bytes into the gate names, looked up right after the gate is read: then the privilege of the
  -- task, or of the gate, is not below the current level nor below the level that the selector asks
  -- for, the task is in the global table, its descriptor is a present task state segment that is not
  -- busy, and the result is its selector without the requested level. Or a general protection or a not-present exception is
  -- raised, and there is no task.
  pub resolve_task_switch_target_lem :
      Resolved b selector d p (resolve_task_switch_target b selector d p)
  unfolding resolve_task_switch_target settle IsProtection IsPrivileged
  resolve_task_switch_target_lem = elim (Bool-cases (desc_is_task_gate d)) [
    | inl e ↦ rw e (gate_path e)
    | inr e ↦ rw e (elim (Bool-cases (has selector 4)) [
      | inl f ↦ rw f (task_fault 13 (selector_error_code selector) p (inl refl) refl)
      | inr f ↦ rw f (elim (Bool-cases (ltb d.dpl weaker)) [
        | inl g ↦ rw g (task_fault 13 (selector_error_code selector) p (inl refl) refl)
        | inr g ↦ rw g (direct_path e f (ground (arith, g), ground (arith, g)))
      ])
    ])
  ]
