-- ===== src/Memory/Failure.antt =====
-- Which allocation failure a measurement reports, and how many calls it counts.
use assessing_pq_mqtt_m_tls.Common.{
  ℕ, zero, suc, ◌≡◌, refl, sym, ap₂, ◌∙◌, Bool, true, false, Option, some, none, List, [], ◌∷◌,
  arith, if◌then◌else◌,
}
use assessing_pq_mqtt_m_tls.Memory.{
  Monitor, Stage, idle, Op, malloc, realloc, free, set_stage, observe, mark_tls_start, note_failure,
  apply, run, begin_heap, observe_heap, runtime_memory_note_allocation_failure,
  runtime_memory_observe, runtime_memory_set_stage, runtime_memory_mark_tls_start,
  allocation_observed, wrap_malloc_r, wrap_realloc_r, wrap_free_r,
}

-- The failure that the monitor has recorded: the size that was asked for, and the phase.
abbrev pub recorded : Monitor → Option (ℕ × Stage)
recorded m =
    if m.allocation_failed
    then some (m.allocation_failure_bytes, m.allocation_failure_stage)
    else none

abbrev pub refusal : ℕ → Bool → Stage → Option (ℕ × Stage)
refusal size true s = none
refusal zero false s = none
refusal (suc n) false s = some (suc n, s)

-- The failure that a call shows in phase `s`, and the phase after the call.
abbrev pub failure_in : Stage → Op → Option (ℕ × Stage)
failure_in s (malloc size ptr used) = refusal size ptr s
failure_in s (realloc size ptr used) = refusal size ptr s
failure_in s (note_failure requested) = refusal requested false s
failure_in s (free ptr used) = none
failure_in s (set_stage stage used) = none
failure_in s (observe used) = none
failure_in s (mark_tls_start capacity used) = none

abbrev pub stage_after : Stage → Op → Stage
stage_after s (set_stage stage used) = stage
stage_after s op = s

abbrev pub or_else : Option (ℕ × Stage) → Option (ℕ × Stage) → Option (ℕ × Stage)
or_else (some f) g = some f
or_else none g = g

abbrev pub first_failure : Stage → List Op → Option (ℕ × Stage)
first_failure s [] = none
first_failure s (op ∷ ops) = or_else (failure_in s op) (first_failure (stage_after s op) ops)

-- The allocator calls among the calls.
abbrev pub allocations : List Op → ℕ
allocations [] = 0
allocations (malloc size ptr used ∷ ops) = suc (allocations ops)
allocations (realloc size ptr used ∷ ops) = suc (allocations ops)
allocations (op ∷ ops) = allocations ops

record Latches (m : Monitor) (op : Op) (m' : Monitor) : Type 0 where
  on : m'.monitoring ≡ true
  stage : m'.current_stage ≡ stage_after m.current_stage op
  failure : recorded m' ≡ or_else (recorded m) (failure_in m.current_stage op)

apply-Latches : (op : Op) (m : Monitor) → m.monitoring ≡ true → Latches m op (apply op m)
unfolding apply observe_heap wrap_malloc_r wrap_realloc_r wrap_free_r runtime_memory_set_stage
    runtime_memory_observe runtime_memory_mark_tls_start allocation_observed
    runtime_memory_note_allocation_failure
apply-Latches (malloc zero ptr used) m h = ground arith
apply-Latches (malloc (suc n) ptr used) m h = ground arith
apply-Latches (realloc zero ptr used) m h = ground arith
apply-Latches (realloc (suc n) ptr used) m h = ground arith
apply-Latches (free ptr used) m h = ground arith
apply-Latches (set_stage s used) m h = ground arith
apply-Latches (observe used) m h = ground arith
apply-Latches (mark_tls_start capacity used) m h = ground arith
apply-Latches (note_failure zero) m h = ground arith
apply-Latches (note_failure (suc n)) m h = ground arith

or_else_assoc : (a b c : Option (ℕ × Stage)) → or_else (or_else a b) c ≡ or_else a (or_else b c)
or_else_assoc none b c = refl
or_else_assoc (some f) b c = refl

or_else-none : (a : Option (ℕ × Stage)) → or_else a none ≡ a
or_else-none none = refl
or_else-none (some f) = refl

run-recorded :
    (ops : List Op) (m : Monitor)
    → m.monitoring ≡ true
    → recorded (run ops m) ≡ or_else (recorded m) (first_failure m.current_stage ops)
unfolding run
run-recorded [] m h = sym (or_else-none (recorded m))
run-recorded (op ∷ ops) m h =
    let l = apply-Latches op m h in
    run-recorded ops (apply op m) l.on
    ∙ ap₂ (λ (f : Option (ℕ × Stage)) (s : Stage). or_else f (first_failure s ops)) l.failure
        l.stage
    ∙ or_else_assoc (recorded m) (failure_in m.current_stage op) _

-- Over any calls after `runtime_memory_begin` the monitor records the first request of a size above
-- 0 that failed, with the phase that was current then, and no failure if there was none: later
-- failures change nothing.
pub run-begin_heap_failure :
    (used : ℕ) (ops : List Op) (m : Monitor)
    → recorded (run ops (begin_heap used m)) ≡ first_failure idle ops
unfolding begin_heap
run-begin_heap_failure used ops m = run-recorded ops (begin_heap used m) refl
