-- ===== src/Memory/Peak.antt =====
-- The heap figures of a measurement.
use assessing_pq_mqtt_m_tls.Common.{ℕ, ◌≤◌, ◌≡◌, refl, ap, ◌∙◌, true, List, [], ◌∷◌, arith}
use Prim.Native.Nat.{max}
use assessing_pq_mqtt_m_tls.Memory.{
  Monitor, Op, malloc, realloc, free, set_stage, observe, mark_tls_start, note_failure, apply, run,
  begin_heap, observe_heap, runtime_memory_note_allocation_failure, runtime_memory_observe,
  runtime_memory_set_stage, runtime_memory_mark_tls_start, allocation_observed, wrap_malloc_r,
  wrap_realloc_r, wrap_free_r,
}

-- The heap in use that a call looks at; the note of a failure looks at none.
abbrev pub peak_with : ℕ → Op → ℕ
peak_with p (malloc size ptr used) = max p used
peak_with p (realloc size ptr used) = max p used
peak_with p (free ptr used) = max p used
peak_with p (set_stage stage used) = max p used
peak_with p (observe used) = max p used
peak_with p (mark_tls_start capacity used) = max p used
peak_with p (note_failure requested) = p

abbrev pub peak_over : ℕ → List Op → ℕ
peak_over p [] = p
peak_over p (op ∷ ops) = peak_over (peak_with p op) ops

-- What a call does to a monitor that is on.
record Looks (m : Monitor) (op : Op) (m' : Monitor) : Type 0 where
  on : m'.monitoring ≡ true
  before : m'.heap_before ≡ m.heap_before
  peak : m'.heap_peak ≡ peak_with m.heap_peak op

apply-Looks : (op : Op) (m : Monitor) → m.monitoring ≡ true → Looks m op (apply op m)
unfolding apply observe_heap wrap_malloc_r wrap_realloc_r wrap_free_r runtime_memory_set_stage
    runtime_memory_observe runtime_memory_mark_tls_start allocation_observed
    runtime_memory_note_allocation_failure
apply-Looks (malloc size ptr used) m h = ground arith
apply-Looks (realloc size ptr used) m h = ground arith
apply-Looks (free ptr used) m h = ground arith
apply-Looks (set_stage stage used) m h = ground arith
apply-Looks (observe used) m h = ground arith
apply-Looks (mark_tls_start capacity used) m h = ground arith
apply-Looks (note_failure requested) m h = ground arith

run-Looks :
    (ops : List Op) (m : Monitor)
    → m.monitoring ≡ true
    → ((run ops m).monitoring ≡ true)
      × ((run ops m).heap_before ≡ m.heap_before)
      × ((run ops m).heap_peak ≡ peak_over m.heap_peak ops)
unfolding run
run-Looks [] m h = (h, refl, refl)
run-Looks (op ∷ ops) m h =
    let l = apply-Looks op m h in
    let (a, b, c) = run-Looks ops (apply op m) l.on in
    (a, b ∙ l.before, c ∙ ap (λ (p : ℕ). peak_over p ops) l.peak)

-- Over any calls after `runtime_memory_begin` the monitor stays on, remembers the heap in use at the
-- start, and its peak is the largest heap in use that the start or one of the calls looked at.
pub run-begin_heap_peak :
    (used : ℕ) (ops : List Op) (m : Monitor)
    → ((run ops (begin_heap used m)).monitoring ≡ true)
      × ((run ops (begin_heap used m)).heap_before ≡ used)
      × ((run ops (begin_heap used m)).heap_peak ≡ peak_over used ops)
unfolding begin_heap
run-begin_heap_peak used ops m = run-Looks ops (begin_heap used m) refl

pub le-peak_over : (p : ℕ) (ops : List Op) → p ≤ peak_over p ops
le-peak_over p [] = omega arith
le-peak_over p (malloc size ptr used ∷ ops) = omega (arith, le-peak_over (max p used) ops)
le-peak_over p (realloc size ptr used ∷ ops) = omega (arith, le-peak_over (max p used) ops)
le-peak_over p (free ptr used ∷ ops) = omega (arith, le-peak_over (max p used) ops)
le-peak_over p (set_stage stage used ∷ ops) = omega (arith, le-peak_over (max p used) ops)
le-peak_over p (observe used ∷ ops) = omega (arith, le-peak_over (max p used) ops)
le-peak_over p (mark_tls_start capacity used ∷ ops) = omega (arith, le-peak_over (max p used) ops)
le-peak_over p (note_failure requested ∷ ops) = le-peak_over p ops
