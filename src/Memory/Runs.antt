-- ===== src/Memory/Runs.antt =====
-- Runs of the heap monitor and of the stack scan, and the theorems about them at concrete inputs.
use Prim.Native.Nat.{max}
use assessing_pq_mqtt_m_tls.Common.{
  ◌≡◌, refl, true, false, List, [], ◌∷◌, some, arith, ltb, if◌then◌else◌, ◌-◌,
}
use assessing_pq_mqtt_m_tls.Memory.{
  Monitor, idle, tcp, certificate, Op, malloc, free, set_stage, mark_tls_start, run, begin_heap,
  apply, observe_heap, wrap_malloc_r, wrap_free_r, runtime_memory_set_stage,
  runtime_memory_mark_tls_start, allocation_observed, runtime_memory_note_allocation_failure,
}
use assessing_pq_mqtt_m_tls.Memory.Failure.{recorded, first_failure, run-begin_heap_failure}
use assessing_pq_mqtt_m_tls.Memory.Stack.{
  Words, Painted, paint_bounds, paint, stack_guard_corrupted, stack_high_water,
}
use assessing_pq_mqtt_m_tls.Memory.Stack.HighWater.{Layout, GrownTo, stack_high_water_lem}
use assessing_pq_mqtt_m_tls.Memory.Result.{
  Region, Consistent, runtime_memory_end, runtime_memory_end_lem,
}

abbrev off : Monitor
off = record {
  monitoring = false;
  current_stage = idle;
  heap_before = 0;
  heap_peak = 0;
  free_before_tls = 0;
  maximum_allocation_request = 0;
  allocation_calls = 0;
  free_calls = 0;
  failed_allocations = 0;
  allocation_failed = false;
  allocation_failure_bytes = 0;
  allocation_failure_stage = idle;
}

-- An allocation that fails while a certificate is loaded, then one that fails later.
abbrev script : List Op
script =
    set_stage tcp 100
    ∷ malloc 50 true 150
    ∷ mark_tls_start 1000 150
    ∷ set_stage certificate 150
    ∷ malloc 900 false 150
    ∷ free true 100
    ∷ malloc 950 false 100
    ∷ []

script_failure : recorded (run script (begin_heap 100 off)) ≡ some (900, certificate)
unfolding run begin_heap apply observe_heap wrap_malloc_r wrap_free_r runtime_memory_set_stage
    runtime_memory_mark_tls_start allocation_observed runtime_memory_note_allocation_failure
script_failure = refl

run-begin_heap_failure_example :
    recorded (run script (begin_heap 100 off)) ≡ first_failure idle script
run-begin_heap_failure_example = run-begin_heap_failure 100 script off

abbrev region : Region
region = record { bottom = 1000; top = 2000; capacity = 1000 }

abbrev bounds : Painted
bounds = record { painted = true; paint_begin = 1000; guard_end = 1064; paint_end = 1300 }

bounds_at_1428 : paint_bounds 1000 2000 1428 ≡ bounds
unfolding paint_bounds
bounds_at_1428 = refl

abbrev blank : Words
blank a = 7

-- The stack has grown down to 1200 and has left zeros there.
abbrev used_words : Words
used_words a = if ltb a 1200 then paint bounds blank a else 0

bounds-Layout : Layout bounds
bounds-Layout = record {
  is_painted = refl;
  not_null = omega arith;
  guard_above = omega arith;
  end_above = omega arith;
  begin_aligned = refl;
  guard_aligned = refl;
  end_aligned = refl;
}

grown : GrownTo bounds (paint bounds blank) used_words 1200
grown = record {
  within_low = omega arith;
  within_high = omega arith;
  aligned = refl;
  kept = λ a h k. ground arith;
  touched = λ h e. ground arith;
}

stack_high_water_lem_example :
    (stack_guard_corrupted bounds used_words ≡ false)
    × (stack_high_water 1000 2000 bounds used_words ≡ 2000 - 1200)
stack_high_water_lem_example =
    stack_high_water_lem bounds blank used_words 1200 bounds-Layout grown 1000 2000

runtime_memory_end_lem_example :
    let out = runtime_memory_end region bounds used_words 120 (run script (begin_heap 100 off)) in
    Consistent 1000 100 120 (max 150 120) out.0 × (out.1.monitoring ≡ false)
runtime_memory_end_lem_example =
    runtime_memory_end_lem region bounds used_words 100 120 script off (omega arith) (omega arith)
