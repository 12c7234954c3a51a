-- ===== src/Memory/Result.antt =====
-- `runtime_memory_end` of mqtt_client/runtime_memory.c: the figures of one measurement.
use Prim.Native.Nat.{max}
use assessing_pq_mqtt_m_tls.Common.{
  ℕ, ◌+◌, ◌-◌, ◌%◌, ◌^◌, ◌≤◌, ◌<◌, ◌≡◌, refl, Bool, true, false, List, arith, ltb, if◌then◌else◌,
}
use assessing_pq_mqtt_m_tls.Memory.{Monitor, Stage, Op, run, begin_heap, observe_heap}
use assessing_pq_mqtt_m_tls.Memory.Stack.{Words, Painted, stack_guard_corrupted, stack_high_water}
use assessing_pq_mqtt_m_tls.Memory.Peak.{peak_over, run-begin_heap_peak, le-peak_over}

-- `runtime_memory_result_t`
pub record RuntimeMemoryResult : Type 0 where
  pub heap_capacity_bytes : ℕ
  pub heap_in_use_before_bytes : ℕ
  pub heap_peak_in_use_bytes : ℕ
  pub heap_peak_delta_bytes : ℕ
  pub heap_in_use_after_bytes : ℕ
  pub free_before_bytes : ℕ
  pub free_before_tls_bytes : ℕ
  pub min_free_bytes : ℕ
  pub free_after_bytes : ℕ
  pub maximum_allocation_request_bytes : ℕ
  pub allocation_calls : ℕ
  pub free_calls : ℕ
  pub failed_allocations : ℕ
  pub stack_capacity_bytes : ℕ
  pub stack_high_water_bytes : ℕ
  pub stack_unused_bytes : ℕ
  pub stack_guard_corrupted : Bool
  pub allocation_failed : Bool
  pub allocation_failure_bytes : ℕ
  pub allocation_failure_stage : Stage

-- `a > b ? a - b : 0`
abbrev pub over : ℕ → ℕ → ℕ
over a b = if ltb b a then a - b else 0

-- `(uint32_t)`
abbrev pub cast32 : ℕ → ℕ
cast32 n = n % 2 ^ 32

-- The linker's symbols for the stack, and `heap_capacity()`.
pub record Region : Type 0 where
  pub bottom : ℕ
  pub top : ℕ
  pub capacity : ℕ

abbrev turn_off : Monitor → Monitor
turn_off m = record m { monitoring = false }

unfoldable pub runtime_memory_end :
    Region → Painted → Words → ℕ → Monitor → RuntimeMemoryResult × Monitor
runtime_memory_end g p mem used m₀ =
    let m = turn_off (observe_heap used m₀) in
    let high_water = cast32 (stack_high_water g.bottom g.top p mem) in
    let stack_capacity = g.top - g.bottom in
    (
      record {
        heap_capacity_bytes = cast32 g.capacity;
        heap_in_use_before_bytes = cast32 m.heap_before;
        heap_peak_in_use_bytes = cast32 m.heap_peak;
        heap_peak_delta_bytes = cast32 (over m.heap_peak m.heap_before);
        heap_in_use_after_bytes = cast32 used;
        free_before_bytes = cast32 (over g.capacity m.heap_before);
        free_before_tls_bytes = cast32 m.free_before_tls;
        min_free_bytes = cast32 (over g.capacity m.heap_peak);
        free_after_bytes = cast32 (over g.capacity used);
        maximum_allocation_request_bytes = cast32 m.maximum_allocation_request;
        allocation_calls = m.allocation_calls;
        free_calls = m.free_calls;
        failed_allocations = m.failed_allocations;
        stack_capacity_bytes = cast32 stack_capacity;
        stack_high_water_bytes = high_water;
        stack_unused_bytes = cast32 (over stack_capacity high_water);
        stack_guard_corrupted = stack_guard_corrupted p mem;
        allocation_failed = m.allocation_failed;
        allocation_failure_bytes = cast32 m.allocation_failure_bytes;
        allocation_failure_stage = m.allocation_failure_stage;
      },
      m,
    )

-- What a report on a heap of `capacity` bytes should say, given the heap in use at the start, at the
-- end and at its peak.
pub record Consistent (capacity before after peak : ℕ) (r : RuntimeMemoryResult) : Type 0 where
  pub peak_bytes : r.heap_peak_in_use_bytes ≡ peak
  pub delta_bytes : r.heap_peak_delta_bytes + before ≡ peak
  pub before_total : r.free_before_bytes + before ≡ capacity
  pub after_total : r.free_after_bytes + after ≡ capacity
  pub min_total : r.min_free_bytes + peak ≡ capacity
  pub min-le-before : r.min_free_bytes ≤ r.free_before_bytes
  pub min-le-after : r.min_free_bytes ≤ r.free_after_bytes

end_of_run :
    (g : Region) (p : Painted) (mem : Words) (before after peak : ℕ) (m : Monitor)
    → g.capacity < 2 ^ 32
    → m.monitoring ≡ true
    → m.heap_before ≡ before
    → m.heap_peak ≡ peak
    → before ≤ peak
    → max peak after ≤ g.capacity
    → Consistent g.capacity before after (max peak after) (runtime_memory_end g p mem after m).0
unfolding runtime_memory_end observe_heap
end_of_run g p mem before after peak m c on b k le fits = ground arith

-- A measurement of any calls between `runtime_memory_begin` and `runtime_memory_end`, none of which
-- sees more in use than the heap holds: the peak in the report is the largest heap in use that was
-- seen, the free bytes and the bytes in use add up to the capacity at the start, at the end and at
-- the peak, the smallest number of free bytes is no larger than the other two, and the monitor is off.
pub runtime_memory_end_lem :
    (g : Region) (p : Painted) (mem : Words) (before after : ℕ) (ops : List Op) (m : Monitor)
    → g.capacity < 2 ^ 32
    → max (peak_over before ops) after ≤ g.capacity
    → let out = runtime_memory_end g p mem after (run ops (begin_heap before m)) in
      Consistent g.capacity before after (max (peak_over before ops) after) out.0
      × (out.1.monitoring ≡ false)
runtime_memory_end_lem g p mem before after ops m c fits =
    let (on, b, k) = run-begin_heap_peak before ops m in
    (
      end_of_run g p mem before after (peak_over before ops) (run ops (begin_heap before m)) c on b
          k (le-peak_over before ops) fits,
      unfold runtime_memory_end in refl,
    )
