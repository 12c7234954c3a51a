-- ===== src/Memory.antt =====
-- mqtt_client/runtime_memory.c: the heap monitor behind the allocator wrappers, with the phases of
-- runtime_memory.h. The value of `mallinfo().uordblks` at a call is the argument `used`.
pub mod Stack
pub mod Result
pub mod Peak
pub mod Failure
mod Runs
use Prim.Native.String.{String}
use assessing_pq_mqtt_m_tls.Common.{
  ℕ, ◌+◌, ◌-◌, ◌%◌, ◌^◌, Bool, true, false, not, ◌&&◌, ◌||◌, List, [], ◌∷◌, ltb, ◌==◌, ◌!=◌,
  if◌then◌else◌,
}

-- `runtime_mem_stage_t`
pub data Stage : Type 0 where
  idle dns tcp tls_context certificate private_key key_share tls_handshake : Stage
  server_cert_verify client_cert_verify primitive_sign primitive_verify mqtt close : Stage

unfoldable pub runtime_memory_stage_name : Stage → String
runtime_memory_stage_name dns = "dns"
runtime_memory_stage_name tcp = "tcp"
runtime_memory_stage_name tls_context = "tls_context"
runtime_memory_stage_name certificate = "certificate"
runtime_memory_stage_name private_key = "private_key"
runtime_memory_stage_name key_share = "key_share"
runtime_memory_stage_name tls_handshake = "tls_handshake"
runtime_memory_stage_name server_cert_verify = "server_certificate_verify"
runtime_memory_stage_name client_cert_verify = "client_certificate_verify"
runtime_memory_stage_name primitive_sign = "primitive_sign"
runtime_memory_stage_name primitive_verify = "primitive_verify"
runtime_memory_stage_name mqtt = "mqtt"
runtime_memory_stage_name close = "close"
runtime_memory_stage_name idle = "none"

-- The static variables of the file, but those of the stack (see `Stack`).
pub record Monitor : Type 0 where
  pub monitoring : Bool
  pub current_stage : Stage
  pub heap_before : ℕ
  pub heap_peak : ℕ
  pub free_before_tls : ℕ
  pub maximum_allocation_request : ℕ
  pub allocation_calls : ℕ
  pub free_calls : ℕ
  pub failed_allocations : ℕ
  pub allocation_failed : Bool
  pub allocation_failure_bytes : ℕ
  pub allocation_failure_stage : Stage

-- `uint32_t` increment
abbrev pub incr32 : ℕ → ℕ
incr32 n = (n + 1) % 2 ^ 32

unfoldable pub observe_heap : ℕ → Monitor → Monitor
observe_heap used m =
    if not m.monitoring
    then m
    else if ltb m.heap_peak used
    then record m { heap_peak = used }
    else m

unfoldable pub runtime_memory_note_allocation_failure : ℕ → Monitor → Monitor
runtime_memory_note_allocation_failure requested m =
    if not m.monitoring || (requested == 0 || m.allocation_failed) then m else record m {
      allocation_failed = true;
      allocation_failure_bytes = requested;
      allocation_failure_stage = m.current_stage;
    }

unfoldable pub runtime_memory_observe : ℕ → Monitor → Monitor
runtime_memory_observe used m = observe_heap used m

unfoldable pub runtime_memory_set_stage : Stage → ℕ → Monitor → Monitor
runtime_memory_set_stage stage used m = observe_heap used (record m { current_stage = stage })

-- `heap_capacity`, from the symbols of the linker script
unfoldable pub heap_capacity : ℕ → ℕ → ℕ → ℕ
heap_capacity heap_start heap_end stack_bottom =
    let end = if ltb stack_bottom heap_end then stack_bottom else heap_end in
    if ltb heap_start end then end - heap_start else 0

unfoldable pub runtime_memory_mark_tls_start : ℕ → ℕ → Monitor → Monitor
runtime_memory_mark_tls_start capacity used m = record (observe_heap used m) {
  free_before_tls = if ltb used capacity then capacity - used else 0;
}

-- `runtime_memory_begin`, after the stack has been painted.
unfoldable pub begin_heap : ℕ → Monitor → Monitor
begin_heap used m = record {
  monitoring = true;
  current_stage = idle;
  heap_before = used;
  heap_peak = used;
  free_before_tls = 0;
  maximum_allocation_request = 0;
  allocation_calls = 0;
  free_calls = 0;
  failed_allocations = 0;
  allocation_failed = false;
  allocation_failure_bytes = 0;
  allocation_failure_stage = idle;
}

abbrev count_call : ℕ → Monitor → Monitor
count_call requested m = record m {
  allocation_calls = incr32 m.allocation_calls;
  maximum_allocation_request =
      if ltb m.maximum_allocation_request requested
      then requested
      else m.maximum_allocation_request;
}

abbrev count_failure : ℕ → Bool → Monitor → Monitor
count_failure requested ptr m =
    if not ptr && requested != 0
    then runtime_memory_note_allocation_failure requested
        (record m { failed_allocations = incr32 m.failed_allocations })
    else m

-- `ptr` says whether the pointer is not null.
unfoldable pub allocation_observed : ℕ → Bool → ℕ → Monitor → Monitor
allocation_observed requested ptr used m =
    if not m.monitoring
    then m
    else observe_heap used (count_failure requested ptr (count_call requested m))

-- `__wrap__malloc_r` and `__wrap__realloc_r`, after the allocator has answered with `ptr`.
unfoldable pub wrap_malloc_r : ℕ → Bool → ℕ → Monitor → Monitor
wrap_malloc_r size ptr used m = allocation_observed size ptr used m

unfoldable pub wrap_realloc_r : ℕ → Bool → ℕ → Monitor → Monitor
wrap_realloc_r size ptr used m = allocation_observed size ptr used m

unfoldable pub wrap_free_r : Bool → ℕ → Monitor → Monitor
wrap_free_r ptr used m =
    observe_heap used
      (if m.monitoring && ptr then record m { free_calls = incr32 m.free_calls } else m)

-- One call of the program between `runtime_memory_begin` and `runtime_memory_end`, with the heap in
-- use when it looks.
pub data Op : Type 0 where
  malloc : (size : ℕ) (ptr : Bool) (used : ℕ) → Op
  realloc : (size : ℕ) (ptr : Bool) (used : ℕ) → Op
  free : (ptr : Bool) (used : ℕ) → Op
  set_stage : (stage : Stage) (used : ℕ) → Op
  observe : (used : ℕ) → Op
  mark_tls_start : (capacity : ℕ) (used : ℕ) → Op
  note_failure : (requested : ℕ) → Op

unfoldable pub apply : Op → Monitor → Monitor
apply (malloc size ptr used) m = wrap_malloc_r size ptr used m
apply (realloc size ptr used) m = wrap_realloc_r size ptr used m
apply (free ptr used) m = wrap_free_r ptr used m
apply (set_stage stage used) m = runtime_memory_set_stage stage used m
apply (observe used) m = runtime_memory_observe used m
apply (mark_tls_start capacity used) m = runtime_memory_mark_tls_start capacity used m
apply (note_failure requested) m = runtime_memory_note_allocation_failure requested m

unfoldable pub run : List Op → Monitor → Monitor
run [] m = m
run (op ∷ ops) m = run ops (apply op m)
