-- ===== src/Main/Bench/Tests.antt =====
-- The theorems on the benchmark of mqtt_client/main.c at a concrete board.
use assessing_pq_mqtt_m_tls.Common.{ℕ, ◌+◌, ◌≡◌, [], ◌∷◌, some, false, arith}
use assessing_pq_mqtt_m_tls.Memory.{Stage}
use assessing_pq_mqtt_m_tls.Memory.Result.{RuntimeMemoryResult}
use assessing_pq_mqtt_m_tls.Transport.{Transport}
use assessing_pq_mqtt_m_tls.Tls.{tls_transport}
use assessing_pq_mqtt_m_tls.Tls.Sample.{accepting, dialer, wolfssl, timer, credentials}
use assessing_pq_mqtt_m_tls.Double.Sample.{whole}
use assessing_pq_mqtt_m_tls.Main.{Link, Device, Config}
use assessing_pq_mqtt_m_tls.Main.Links.{tls_link, tls_link-Reports}
use assessing_pq_mqtt_m_tls.Main.Bench.{run_benchmark_attempt, warm_up, run_handshake_benchmark}
use assessing_pq_mqtt_m_tls.Main.Bench.Rows.{Sound, run_benchmark_attempt-Sound, attempts}
use assessing_pq_mqtt_m_tls.Main.Bench.Summary.{
  succeeded, lines_of, Tallies, run_handshake_benchmark-Tallies,
}

abbrev no_memory : RuntimeMemoryResult
no_memory = record {
  heap_capacity_bytes = 0;
  heap_in_use_before_bytes = 0;
  heap_peak_in_use_bytes = 0;
  heap_peak_delta_bytes = 0;
  heap_in_use_after_bytes = 0;
  free_before_bytes = 0;
  free_before_tls_bytes = 0;
  min_free_bytes = 0;
  free_after_bytes = 0;
  maximum_allocation_request_bytes = 0;
  allocation_calls = 0;
  free_calls = 0;
  failed_allocations = 0;
  stack_capacity_bytes = 0;
  stack_high_water_bytes = 0;
  stack_unused_bytes = 0;
  stack_guard_corrupted = false;
  allocation_failed = false;
  allocation_failure_bytes = 0;
  allocation_failure_stage = Stage.idle;
}

abbrev transport : Transport
transport = tls_transport accepting wolfssl

abbrev link : Link transport
link = tls_link accepting dialer (b'h' ∷ []) 8883 wolfssl credentials

abbrev device : Device ℕ
device = record {
  gettimeofday = λ n. some (1735689600 + n, 5);
  sleep_ms = λ k n. n + k;
  runtime_memory_begin = λ n. n;
  runtime_memory_end = λ n. (no_memory, n);
}

abbrev config : Config
config = record { client_id = b'c' ∷ []; keepalive_sec = 60; warmup = 3; iters = 30 }

run_benchmark_attempt-Sound_example :
    let a = (run_benchmark_attempt transport link device config 4 false 9).0 in
    Sound transport link device config (link.connect 9) a.success a.result
run_benchmark_attempt-Sound_example =
    run_benchmark_attempt-Sound transport link device config 4 false 9
      (tls_link-Reports accepting dialer (b'h' ∷ []) 8883 wolfssl credentials timer)

run_handshake_benchmark-Tallies_example :
    let rows =
      attempts transport link device config 30 0 (warm_up transport link device config 3 0 0 9).1 in
    let r = run_handshake_benchmark transport link device config whole 9 in
    Tallies transport link device config whole (succeeded rows) 30 r.0 × (r.1 ≡ lines_of rows)
run_handshake_benchmark-Tallies_example =
    run_handshake_benchmark-Tallies transport link device config whole 9 (omega arith)
