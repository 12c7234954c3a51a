-- ===== src/Bench/Tests.antt =====
-- The theorems on bench.c and benchmark_main.c at a concrete processor and a concrete scheme.
use assessing_pq_mqtt_m_tls.Common.{
  ℕ, ◌+◌, ◌-◌, ◌/◌, ◌%◌, ◌^◌, ◌≡◌, refl, ℤ, pos, List, [], ◌∷◌, true, ◌==◌, arith, if◌then◌else◌,
}
use assessing_pq_mqtt_m_tls.Double.Sample.{whole, whole_order}
use assessing_pq_mqtt_m_tls.Bench.{
  systick_reload, Cpu, bench_cycles, warm_up, measure_calls, capped, bench_run,
}
use assessing_pq_mqtt_m_tls.Bench.Cycles.{Systick, Between, bench_cycles_lem}
use assessing_pq_mqtt_m_tls.Bench.Extremes.{Reports, bench_run-Reports}
use assessing_pq_mqtt_m_tls.Bench.Driver.{Scheme, flip_first, passes, benchmark_main, g_msg}
use assessing_pq_mqtt_m_tls.Bench.Driver.Passing.{Works, benchmark_main-passes}

-- A processor that is its ticks.
abbrev cpu : Cpu
cpu = record {
  Net = ℕ;
  exceptions = λ n. n / 2 ^ 24;
  cvr = λ n. systick_reload - n % 2 ^ 24;
  time_us = λ n. n / 125;
  next = λ n. n + 7;
}

abbrev cpu_systick : Systick cpu
cpu_systick = record {
  ticks = λ n. n;
  forward = λ n. omega arith;
  soon = λ n. omega arith;
  counts_down = λ n. omega arith;
  wraps = λ n. refl;
}

-- Just before SysTick wraps.
bench_cycles_lem_example : Between cpu cpu_systick 16777210 (bench_cycles cpu 16777210)
bench_cycles_lem_example = bench_cycles_lem cpu cpu_systick 16777210 (omega arith)

-- An operation of 5000 ticks.
abbrev spin : ℕ → ℤ × ℕ
spin n = (pos 0, n + 5000)

bench_run-Reports_example :
    Reports cpu whole spin
      (capped cpu whole spin 300)
      (measure_calls cpu whole spin (capped cpu whole spin 300) (warm_up cpu whole spin 8 9).1)
      (bench_run cpu whole spin 300 8 9)
bench_run-Reports_example = bench_run-Reports cpu whole spin whole_order 300 8 9

abbrev accept : List ℕ → ℤ
accept [] = pos 1
accept (b ∷ bs) = if b == 90 then pos 0 else pos 1

-- Its only signature has the one byte 90.
abbrev scheme : Scheme cpu
scheme = record {
  scheme_init = λ n. (pos 0, n);
  scheme_sig_max_bytes = 1;
  scheme_do_sign = λ msg n. (pos 0, 90 ∷ [], n + 100);
  scheme_do_verify = λ sig msg n. (accept sig, n + 50);
  runtime_memory_begin = λ n. n;
  set_stage = λ stage n. n;
  runtime_memory_end = λ n. n;
}

abbrev scheme_works : Works cpu scheme (g_msg cpu whole scheme 32 65536 100 8) 65536
unfolding flip_first
scheme_works = record {
  IsSig = λ sig. sig ≡ 90 ∷ [];
  starts = λ n. refl;
  fits = omega arith;
  signs = λ n. refl;
  signs-IsSig = λ n. refl;
  accepts = λ sig n h. rw h refl;
  rejects = λ sig n h. rw h refl;
}

benchmark_main-passes_example : passes (benchmark_main cpu whole scheme 32 65536 100 8 9) ≡ true
benchmark_main-passes_example =
    benchmark_main-passes cpu whole scheme 32 65536 100 8 scheme_works 9 (omega arith)
