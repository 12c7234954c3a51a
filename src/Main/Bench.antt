-- ===== src/Main/Bench.antt =====
-- The benchmark of connections in mqtt_client/main.c. Of what it prints, the lines of the measured
-- attempts are modelled here, and the statistics in Stats.
pub mod Rows
pub mod Summary
pub mod Stats
pub mod Printed
mod Tests
use assessing_pq_mqtt_m_tls.Common.{
  ℕ, zero, suc, ◌+◌, ◌*◌, ◌/◌, ◌%◌, ◌^◌, ℤ, pos, List, [], ◌∷◌, ◌++◌, Option, some, none, Bool,
  true, false, not, ◌&&◌, ◌==◌, set, replicate, if◌then◌else◌,
}
use assessing_pq_mqtt_m_tls.Memory.Result.{RuntimeMemoryResult}
use assessing_pq_mqtt_m_tls.Transport.{
  mqtt_failure, err_timeout, Timings, Bandwidth, no_bandwidth, AttemptResult, Transport,
}
use assessing_pq_mqtt_m_tls.Mqtt.Client.{mqtt_connect_measured_attempt, mqtt_disconnect, elapsed}
use assessing_pq_mqtt_m_tls.Double.{Double}
use assessing_pq_mqtt_m_tls.Main.{Link, Device, Config}

-- What an attempt found.
pub record Attempted : Type 0 where
  pub run : ℕ
  pub start_epoch_ms : ℕ
  pub result : AttemptResult
  pub mqtt_us : ℕ
  pub success : Bool
  pub memory : RuntimeMemoryResult

-- `tcp_us + tls_us + mqtt_us`, on `uint64_t`
abbrev pub total_us : Attempted → ℕ
total_us a = (a.result.timings.tcp_us + a.result.timings.tls_us + a.mqtt_us) % 2 ^ 64

-- The lines `csv_hs_start` and `csv_hs`.
pub data Line : Type 0 where
  csv_hs_start : (run start_epoch_ms : ℕ) → Line
  csv_hs : Attempted → Line

unfoldable pub epoch_ms : Option (ℕ × ℕ) → ℕ
epoch_ms none = 0
epoch_ms (some (sec, usec)) = (sec * 1000 + usec / 1000) % 2 ^ 64

module _ (t : Transport) (l : Link t) (d : Device l.Net) (cfg : Config) where
  open t use {Conn, tls_close, time_us_64}
  open l use {
    Net, connect, net_of, enter_mqtt, tls_get_timings, tls_get_bandwidth, tls_io_timed_out,
  }
  open d use {gettimeofday, sleep_ms, runtime_memory_begin, runtime_memory_end}

  -- After a connection: whether MQTT has taken it, and its time.
  unfoldable pub connect_mqtt : Conn → AttemptResult → Bool × ℕ × AttemptResult × Net
  connect_mqtt c a =
      let a₁ = record a { timings = tls_get_timings c } in
      let c₁ = enter_mqtt c in
      let (o, c₂) = mqtt_connect_measured_attempt t c₁ cfg.client_id cfg.keepalive_sec in
      let mqtt_us =
        if not o.success && o.connect_us == 0
        then elapsed (time_us_64 c₂) (time_us_64 c₁)
        else o.connect_us in
      let a₂ = record a₁ { bandwidth = tls_get_bandwidth c₂ } in
      if o.success then (true, mqtt_us, a₂, net_of (mqtt_disconnect t c₂).1) else (
        false,
        mqtt_us,
        record a₂ {
          failure_stage = mqtt_failure;
          error_code = if tls_io_timed_out c₂ then err_timeout else o.error_code;
          timed_out = tls_io_timed_out c₂;
        },
        net_of (tls_close c₂),
      )

  unfoldable pub try_mqtt : Option Conn × AttemptResult × Net → Bool × ℕ × AttemptResult × Net
  try_mqtt (none, a, net) = (false, 0, a, net)
  try_mqtt (some c, a, net) = connect_mqtt c a

  -- With the lines of an attempt that is measured.
  unfoldable pub run_benchmark_attempt : ℕ → Bool → Net → Attempted × List Line × Net
  run_benchmark_attempt run warmup net =
      let start = epoch_ms (gettimeofday net) in
      let (success, mqtt_us, result, net₁) = try_mqtt (connect (runtime_memory_begin net)) in
      let (memory, net₂) = runtime_memory_end net₁ in
      let a : Attempted = record {
        run = run;
        start_epoch_ms = start;
        result = result;
        mqtt_us = mqtt_us;
        success = success;
        memory = memory;
      } in
      (a, (if warmup then [] else csv_hs_start run start ∷ csv_hs a ∷ []), net₂)

  -- TLS_BENCH_COOLDOWN_MS
  abbrev pub cool_down : Net → Net
  cool_down net = sleep_ms 750 net

  -- The loop of the warm-up, with the runs to go.
  unfoldable pub warm_up : ℕ → ℕ → ℕ → Net → ℕ × Net
  warm_up zero i successes net = (successes, net)
  warm_up (suc n) i successes net =
      let (a, lines, net') = run_benchmark_attempt i true net in
      warm_up n (i + 1) (if a.success then (successes + 1) % 2 ^ 32 else successes) (cool_down net')

  module _ (f : Double) where
    -- `(double)us / 1000.0`
    abbrev pub to_ms : ℕ → f.Value
    to_ms us = f.div (f.of_nat us) (f.of_nat 1000)

    -- The six arrays.
    pub data Metric : Type 0 where
      tcp_ms tls_ms crypto_ms net_ms mqtt_ms total_connect_ms : Metric

    unfoldable pub value : Metric → Attempted → f.Value
    value tcp_ms a = to_ms a.result.timings.tcp_us
    value tls_ms a = to_ms a.result.timings.tls_us
    value crypto_ms a = to_ms a.result.timings.tls_crypto_us
    value net_ms a = to_ms a.result.timings.tls_net_wait_us
    value mqtt_ms a = to_ms a.mqtt_us
    value total_connect_ms a = to_ms (total_us a)

    -- The local variables of `run_handshake_benchmark`.
    pub record Tally : Type 0 where
      pub successes : ℕ
      pub failures : ℕ
      pub samples : Metric → List f.Value
      pub last_bandwidth : Bandwidth

    -- The arrays are static: they begin with zeros.
    abbrev pub new_tally : Tally
    new_tally = record {
      successes = 0;
      failures = 0;
      samples = λ m. replicate cfg.iters (f.of_nat 0);
      last_bandwidth = no_bandwidth;
    }

    -- On whether the attempt has succeeded.
    unfoldable pub tally_result : Bool → Attempted → Tally → Tally
    tally_result true a s = record s {
      successes = (s.successes + 1) % 2 ^ 32;
      samples = λ m. set (s.samples m) s.successes (value m a);
      last_bandwidth = a.result.bandwidth;
    }
    tally_result false a s = record s { failures = (s.failures + 1) % 2 ^ 32 }

    -- The loop of the measured runs, with the runs to go and the lines printed.
    unfoldable pub measure : ℕ → ℕ → Tally → Net → Tally × List Line × Net
    measure zero i s net = (s, [], net)
    measure (suc n) i s net =
        let (a, lines, net₁) = run_benchmark_attempt i false net in
        let (s', more, net') = measure n (i + 1) (tally_result a.success a s) (cool_down net₁) in
        (s', lines ++ more, net')

    unfoldable pub run_handshake_benchmark : Net → Tally × List Line × Net
    run_handshake_benchmark net = measure cfg.iters 0 new_tally (warm_up cfg.warmup 0 0 net).1
