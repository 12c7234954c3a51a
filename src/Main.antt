-- ===== src/Main.antt =====
-- mqtt_client/main.c: the start of the firmware, the benchmark of connections and the MQTT session.
-- `Link` is a transport with the calls that make a connection: the firmware is built with one of the
-- two, which Main/Links gives.
pub mod Links
pub mod Bench
pub mod Start
pub mod Session
pub mod Discovery
pub mod Firmware
use assessing_pq_mqtt_m_tls.Common.{ℕ, ℤ, pos, List, Option, some, none, Bool, true, false, ◌≡◌}
use assessing_pq_mqtt_m_tls.Memory.Result.{RuntimeMemoryResult}
use assessing_pq_mqtt_m_tls.Transport.{
  FailureStage, no_failure, mqtt_failure, err_timeout, Timings, Bandwidth, AttemptResult, Transport,
}

-- `connect` is `bench_connect`, or `tls_connect` with the result that it drops; `net_of` is what a
-- connection leaves behind; `enter_mqtt` is `runtime_memory_set_stage(RUNTIME_MEM_STAGE_MQTT)`.
pub record Link (t : Transport) : Type 1 where
  pub Net : Type 0
  pub connect : Net → Option t.Conn × AttemptResult × Net
  pub net_of : t.Conn → Net
  pub enter_mqtt : t.Conn → t.Conn
  pub tls_get_timings : t.Conn → Timings
  pub tls_get_bandwidth : t.Conn → Bandwidth
  pub tls_io_timed_out : t.Conn → Bool

-- A connection comes without a failure; a failure has its phase, before MQTT, and a timeout its code.
abbrev pub Reports : (t : Transport) (l : Link t) → Option t.Conn × AttemptResult × l.Net → Type 0
Reports t l (some c, a, net) =
    (a.failure_stage ≡ no_failure)
    × (a.error_code ≡ pos 0)
    × (a.timed_out ≡ false)
    × (l.tls_get_timings c ≡ a.timings)
Reports t l (none, a, net) =
    ¬ (a.failure_stage ≡ no_failure)
    × ¬ (a.failure_stage ≡ mqtt_failure)
    × (a.timed_out ≡ true → a.error_code ≡ err_timeout)

-- The rest of the board. `gettimeofday` gives the seconds and microseconds of the clock, or an error;
-- the last two are the memory monitor's begin and end.
pub record Device (Net : Type 0) : Type 0 where
  pub gettimeofday : Net → Option (ℕ × ℕ)
  pub sleep_ms : ℕ → Net → Net
  pub runtime_memory_begin : Net → Net
  pub runtime_memory_end : Net → RuntimeMemoryResult × Net

-- The macros of the build.
pub record Config : Type 0 where
  pub client_id : List ℕ
  pub keepalive_sec : ℕ
  pub warmup : ℕ
  pub iters : ℕ
