-- ===== src/Main/Bench/Rows.antt =====
-- What a line of the benchmark of mqtt_client/main.c says of its attempt.
use assessing_pq_mqtt_m_tls.Common.{
  ℕ, zero, suc, ◌+◌, ◌≡◌, ◌≢◌, refl, sym, ap, ◌∙◌, pos, List, [], ◌∷◌, Option, some, none, Bool,
  true, false, arith, Bool-cases, inl, inr, All,
}
use assessing_pq_mqtt_m_tls.Transport.{
  no_failure, mqtt_failure, err_timeout, AttemptResult, Transport,
}
use assessing_pq_mqtt_m_tls.Plain.{Lwip}
use assessing_pq_mqtt_m_tls.Plain.Connect.{Dialer}
use assessing_pq_mqtt_m_tls.Mqtt.Client.{Outcome, mqtt_connect_measured_attempt}
use assessing_pq_mqtt_m_tls.Mqtt.Client.Codes.{Coded, mqtt_connect_internal-Coded}
use assessing_pq_mqtt_m_tls.Tls.{Wolfssl, tls_transport}
use assessing_pq_mqtt_m_tls.Tls.Waiting.{Timer}
use assessing_pq_mqtt_m_tls.Tls.Connect.{Credentials}
use assessing_pq_mqtt_m_tls.Tls.Connect.Outcome.{Splits}
use assessing_pq_mqtt_m_tls.Main.{Link, Reports, Device, Config}
use assessing_pq_mqtt_m_tls.Main.Links.{tls_link, tls_link-Splits, tls_link-Reports}
use assessing_pq_mqtt_m_tls.Main.Bench.{
  Attempted, connect_mqtt, try_mqtt, run_benchmark_attempt, cool_down,
}

module _ (t : Transport) (l : Link t) (d : Device l.Net) (cfg : Config) where
  open l use {Net, connect, enter_mqtt, tls_io_timed_out}

  -- The call of MQTT on a connection.
  abbrev pub answer : t.Conn → Outcome × t.Conn
  answer c = mqtt_connect_measured_attempt t (enter_mqtt c) cfg.client_id cfg.keepalive_sec

  -- On a connection, success is that of MQTT, with neither an error nor a timeout; a failure is one of
  -- MQTT, with the error code of a timeout where the connection timed out, and that of MQTT where not,
  -- which is not 0.
  pub record Judged (c : t.Conn) (success : Bool) (a : AttemptResult) : Type 0 where
    pub succeeded :
        success ≡ true
        → ((answer c).0.success ≡ true)
          × (a.failure_stage ≡ no_failure)
          × (a.error_code ≡ pos 0)
          × (a.timed_out ≡ false)
    pub failed :
        success ≡ false
        → ((answer c).0.success ≡ false)
          × (a.failure_stage ≡ mqtt_failure)
          × (a.timed_out ≡ tls_io_timed_out (answer c).1)
          × (a.error_code ≢ pos 0)
    pub late_code : a.timed_out ≡ true → a.error_code ≡ err_timeout
    pub own_code : a.timed_out ≡ false → a.error_code ≡ (answer c).0.error_code

  -- Without a connection there is no success, and the record is that of the connection, with a failure
  -- before MQTT; with one, MQTT decides, and the times and the start are those of the connection.
  abbrev pub Sound : Option t.Conn × AttemptResult × Net → Bool → AttemptResult → Type 0
  Sound (none, a₀, net) success a =
      (success ≡ false)
      × (a ≡ a₀)
      × ¬ (a.failure_stage ≡ no_failure)
      × ¬ (a.failure_stage ≡ mqtt_failure)
  Sound (some c, a₀, net) success a =
      Judged c success a × (a.timings ≡ a₀.timings) × (a.tcp_start_epoch_ms ≡ a₀.tcp_start_epoch_ms)

  Sound-timings :
      (r : Option t.Conn × AttemptResult × Net) (success : Bool) (a : AttemptResult)
      → Sound r success a
      → a.timings ≡ r.1.timings
  Sound-timings (none, a₀, net) success a (_, e, _, _) = ap (λ (x : AttemptResult). x.timings) e
  Sound-timings (some c, a₀, net) success a (_, e, _) = e

  answer-Coded : (c : t.Conn) → Coded (answer c).0
  unfolding mqtt_connect_measured_attempt
  answer-Coded c = mqtt_connect_internal-Coded t _ _

  connect_mqtt-Sound :
      (c : t.Conn) (a : AttemptResult) (net : Net)
      → Reports t l (some c, a, net)
      → Sound (some c, a, net) (connect_mqtt t l d cfg c a).0 (connect_mqtt t l d cfg c a).2
  unfolding connect_mqtt
  connect_mqtt-Sound c a net (clean, code, in_time, times) =
      let r = answer c in
      elim (Bool-cases r.0.success) [
        | inl ok ↦ simp ok (
          record {
            succeeded = λ _. (ok, clean, code, in_time);
            failed = λ e. absurd (ground (arith, e));
            late_code = λ e. absurd (ground (arith, e, in_time));
            own_code = λ _. code ∙ sym ((answer-Coded c).succeeded ok);
          },
          times,
          refl,
        )
        | inr bad ↦ elim (Bool-cases (tls_io_timed_out r.1)) [
          | inl late ↦
              simp (bad, late)
                (
                  record {
                    succeeded = λ e. absurd (ground (arith, e));
                    failed = λ _. (bad, refl, sym late, λ e. ground (arith, e));
                    late_code = λ _. refl;
                    own_code = λ e. absurd (ground (arith, e));
                  },
                  times,
                  refl,
                )
          | inr in_time' ↦
              simp (bad, in_time')
                (
                  record {
                    succeeded = λ e. absurd (ground (arith, e));
                    failed = λ _. (bad, refl, sym in_time', (answer-Coded c).failed bad);
                    late_code = λ e. absurd (ground (arith, e));
                    own_code = λ _. refl;
                  },
                  times,
                  refl,
                )
        ]
      ]

  try_mqtt-Sound :
      (r : Option t.Conn × AttemptResult × Net)
      → Reports t l r
      → Sound r (try_mqtt t l d cfg r).0 (try_mqtt t l d cfg r).2
  unfolding try_mqtt
  try_mqtt-Sound (none, a, net) (stage, before, late) = (refl, refl, stage, before)
  try_mqtt-Sound (some c, a, net) h = connect_mqtt-Sound c a net h

  -- An attempt of the benchmark, with any transport that reports its connections well: without a
  -- connection it fails, and its row has the record of the connection as it is, whose failed phase is one
  -- before MQTT. With a connection it succeeds exactly where MQTT does, with no failed phase, error or
  -- timeout; where MQTT fails, the failed phase is MQTT, and the error code is not 0: that of a timeout
  -- where the connection timed out meanwhile, and that of MQTT where not. The times and the start are
  -- those that the connection reported.
  pub run_benchmark_attempt-Sound :
      (run : ℕ) (warmup : Bool) (net : Net)
      → ((net' : Net) → Reports t l (connect net'))
      → let a = (run_benchmark_attempt t l d cfg run warmup net).0 in
        Sound (connect (d.runtime_memory_begin net)) a.success a.result
  unfolding run_benchmark_attempt
  run_benchmark_attempt-Sound run warmup net h =
      try_mqtt-Sound (connect (d.runtime_memory_begin net)) (h _)

  pub run_benchmark_attempt-timings :
      (run : ℕ) (warmup : Bool) (net : Net)
      → ((net' : Net) → Reports t l (connect net'))
      → (run_benchmark_attempt t l d cfg run warmup net).0.result.timings
        ≡ (connect (d.runtime_memory_begin net)).1.timings
  run_benchmark_attempt-timings run warmup net h =
      Sound-timings _ _ _ (run_benchmark_attempt-Sound run warmup net h)

  -- The measured attempts from a run on, one after the other.
  unfoldable pub attempts : ℕ → ℕ → Net → List Attempted
  attempts zero i net = []
  attempts (suc n) i net =
      let (a, lines, net') = run_benchmark_attempt t l d cfg i false net in
      a ∷ attempts n (i + 1) (cool_down t l d cfg net')

  -- What every attempt satisfies, all of them do.
  pub attempts-All :
      (P : Attempted → Type 0)
      → ((i : ℕ) (net : Net) → P (run_benchmark_attempt t l d cfg i false net).0)
      → (n i : ℕ) (net : Net) → All P (attempts n i net)
  unfolding attempts
  attempts-All P h zero i net = tt
  attempts-All P h (suc n) i net = (h i net, attempts-All P h n (i + 1) _)

module _ (lwip : Lwip) (dialer : Dialer lwip) (tls : Wolfssl lwip) (timer : Timer lwip tls) where
  -- Every row of the benchmark over TLS gives a time of the handshake that is the sum of the computing
  -- and the waiting that it gives, also where the handshake or MQTT has failed.
  pub attempts-Splits :
      (host : List ℕ) (port : ℕ) (cred : Credentials) (d : Device lwip.Net) (cfg : Config) (n i : ℕ)
      (net : lwip.Net)
      → All
          (λ (a : Attempted). Splits a.result.timings)
          (attempts
            (tls_transport lwip tls)
            (tls_link lwip dialer host port tls cred)
            d
            cfg
            n
            i
            net)
  attempts-Splits host port cred d cfg n i net =
      let l = tls_link lwip dialer host port tls cred in
      attempts-All (tls_transport lwip tls) l d cfg (λ a. Splits a.result.timings)
        (λ j net'.
          rw
            (run_benchmark_attempt-timings (tls_transport lwip tls) l d cfg j false net'
              (tls_link-Reports lwip dialer host port tls cred timer))
            (tls_link-Splits lwip dialer host port tls cred timer (d.runtime_memory_begin net')))
        n i net
