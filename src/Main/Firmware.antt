-- ===== src/Main/Firmware.antt =====
-- `main` of mqtt_client/main.c, from the Wi-Fi on; what is printed is left out. The parts that the
-- preprocessor chooses are those of `Build`.
pub mod Ready
mod Tests
use assessing_pq_mqtt_m_tls.Common.{
  ℕ, zero, suc, ℤ, pos, List, Option, some, none, Bool, true, false, not, ◌&&◌, ◌||◌, leb, is_zero,
  if◌then◌else◌,
}
use assessing_pq_mqtt_m_tls.Transport.{AttemptResult, Transport}
use assessing_pq_mqtt_m_tls.Double.{Double}
use assessing_pq_mqtt_m_tls.Main.{Link, Device, Config}
use assessing_pq_mqtt_m_tls.Main.Bench.{Tally, Line, run_handshake_benchmark}
use assessing_pq_mqtt_m_tls.Main.Start.{Board, wifi_connect, Clock, sync_time_with_sntp}
use assessing_pq_mqtt_m_tls.Main.Session.{Topics, Sensors, Loop, start_session}

-- TLS_BENCH_ITERS > 0 and MQTT_TRANSPORT_PLAIN, with the lengths of the three DER files.
pub record Build : Type 0 where
  pub bench : Bool
  pub plain : Bool
  pub ca_cert_len : ℕ
  pub client_cert_len : ℕ
  pub client_key_len : ℕ

-- Why `main` returns 1 before it connects.
pub data Stop : Type 0 where
  no_wifi_chip no_network no_time placeholder_certificates : Stop

-- The time of day is set in the benchmark and for TLS.
unfoldable pub needs_time : Build → Bool
needs_time build = build.bench || not build.plain

unfoldable pub has_placeholders : Build → Bool
has_placeholders build =
    not build.plain
    && (leb build.ca_cert_len 1 || leb build.client_cert_len 1 || leb build.client_key_len 1)

-- The Wi-Fi chip: `cyw43_arch_init_with_country`, which gives 0 or an error, then
-- `cyw43_arch_enable_sta_mode`, and `cyw43_arch_deinit`.
pub record Chip (Net : Type 0) : Type 0 where
  pub init_with_country : Net → ℤ × Net
  pub enable_sta_mode : Net → Net
  pub deinit : Net → Net

module _ (Net : Type 0) (b : Board Net) (chip : Chip Net) (build : Build) where
  open chip use {init_with_country, enable_sta_mode, deinit}

  -- `none` to go on.
  unfoldable pub check_certificates : Net → Option Stop × Net
  check_certificates net =
      if has_placeholders build then (some placeholder_certificates, deinit net) else (none, net)

  -- `sntp_time_set` is false at the start.
  unfoldable pub set_clock : Net → Option Stop × Net
  set_clock net =
      let (set, w) = sync_time_with_sntp Net b (record { sntp_time_set = false; net = net }) in
      if not (needs_time build)
      then check_certificates net
      else if not set
      then (some no_time, deinit w.net)
      else check_certificates w.net

  -- `main` up to the certificates.
  unfoldable pub prepare : Net → Option Stop × Net
  prepare net =
      let (err, net₁) = init_with_country net in
      let (connected, net₂) = wifi_connect Net b (enable_sta_mode net₁) in
      if not (is_zero err)
      then (some no_wifi_chip, net₁)
      else if not connected
      then (some no_network, deinit net₂)
      else set_clock net₂

module _ (t : Transport) (l : Link t) (d : Device l.Net) (cfg : Config) (f : Double) where
  module _ (b : Board l.Net) (chip : Chip l.Net) (build : Build) (s : Sensors t)
      (topics : Topics) where
    -- How `main` goes on to its end, before its last `cyw43_arch_deinit`, or to the publish loop.
    pub data Ending : Type 0 where
      stopped : Stop → Ending
      benchmarked : Tally t l d cfg f → List Line → Ending
      not_connected : Ending
      not_accepted : Ending
      publishing : Loop t l s topics → Ending

    -- From the transport's connection on.
    unfoldable pub run_session : Option t.Conn → Ending
    run_session none = not_connected
    run_session (some c) = elim (start_session t l s topics c).0 [
      | none ↦ not_accepted
      | some v ↦ publishing v
    ]

    unfoldable pub run_firmware : l.Net → Ending
    run_firmware net =
        let (tally, lines, net') = run_handshake_benchmark t l d cfg f net in
        if build.bench then benchmarked tally lines else run_session (l.connect net).0

    -- On whether the start has stopped.
    unfoldable pub go_on : Option Stop × l.Net → Ending
    go_on (some stop, net) = stopped stop
    go_on (none, net) = run_firmware net

    unfoldable pub main_program : l.Net → Ending
    main_program net = go_on (prepare l.Net b chip build net)
