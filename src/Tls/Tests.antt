-- ===== src/Tls/Tests.antt =====
-- The theorems on the TLS transport at a concrete network and a concrete wolfSSL.
use assessing_pq_mqtt_m_tls.Plain.{Lwip, wrap32}
use assessing_pq_mqtt_m_tls.Plain.Connect.{Dialer}
use assessing_pq_mqtt_m_tls.Tls.{Received, done, compute, Wolfssl, wssl_rounds, recv_fuel, run_io}
use assessing_pq_mqtt_m_tls.Tls.Ending.{Moving, tls_rounds_total}
use assessing_pq_mqtt_m_tls.Tls.Sample.{wolfssl_on}
use assessing_pq_mqtt_m_tls.Common.{
  ℕ, ◌+◌, ◌/◌, ◌≡◌, ℤ, pos, Bool, refl, [], ◌∷◌, none, some, true, false, arith,
}
use assessing_pq_mqtt_m_tls.Mqtt.Packet.{ConnectArgs}
use assessing_pq_mqtt_m_tls.Mqtt.Client.{mqtt_connect_internal}
use assessing_pq_mqtt_m_tls.Tls.{TlsConn, tls_transport}
use assessing_pq_mqtt_m_tls.Tls.Counters.{KeepsMeasurements, mqtt_connect_internal-Keeps}
use assessing_pq_mqtt_m_tls.Tls.Connect.{new_conn, handshake_rounds, handshake_fuel}
use assessing_pq_mqtt_m_tls.Tls.Sample.{accepting, dialer, wolfssl}

-- A connection with its session, after a handshake of 900 microseconds.
abbrev established : TlsConn accepting wolfssl
established = record (new_conn accepting dialer wolfssl) {
  ssl_ctx = some 0;
  ssl = some 2;
  tls_handshake_us = 900;
  hs_net_wait_us = 300;
}

abbrev arguments : ConnectArgs
arguments = record {
  client_id = b'c' ∷ [];
  keepalive_sec = 60;
  will_topic = none;
  will_payload = none;
  will_retain = false;
}

mqtt_connect_internal-Keeps_example :
    KeepsMeasurements accepting wolfssl established
      (mqtt_connect_internal
        (tls_transport accepting wolfssl)
        (record { conn = some established; net = 5 })
        arguments).1
mqtt_connect_internal-Keeps_example =
    mqtt_connect_internal-Keeps accepting wolfssl established 5 arguments refl

-- A network that is its clock, without an end; the handshake is one computation.
abbrev endless : Lwip
endless = record {
  Net = ℕ;
  ms = λ n. n / 1000;
  time_us = λ n. n;
  sleep_ms = λ n. ([], n + 1000);
  tcp_write = λ n xs. (pos 0, n + 10);
  tcp_close = λ n. n;
  set_stage = λ stage n. n;
}

abbrev endless_dialer : Dialer endless
endless_dialer = record {
  calloc = λ n. (true, n);
  note_allocation_failure = λ n. n;
  dns_gethostbyname = λ host n. (pos 0, 77, n);
  dns_callbacks = λ n. [];
  epoch_ms = λ n. n + 0;
  tcp_new = λ n. (true, n);
  tcp_connect = λ addr port n. (pos 0, n);
}

abbrev computing : Wolfssl endless
computing = wolfssl_on endless (λ work n. n + work) (λ s. compute 300 (done (pos 1, s)))

abbrev computing_moves : Moving endless computing
unfolding run_io
computing_moves = record {
  one_clock = λ n. refl;
  sleep_later = λ n. omega arith;
  sleep_soon = λ n. omega arith;
  connect_later = λ s c n. omega arith;
  connect_soon = λ s c n. omega arith;
}

abbrev waiting : TlsConn endless computing
waiting = new_conn endless endless_dialer computing

tls_rounds_total_example :
    ((r : Received × TlsConn endless computing × ℕ) × (wssl_rounds endless computing
          (recv_fuel endless computing)
          5
          7000
          (wrap32 (wrap32 7 + 15000))
          waiting
          7000
        ≡ some r))
    × ((r : Bool × ℤ × ℕ × TlsConn endless computing × ℕ) × (handshake_rounds endless endless_dialer
            computing
            (handshake_fuel endless endless_dialer computing)
            (wrap32 (wrap32 7 + 30000))
            2
            waiting
            7000
          ≡ some r))
tls_rounds_total_example =
    tls_rounds_total endless endless_dialer computing computing_moves 5 2 waiting 7000 (omega arith)
