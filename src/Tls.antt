-- ===== src/Tls.antt =====
-- mqtt_client/tls_transport.c: the connection, wolfSSL's two I/O callbacks, and `tls_read`,
-- `tls_write` and `tls_close` over TLS. The ring, the callbacks of lwIP and the name resolution are
-- those of mqtt_client/plain_transport.c, in Ring, Plain and Plain/Connect.
pub mod Interface
pub mod Steps
pub mod Waiting
pub mod Counters
pub mod Connect
pub mod Sample
pub mod Ending
mod Tests
pub use Interface.*
use assessing_pq_mqtt_m_tls.Common.{
  ℕ, zero, suc, ◌+◌, ◌-◌, ◌*◌, ◌/◌, ◌%◌, ◌^◌, ℤ, pos, negsuc, List, [], ◌∷◌, Option, some, none,
  Bool, true, false, not, length, take, ltb, ◌==◌, ◌!=◌, ◌||◌, if◌then◌else◌,
}
use assessing_pq_mqtt_m_tls.Memory.{Stage}
use assessing_pq_mqtt_m_tls.Ring.{rx_pop}
use assessing_pq_mqtt_m_tls.Transport.{
  Timings, Bandwidth, Transport, WriteResult, write_failed, ReadResult, read_failed,
}
use assessing_pq_mqtt_m_tls.Plain
use assessing_pq_mqtt_m_tls.Plain.{is_ok, Event, handle_all, Lwip, wrap32}
use assessing_pq_mqtt_m_tls.Plain.Connect.{since}

module _ (lwip : Lwip) (tls : Wolfssl lwip) where
  open lwip use {Net, ms, time_us, sleep_ms, tcp_write, tcp_close, set_stage}
  open tls use {Ctx, Ssl, crypto, ctx_free, ssl_free, read, write, shutdown}

  -- `struct tls_conn`. The fields that the plain one has too are `tcp`: `tls_rx_bytes` and
  -- `tls_tx_bytes` are its `total_rx_bytes` and `total_tx_bytes`.
  pub record TlsConn : Type 0 where
    pub tcp : Plain.TlsConn
    pub ssl_ctx : Option Ctx
    pub ssl : Option Ssl
    pub tls_handshake_us : ℕ
    pub tls_handshake_rx_bytes : ℕ
    pub tls_handshake_tx_bytes : ℕ
    pub in_handshake : Bool
    pub hs_net_wait_us : ℕ
    pub hs_tx_calls : ℕ
    pub hs_rx_calls : ℕ

  -- The two clocks that wolfSSL calls.
  unfoldable pub low_res_timer : Net → ℕ
  low_res_timer net = wrap32 (ms net) / 1000

  unfoldable pub time_now_in_milliseconds : Net → ℕ
  time_now_in_milliseconds net = wrap32 (ms net)

  -- lwIP's callbacks, which the fields of TLS do not matter to.
  unfoldable pub on_events : List Event → TlsConn → TlsConn
  on_events events c = record c { tcp = handle_all events c.tcp }

  -- Where `wssl_recv` returns bytes.
  unfoldable pub count_recv : ℕ → Net → TlsConn → TlsConn
  count_recv t_enter net c =
      if c.in_handshake
      then record c {
        hs_net_wait_us = (c.hs_net_wait_us + since (time_us net) t_enter) % 2 ^ 64;
        hs_rx_calls = (c.hs_rx_calls + 1) % 2 ^ 32;
      }
      else c

  -- The loop of `wssl_recv`, or `none` where the fuel runs out.
  unfoldable pub wssl_rounds : ℕ → ℕ → ℕ → ℕ → TlsConn → Net → Option (Received × TlsConn × Net)
  wssl_rounds zero sz t_enter deadline c net = none
  wssl_rounds (suc fuel) sz t_enter deadline c net =
      let (bytes, rx') = rx_pop c.tcp.rx (sz % 2 ^ 16) in
      let c' = record c { tcp = record c.tcp { rx = rx' } } in
      let (events, net') = sleep_ms net in
      let rest = wssl_rounds fuel sz t_enter deadline (on_events events c') net' in
      if length bytes != 0
      then some (got bytes, count_recv t_enter net c', net)
      else if c.tcp.tcp_error || c.tcp.remote_closed
      then some (recv_conn_close, c', net)
      else if ltb deadline (wrap32 (ms net))
      then some (recv_timeout, record c' { tcp = record c'.tcp { io_timed_out = true } }, net)
      else rest

  -- A round for each of the 15000 milliseconds up to the deadline, and two more.
  abbrev pub recv_fuel : ℕ
  recv_fuel = 15002

  unfoldable pub wssl_recv : ℕ → TlsConn → Net → Received × TlsConn × Net
  wssl_recv sz c net =
      elim (wssl_rounds recv_fuel sz (time_us net) (wrap32 (wrap32 (ms net) + 15000)) c net) [
        | none ↦ (recv_timeout, c, net)
        | some r ↦ r
      ]

  -- Where TCP has taken the bytes. The counter is a `uint64_t`, the number of calls a `uint32_t`.
  unfoldable pub count_wait : TlsConn → TlsConn
  count_wait c =
      if c.in_handshake then record c { hs_tx_calls = (c.hs_tx_calls + 1) % 2 ^ 32 } else c

  unfoldable pub count_send : ℕ → TlsConn → TlsConn
  count_send sz c =
      count_wait
        (record c { tcp = record c.tcp { total_tx_bytes = (c.tcp.total_tx_bytes + sz) % 2 ^ 64 } })

  unfoldable pub wssl_send : List ℕ → TlsConn → Net → Sent × TlsConn × Net
  wssl_send buf c net =
      if not c.tcp.pcb || c.tcp.tcp_error
      then (send_conn_close, c, net)
      else let (e, net') = tcp_write net (take (length buf % 2 ^ 16) buf) in
        if is_ok e
        then (sent (length buf), count_send (length buf) c, net')
        else (send_general, c, net')

  -- A call of wolfSSL with the two callbacks.
  unfoldable pub run_io {ℓ} : {A : Type ℓ} → Io A → TlsConn → Net → A × TlsConn × Net
  run_io (done a) c net = (a, c, net)
  run_io (compute work io) c net =
      let (events, net') = crypto work net in run_io io (on_events events c) net'
  run_io (recv sz next) c net = let (r, c', net') = wssl_recv sz c net in run_io (next r) c' net'
  run_io (send buf next) c net = let (r, c', net') = wssl_send buf c net in run_io (next r) c' net'

  unfoldable pub tls_get_timings : TlsConn → Timings
  tls_get_timings c = record {
    dns_us = c.tcp.dns_us;
    tcp_us = c.tcp.tcp_connect_us;
    tls_us = c.tls_handshake_us;
    tls_net_wait_us = c.hs_net_wait_us;
    tls_crypto_us =
        if ltb c.hs_net_wait_us c.tls_handshake_us
        then c.tls_handshake_us - c.hs_net_wait_us
        else 0;
  }

  unfoldable pub tls_get_bandwidth : TlsConn → Bandwidth
  tls_get_bandwidth c = record {
    handshake_rx_bytes = c.tls_handshake_rx_bytes;
    handshake_tx_bytes = c.tls_handshake_tx_bytes;
    total_rx_bytes = c.tcp.total_rx_bytes;
    total_tx_bytes = c.tcp.total_tx_bytes;
    handshake_tx_calls = c.hs_tx_calls;
    handshake_rx_calls = c.hs_rx_calls;
  }

  -- A connection, `none` for NULL, with the network.
  pub record World : Type 0 where
    pub conn : Option TlsConn
    pub net : Net

  -- wolfSSL's session as a call leaves it.
  abbrev pub resume {ℓ} : {A : Type ℓ} → (A × Ssl) × TlsConn × Net → A × World
  resume ((a, s), c, net) = (a, record { conn = some (record c { ssl = some s }); net = net })

  -- Without a connection or a session, where the code would follow a null pointer, the two fail.
  unfoldable pub tls_write : World → List ℕ → WriteResult × World
  tls_write w buf = elim w.conn [
    | none ↦ (write_failed, w)
    | some c ↦ elim c.ssl [
      | none ↦ (write_failed, w)
      | some s ↦ resume (run_io (write s buf) c w.net)
    ]
  ]

  unfoldable pub tls_read : World → ℕ → ReadResult × World
  tls_read w len = elim w.conn [
    | none ↦ (read_failed, w)
    | some c ↦ elim c.ssl [
      | none ↦ (read_failed, w)
      | some s ↦
          resume
            (run_io (read s len) (record c { tcp = record c.tcp { io_timed_out = false } }) w.net)
    ]
  ]

  unfoldable pub tls_io_timed_out : World → Bool
  tls_io_timed_out w = elim w.conn [ none ↦ false | some c ↦ c.tcp.io_timed_out ]

  -- `tls_close` up to `wolfSSL_free`.
  unfoldable pub close_session : TlsConn → Net → TlsConn × Net
  close_session c net = elim c.ssl [
    | none ↦ (c, net)
    | some s ↦ let (s', c', net') = run_io (shutdown s) c net in (c', ssl_free s' net')
  ]

  unfoldable pub close_context : Option Ctx → Net → Net
  close_context none net = net
  close_context (some ctx) net = ctx_free ctx net

  -- The connection is freed.
  unfoldable pub tls_close : World → World
  tls_close w = elim w.conn [
    | none ↦ w
    | some c ↦
        let (c', net₁) = close_session c (set_stage Stage.close w.net) in
        let net₂ = close_context c'.ssl_ctx net₁ in
        record { conn = none; net = if c'.tcp.pcb then tcp_close net₂ else net₂ }
  ]

abbrev pub tls_transport : (lwip : Lwip) → Wolfssl lwip → Transport
tls_transport lwip tls = record {
  Conn = World lwip tls;
  tls_write = tls_write lwip tls;
  tls_read = tls_read lwip tls;
  tls_close = tls_close lwip tls;
  time_us_64 = λ w. lwip.time_us w.net;
}
