-- ===== src/Tls/Connect.antt =====
-- `tls_connect_common` of mqtt_client/tls_transport.c. `result` is not NULL; `tls_connect` drops what
-- is written there. Names are resolved, and the wait for TCP goes on, as in Plain/Connect.
pub mod Outcome
use assessing_pq_mqtt_m_tls.Common.{
  ℕ, zero, suc, ◌+◌, ◌-◌, ◌%◌, ◌^◌, ℤ, pos, negsuc, List, Option, some, none, Bool, true, false,
  not, ltb, ◌==◌, ◌||◌, ◌&&◌, if◌then◌else◌,
}
use assessing_pq_mqtt_m_tls.Memory.{Stage}
use assessing_pq_mqtt_m_tls.Transport.{
  FailureStage, dns_failure, tcp_failure, tls_context_failure, certificate_failure,
  private_key_failure, key_share_failure, tls_handshake_failure, err_allocation, err_timeout,
  AttemptResult, new_result,
}
use assessing_pq_mqtt_m_tls.Plain
use assessing_pq_mqtt_m_tls.Plain.{is_ok, Lwip, wrap32}
use assessing_pq_mqtt_m_tls.Plain.Connect.{
  Dialer, resolved, unresolved, resolve_host, connect_rounds, dial_fuel, since, err_mem,
}
use assessing_pq_mqtt_m_tls.Plain.Connect
use assessing_pq_mqtt_m_tls.Tls.{
  Wolfssl, TlsConn, run_io, tls_get_timings, tls_get_bandwidth, tls_close,
}

-- SSL_SUCCESS, and SSL_ERROR_WANT_READ or SSL_ERROR_WANT_WRITE
abbrev pub is_success : ℤ → Bool
is_success (pos n) = n == 1
is_success (negsuc n) = false

abbrev pub wants_io : ℤ → Bool
wants_io (pos n) = n == 2 || n == 3
wants_io (negsuc n) = false

-- `ca_der`, `cert` and `key`
pub record Credentials : Type 0 where
  pub ca_der : List ℕ
  pub cert : List ℕ
  pub key : List ℕ

module _ (lwip : Lwip) (dialer : Dialer lwip) (tls : Wolfssl lwip) where
  open lwip use {Net, ms, time_us, set_stage}
  open tls use {
    Ctx, Ssl, set_up, ctx_new, load_verify_buffer, set_verify_peer, use_certificate_buffer,
    use_private_key_buffer, ssl_new, use_supported_curve, use_key_share, connect, get_error,
    mark_tls_start,
  }

  abbrev pub Attempted : Type 0
  Attempted = Option (TlsConn lwip tls) × AttemptResult × Net

  abbrev pub new_conn : TlsConn lwip tls
  new_conn = record {
    tcp = Plain.Connect.new_conn;
    ssl_ctx = none;
    ssl = none;
    tls_handshake_us = 0;
    tls_handshake_rx_bytes = 0;
    tls_handshake_tx_bytes = 0;
    in_handshake = false;
    hs_net_wait_us = 0;
    hs_tx_calls = 0;
    hs_rx_calls = 0;
  }

  unfoldable pub capture_result : AttemptResult → TlsConn lwip tls → AttemptResult
  capture_result a c = record a {
    timings = tls_get_timings lwip tls c;
    bandwidth = tls_get_bandwidth lwip tls c;
  }

  unfoldable pub connect_failed :
      TlsConn lwip tls → AttemptResult → FailureStage → ℤ → Bool → Net → Attempted
  connect_failed c a stage error_code timed_out net = (
    none,
    record (capture_result a c) {
      failure_stage = stage;
      error_code = error_code;
      timed_out = timed_out;
    },
    (tls_close lwip tls (record { conn = some c; net = net })).net,
  )

  -- The loop of the handshake: whether it timed out, the last result of `wolfSSL_connect`, and what
  -- the calls left; `none` where the fuel runs out.
  unfoldable pub handshake_rounds :
      ℕ → ℕ → Ssl → TlsConn lwip tls → Net → Option (Bool × ℤ × Ssl × TlsConn lwip tls × Net)
  handshake_rounds zero deadline s c net = none
  handshake_rounds (suc fuel) deadline s c net =
      let ((ret, s'), c', net') = run_io lwip tls (connect s) c net in
      let rest = handshake_rounds fuel deadline s' c' net' in
      if ltb deadline (wrap32 (ms net'))
      then some (true, ret, s', c', net')
      else if not (is_success ret) && wants_io (get_error s' ret)
      then rest
      else some (false, ret, s', c', net')

  -- A round for each of the 30 million microseconds up to the deadline, and for those of one
  -- millisecond more.
  abbrev pub handshake_fuel : ℕ
  handshake_fuel = 30001002

  -- The end of the handshake, for whatever reason: `c₀` and `t0` are the connection and the time at its
  -- start.
  unfoldable pub measured : TlsConn lwip tls → ℕ → Ssl → TlsConn lwip tls → Net → TlsConn lwip tls
  measured c₀ t0 s c net = record c {
    ssl = some s;
    in_handshake = false;
    tls_handshake_us = since (time_us net) t0;
    tls_handshake_rx_bytes = since c.tcp.total_rx_bytes c₀.tcp.total_rx_bytes;
    tls_handshake_tx_bytes = since c.tcp.total_tx_bytes c₀.tcp.total_tx_bytes;
  }

  -- After the loop, on the connection that `measured` gives.
  unfoldable pub finish_handshake :
      Bool → ℤ → Ssl → TlsConn lwip tls → AttemptResult → Net → Attempted
  finish_handshake late ret s c a net =
      if late
      then connect_failed c a tls_handshake_failure err_timeout true net
      else if not (is_success ret)
      then connect_failed c a tls_handshake_failure
          (if c.tcp.io_timed_out then err_timeout else get_error s ret) c.tcp.io_timed_out net
      else (some c, capture_result a c, net)

  -- After the loop, from the connection and the network before it.
  unfoldable pub end_handshake :
      TlsConn lwip tls
      → ℕ
      → Ssl
      → AttemptResult
      → Net
      → Option (Bool × ℤ × Ssl × TlsConn lwip tls × Net)
      → Attempted
  end_handshake c t0 s a net none = finish_handshake true (pos 0) s (measured c t0 s c net) a net
  end_handshake c t0 s a net (some (late, ret, s', c', net')) =
      finish_handshake late ret s' (measured c t0 s' c' net') a net'

  unfoldable pub handshake : Ssl → TlsConn lwip tls → AttemptResult → Net → Attempted
  handshake s c a net =
      let net₁ = mark_tls_start (set_stage Stage.tls_handshake net) in
      end_handshake c (time_us net₁) s a net₁ (
        handshake_rounds handshake_fuel (wrap32 (wrap32 (ms net₁) + 30000)) s
          (record c { in_handshake = true }) net₁)

  -- The key share of X25519 and ML-KEM-768.
  unfoldable pub share_keys : Ssl → TlsConn lwip tls → AttemptResult → Net → Attempted
  share_keys s c a net =
      let net₁ = set_stage Stage.key_share net in
      let (ret, s₁) = use_supported_curve s in
      let (ret', s₂) = use_key_share s₁ in
      if not (is_success ret)
      then connect_failed (record c { ssl = some s₁ }) a key_share_failure ret false net₁
      else if not (is_success ret')
      then connect_failed (record c { ssl = some s₂ }) a key_share_failure ret' false net₁
      else handshake s₂ (record c { ssl = some s₂ }) a net₁

  -- On what `wolfSSL_new` gives.
  unfoldable pub use_session : Option Ssl → TlsConn lwip tls → AttemptResult → Net → Attempted
  use_session none c a net = connect_failed c a tls_context_failure err_allocation false net
  use_session (some s) c a net = share_keys s (record c { ssl = some s }) a net

  unfoldable pub start_session : Ctx → TlsConn lwip tls → AttemptResult → Net → Attempted
  start_session ctx c a net =
      let (session, net₁) = ssl_new ctx (set_stage Stage.tls_context net) in
      use_session session c a net₁

  -- The CA certificate, the client's certificate and its private key.
  unfoldable pub load_credentials :
      Credentials → Ctx → TlsConn lwip tls → AttemptResult → Net → Attempted
  load_credentials cred ctx c a net =
      let net₁ = set_stage Stage.certificate net in
      let (ret₁, ctx₁) = load_verify_buffer cred.ca_der ctx in
      let (ret₂, ctx₂) = use_certificate_buffer cred.cert (set_verify_peer ctx₁) in
      let net₂ = set_stage Stage.private_key net₁ in
      let (ret₃, ctx₃) = use_private_key_buffer cred.key ctx₂ in
      if not (is_success ret₁)
      then connect_failed (record c { ssl_ctx = some ctx₁ }) a certificate_failure ret₁ false net₁
      else if not (is_success ret₂)
      then connect_failed (record c { ssl_ctx = some ctx₂ }) a certificate_failure ret₂ false net₁
      else if not (is_success ret₃)
      then connect_failed (record c { ssl_ctx = some ctx₃ }) a private_key_failure ret₃ false net₂
      else start_session ctx₃ (record c { ssl_ctx = some ctx₃ }) a net₂

  -- On what `wolfSSL_CTX_new` gives.
  unfoldable pub use_context :
      Credentials → Option Ctx → TlsConn lwip tls → AttemptResult → Net → Attempted
  use_context cred none c a net = connect_failed c a tls_context_failure err_allocation false net
  use_context cred (some ctx) c a net =
      load_credentials cred ctx (record c { ssl_ctx = some ctx }) a net

  unfoldable pub start_tls : Credentials → TlsConn lwip tls → AttemptResult → Net → Attempted
  start_tls cred c a net =
      let (context, net₁) = ctx_new (set_up (set_stage Stage.tls_context net)) in
      use_context cred context c a net₁

  -- After the wait for TCP.
  unfoldable pub tcp_settled :
      Credentials → ℕ → Bool → TlsConn lwip tls → AttemptResult → Net → Attempted
  tcp_settled cred t0 late c a net =
      let c' = record c { tcp = record c.tcp { tcp_connect_us = since (time_us net) t0 } } in
      if late
      then connect_failed c' a tcp_failure err_timeout true net
      else if c.tcp.tcp_error
      then connect_failed c' a tcp_failure c.tcp.tcp_error_code false net
      else start_tls cred c' a net

  -- From the stage of TCP on.
  unfoldable pub open_tcp : Credentials → ℕ → ℕ → TlsConn lwip tls → Net → Attempted
  open_tcp cred addr port c net =
      let net₁ = set_stage Stage.tcp net in
      let a = record new_result { tcp_start_epoch_ms = dialer.epoch_ms net₁ } in
      let t0 = time_us net₁ in
      let (there, net₂) = dialer.tcp_new net₁ in
      if not there
      then connect_failed c a tcp_failure err_mem false net₂
      else let c₁ = record c { tcp = record c.tcp { pcb = true } } in
        let (e, net₃) = dialer.tcp_connect addr port net₂ in
        if not (is_ok e)
        then connect_failed c₁ a tcp_failure e false net₃
        else elim (connect_rounds lwip dialer (dial_fuel lwip dialer)
            (wrap32 (wrap32 (ms net₃) + 10000)) c₁.tcp net₃) [
              | none ↦ tcp_settled cred t0 true c₁ a net₃
              | some (late, tcp, net₄) ↦ tcp_settled cred t0 late (record c₁ { tcp = tcp }) a net₄
            ]

  unfoldable pub tls_connect_common : List ℕ → ℕ → Credentials → Net → Attempted
  tls_connect_common host port cred net =
      let (there, net₁) = dialer.calloc (set_stage Stage.dns net) in
      if not there
      then (
        none,
        record new_result { failure_stage = dns_failure; error_code = err_allocation },
        dialer.note_allocation_failure net₁,
      )
      else let t0 = time_us net₁ in
        let (answer, net₂) = resolve_host lwip dialer host net₁ in
        let c = record new_conn {
          tcp = record Plain.Connect.new_conn { dns_us = since (time_us net₂) t0 };
        } in
        elim answer [
          | unresolved e late ↦ connect_failed c new_result dns_failure e late net₂
          | resolved addr ↦ open_tcp cred addr port c net₂
        ]

  unfoldable pub tls_connect_attempt : List ℕ → ℕ → Credentials → Net → Attempted
  tls_connect_attempt host port cred net = tls_connect_common host port cred net

  unfoldable pub tls_connect : List ℕ → ℕ → Credentials → Net → Option (TlsConn lwip tls) × Net
  tls_connect host port cred net =
      let (c, a, net') = tls_connect_common host port cred net in (c, net')
