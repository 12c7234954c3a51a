-- ===== src/Tls/Connect/Outcome.antt =====
-- What `tls_connect_attempt` of mqtt_client/tls_transport.c reports.
pub mod Causes
pub mod Phases
use assessing_pq_mqtt_m_tls.Common.{
  ℕ, ◌+◌, ◌≤◌, ◌≡◌, ◌⊎◌, refl, sym, ap, ◌∙◌, ℤ, pos, negsuc, List, Option, some, none, Bool, true,
  false, not, arith, Bool-cases, Option-cases, inl, inr,
}
use assessing_pq_mqtt_m_tls.Memory.{Stage}
use assessing_pq_mqtt_m_tls.Transport.{
  FailureStage, no_failure, dns_failure, tcp_failure, tls_context_failure, certificate_failure,
  private_key_failure, key_share_failure, tls_handshake_failure, mqtt_failure, err_timeout,
  err_allocation, Timings, AttemptResult, new_result,
}
use assessing_pq_mqtt_m_tls.Plain
use assessing_pq_mqtt_m_tls.Plain.{is_ok, Lwip, wrap32}
use assessing_pq_mqtt_m_tls.Plain.Connect.{
  Dialer, resolve_host, connect_rounds, dial_fuel, unresolved,
}
use assessing_pq_mqtt_m_tls.Plain.Connect.Lookup.{Resolution-cases, resolve_host_code}
use assessing_pq_mqtt_m_tls.Plain.Connect.Causes.{
  Says, TcpCause, no_pcb, tcp_refused, tcp_late, tcp_broken, allocated, looked_up, new_pcb, begun,
  waited,
}
use assessing_pq_mqtt_m_tls.Tls.{Wolfssl, TlsConn, tls_get_timings, tls_get_bandwidth}
use assessing_pq_mqtt_m_tls.Tls.Waiting.{Timer, handshake_rounds-Counts}
use assessing_pq_mqtt_m_tls.Tls.Connect.{
  is_success, Credentials, capture_result, connect_failed, handshake_rounds, handshake_fuel,
  measured, finish_handshake, end_handshake, handshake, share_keys, use_session, start_session,
  load_credentials, use_context, start_tls, tcp_settled, open_tcp, tls_connect_common,
  tls_connect_attempt,
}

-- The time of the handshake is its computing and its waiting.
unfoldable pub Splits : Timings → Type 0
Splits t = (t.tls_net_wait_us ≤ t.tls_us) × (t.tls_crypto_us + t.tls_net_wait_us ≡ t.tls_us)

-- The phases of a connection, before MQTT.
unfoldable pub is_connecting : FailureStage → Bool
is_connecting no_failure = false
is_connecting mqtt_failure = false
is_connecting dns_failure = true
is_connecting tcp_failure = true
is_connecting tls_context_failure = true
is_connecting certificate_failure = true
is_connecting private_key_failure = true
is_connecting key_share_failure = true
is_connecting tls_handshake_failure = true

-- A failure in a phase before MQTT, for a cause that `why` tells; a timeout has its error code.
pub record Failed (why : AttemptResult → Type 0) (a : AttemptResult) : Type 0 where
  pub phase : is_connecting a.failure_stage ≡ true
  pub late_code : a.timed_out ≡ true → a.error_code ≡ err_timeout
  pub splits : Splits a.timings
  pub cause : why a

module _ (lwip : Lwip) (dialer : Dialer lwip) (tls : Wolfssl lwip) (timer : Timer lwip tls) where
  open lwip use {Net, ms, time_us, set_stage}
  open tls use {Ctx, Ssl}

  -- A session whose handshake is over, with what was measured of it and no failure.
  pub record Established (c : TlsConn lwip tls) (a : AttemptResult) : Type 0 where
    pub session : (s : Ssl) × (c.ssl ≡ some s)
    pub over : c.in_handshake ≡ false
    pub clean : a.failure_stage ≡ no_failure
    pub code : a.error_code ≡ pos 0
    pub in_time : a.timed_out ≡ false
    pub timings : a.timings ≡ tls_get_timings lwip tls c
    pub bandwidth : a.bandwidth ≡ tls_get_bandwidth lwip tls c
    pub splits : Splits a.timings

  -- The result of the wait of the handshake, 30 seconds long, on some session, connection and network.
  abbrev pub Ran : Option (Bool × ℤ × Ssl × TlsConn lwip tls × Net) → Type 0
  Ran r =
      (s : Ssl) × (c : TlsConn lwip tls) × (net : Net) × (handshake_rounds lwip dialer tls
          (handshake_fuel lwip dialer tls) (wrap32 (wrap32 (ms net) + 30000)) s c net
        ≡ r)

  -- The last `wolfSSL_connect` on the session of `c` has given SSL_SUCCESS, in time.
  abbrev pub Agreed : TlsConn lwip tls → Type 0
  Agreed c =
      (s : Ssl) × (c' : TlsConn lwip tls) × (net : Net) × (c.ssl ≡ some s)
      × Ran (some (false, pos 1, s, c', net))

  -- Why a handshake fails, and what the record says then: its time is over; a read timed out; or
  -- `wolfSSL_connect` gave an error, which is that of `wolfSSL_get_error`.
  pub data HandshakeCause (a : AttemptResult) : Type 0 where
    time_over :
        (Ran none
          ⊎ ((ret : ℤ) × (s : Ssl) × (c : TlsConn lwip tls) × (net : Net) × Ran
                (some (true, ret, s, c, net))))
        → Says a tls_handshake_failure err_timeout true
        → HandshakeCause a
    read_timed_out :
        (ret : ℤ) (s : Ssl) (c : TlsConn lwip tls) (net : Net)
        → Ran (some (false, ret, s, c, net))
        → is_success ret ≡ false
        → c.tcp.io_timed_out ≡ true
        → Says a tls_handshake_failure err_timeout true
        → HandshakeCause a
    handshake_error :
        (ret : ℤ) (s : Ssl) (c : TlsConn lwip tls) (net : Net)
        → Ran (some (false, ret, s, c, net))
        → is_success ret ≡ false
        → c.tcp.io_timed_out ≡ false
        → Says a tls_handshake_failure (tls.get_error s ret) false
        → HandshakeCause a

  -- The result of an attempt, where a failure has the cause `why`, and a session is one that `good`
  -- tells of.
  abbrev pub Reported :
      (AttemptResult → Type 0)
      → (TlsConn lwip tls → Type 0)
      → Option (TlsConn lwip tls) × AttemptResult × Net
      → Type 0
  Reported why good (some c, a, net) = Established c a × good c
  Reported why good (none, a, net) = Failed why a

  pub Reported-because :
      (why why' : AttemptResult → Type 0) (good good' : TlsConn lwip tls → Type 0)
      (r : Option (TlsConn lwip tls) × AttemptResult × Net)
      → ((a : AttemptResult) → why a → why' a)
      → ((c : TlsConn lwip tls) → good c → good' c)
      → Reported why good r
      → Reported why' good' r
  Reported-because why why' good good' (some c, a, net) h k (e, g) = (e, k c g)
  Reported-because why why' good good' (none, a, net) h k f = record {
    phase = f.phase;
    late_code = f.late_code;
    splits = f.splits;
    cause = h a f.cause;
  }

  -- Nothing has failed yet.
  pub record Clean (a : AttemptResult) : Type 0 where
    pub stage : a.failure_stage ≡ no_failure
    pub code : a.error_code ≡ pos 0
    pub in_time : a.timed_out ≡ false

  -- The handshake has not begun.
  pub record Fresh (c : TlsConn lwip tls) : Type 0 where
    pub no_time : c.tls_handshake_us ≡ 0
    pub no_wait : c.hs_net_wait_us ≡ 0

  -- The wait is part of the handshake.
  unfoldable pub Fits : TlsConn lwip tls → Type 0
  Fits c = c.hs_net_wait_us ≤ c.tls_handshake_us

  pub Fresh-Fits : (c : TlsConn lwip tls) → Fresh c → Fits c
  unfolding Fits
  Fresh-Fits c f = omega (arith, f.no_time, f.no_wait)

  tls_get_timings-Splits : (c : TlsConn lwip tls) → Fits c → Splits (tls_get_timings lwip tls c)
  unfolding Fits Splits tls_get_timings
  tls_get_timings-Splits c f = (f, ground (arith, f))

  pub connect_failed-Reported :
      (why : AttemptResult → Type 0) (good : TlsConn lwip tls → Type 0) (c : TlsConn lwip tls)
      (a : AttemptResult) (stage : FailureStage) (code : ℤ) (late : Bool) (net : Net)
      → is_connecting stage ≡ true
      → (late ≡ true → code ≡ err_timeout)
      → Fits c
      → ((b : AttemptResult) → Says b stage code late → why b)
      → Reported why good (connect_failed lwip dialer tls c a stage code late net)
  unfolding connect_failed capture_result
  connect_failed-Reported why good c a stage code late net p r f h = record {
    phase = p;
    late_code = r;
    splits = tls_get_timings-Splits c f;
    cause = h _ (refl, refl, refl);
  }

  is_success-one : (ret : ℤ) → is_success ret ≡ true → ret ≡ pos 1
  is_success-one (pos n) e = ground (arith, e)
  is_success-one (negsuc n) e = absurd (ground (arith, e))

  finish_handshake-Reported :
      (ret : ℤ) (s : Ssl) (c c' : TlsConn lwip tls) (a : AttemptResult) (net : Net)
      → Fits c
      → Clean a
      → c.in_handshake ≡ false
      → c.ssl ≡ some s
      → c.tcp.io_timed_out ≡ c'.tcp.io_timed_out
      → Ran (some (false, ret, s, c', net))
      → Reported HandshakeCause Agreed (finish_handshake lwip dialer tls false ret s c a net)
  unfolding finish_handshake capture_result is_connecting
  finish_handshake-Reported ret s c c' a net f k o t same ran = elim (Bool-cases (is_success ret)) [
    | inr bad ↦ elim (Bool-cases c.tcp.io_timed_out) [
      | inl late ↦
          simp (bad, late)
            (connect_failed-Reported HandshakeCause Agreed c a tls_handshake_failure _ true net refl
              (λ e. refl) f (λ b q. read_timed_out ret s c' net ran bad (sym same ∙ late) q))
      | inr in_time ↦
          simp (bad, in_time)
            (connect_failed-Reported HandshakeCause Agreed c a tls_handshake_failure _ false net
              refl (λ e. absurd (ground (arith, e))) f
              (λ b q. handshake_error ret s c' net ran bad (sym same ∙ in_time) q))
    ]
    | inl good ↦ rw good (
      record {
        session = (s, t);
        over = o;
        clean = k.stage;
        code = k.code;
        in_time = k.in_time;
        timings = refl;
        bandwidth = refl;
        splits = tls_get_timings-Splits c f;
      },
      (s, c', net, t, rw (is_success-one ret good) at ran),
    )
  ]

  time_over-Reported :
      (s : Ssl) (ret : ℤ) (c : TlsConn lwip tls) (a : AttemptResult) (net : Net)
      → Fits c
      → (Ran none
          ⊎ ((ret' : ℤ) × (s' : Ssl) × (c' : TlsConn lwip tls) × (net' : Net) × Ran
                (some (true, ret', s', c', net'))))
      → Reported HandshakeCause Agreed (finish_handshake lwip dialer tls true ret s c a net)
  unfolding finish_handshake is_connecting
  time_over-Reported s ret c a net f ran =
      connect_failed-Reported HandshakeCause Agreed c a tls_handshake_failure err_timeout true net
        refl (λ _. refl) f (λ b q. time_over ran q)

  end_handshake-Reported :
      (s : Ssl) (c : TlsConn lwip tls) (a : AttemptResult) (net : Net)
      (r : Option (Bool × ℤ × Ssl × TlsConn lwip tls × Net))
      → Fresh c
      → Clean a
      → handshake_rounds lwip dialer tls
          (handshake_fuel lwip dialer tls)
          (wrap32 (wrap32 (ms net) + 30000))
          s
          (record c { in_handshake = true })
          net
        ≡ r
      → Reported HandshakeCause Agreed (end_handshake lwip dialer tls c (time_us net) s a net r)
  unfolding end_handshake measured Fits
  end_handshake-Reported s c a net none f k e =
      time_over-Reported s (pos 0) _ a net (omega (arith, f.no_wait))
        (inl (s, record c { in_handshake = true }, net, e))
  end_handshake-Reported s c a net (some (true, ret, s', c', net')) f k e =
      let w = handshake_rounds-Counts lwip tls timer dialer _ _ s _ net _ e in
      let b = w.within (omega (arith, f.no_wait)) in
      time_over-Reported s' ret _ a net'
        (omega (arith, f.no_wait, b, w.later, timer.fits net, timer.fits net'))
        (inr (ret, s', c', net', (s, record c { in_handshake = true }, net, e)))
  end_handshake-Reported s c a net (some (false, ret, s', c', net')) f k e =
      let w = handshake_rounds-Counts lwip tls timer dialer _ _ s _ net _ e in
      let b = w.within (omega (arith, f.no_wait)) in
      finish_handshake-Reported ret s' _ c' a net'
        (omega (arith, f.no_wait, b, w.later, timer.fits net, timer.fits net')) k refl refl refl
        (s, record c { in_handshake = true }, net, e)

  pub handshake-Reported :
      (s : Ssl) (c : TlsConn lwip tls) (a : AttemptResult) (net : Net)
      → Fresh c
      → Clean a
      → Reported HandshakeCause Agreed (handshake lwip dialer tls s c a net)
  unfolding handshake
  handshake-Reported s c a net f k =
      end_handshake-Reported s c a (tls.mark_tls_start (set_stage Stage.tls_handshake net)) _ f k
        refl

  -- A failure before the handshake.
  pub early-Reported :
      (why : AttemptResult → Type 0) (good : TlsConn lwip tls → Type 0) (c : TlsConn lwip tls)
      (a : AttemptResult) (stage : FailureStage) (code : ℤ) (net : Net)
      → is_connecting stage ≡ true
      → Fresh c
      → ((b : AttemptResult) → Says b stage code false → why b)
      → Reported why good (connect_failed lwip dialer tls c a stage code false net)
  early-Reported why good c a stage code net p f h =
      connect_failed-Reported why good c a stage code false net p (λ e. absurd (ground (arith, e)))
        (Fresh-Fits c f) h
