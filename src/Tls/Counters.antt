-- ===== src/Tls/Counters.antt =====
-- The handshake's measurements in mqtt_client/tls_transport.c, over calls of wolfSSL outside it.
use assessing_pq_mqtt_m_tls.Common.{Option, some, none, Option-cases, inl, inr}
use assessing_pq_mqtt_m_tls.Common.{
  ℕ, ◌%◌, ◌^◌, ◌≡◌, refl, ◌∙◌, List, [], ◌∷◌, some, none, false, not, length, ◌||◌, take,
  Bool-cases, inl, inr, arith,
}
use assessing_pq_mqtt_m_tls.Plain
use assessing_pq_mqtt_m_tls.Plain.{
  is_ok, Event, connected, arrived, broken, on_connected, on_recv, on_err, handle, handle_all, Lwip,
  wrap32,
}
use assessing_pq_mqtt_m_tls.Mqtt.Packet.{ConnectArgs}
use assessing_pq_mqtt_m_tls.Mqtt.Client.{mqtt_connect_internal}
use assessing_pq_mqtt_m_tls.Mqtt.Client.Keeping.{mqtt_connect_internal-Holds}
use assessing_pq_mqtt_m_tls.Tls.Steps.{Change, Steps, run_io-Runs}
use assessing_pq_mqtt_m_tls.Tls.{
  Io, Wolfssl, TlsConn, on_events, count_recv, count_wait, count_send, wssl_send, run_io,
  tls_get_timings, World, tls_write, tls_read, tls_transport,
}

handle-times :
    (e : Event) (c : Plain.TlsConn)
    → ((handle e c).dns_us ≡ c.dns_us) × ((handle e c).tcp_connect_us ≡ c.tcp_connect_us)
unfolding handle on_connected on_recv on_err
handle-times (connected err) c = ground arith
handle-times (arrived none err) c = ground arith
handle-times (arrived (some chain) err) c = ground arith
handle-times (broken err) c = ground arith

handle_all-times :
    (events : List Event) (c : Plain.TlsConn)
    → ((handle_all events c).dns_us ≡ c.dns_us)
      × ((handle_all events c).tcp_connect_us ≡ c.tcp_connect_us)
unfolding handle_all
handle_all-times [] c = (refl, refl)
handle_all-times (e ∷ events) c =
    let (d, t) = handle-times e c in
    let (d', t') = handle_all-times events (handle e c) in (d' ∙ d, t' ∙ t)

module _ (lwip : Lwip) (tls : Wolfssl lwip) where
  open lwip use {Net, ms, time_us, sleep_ms}

  -- The second connection is not in a handshake, and has the times and the handshake's counters of
  -- the first.
  pub record Quiet (c c' : TlsConn lwip tls) : Type 0 where
    pub outside : c'.in_handshake ≡ false
    pub same_timings : tls_get_timings lwip tls c' ≡ tls_get_timings lwip tls c
    pub same_rx_bytes : c'.tls_handshake_rx_bytes ≡ c.tls_handshake_rx_bytes
    pub same_tx_bytes : c'.tls_handshake_tx_bytes ≡ c.tls_handshake_tx_bytes
    pub same_tx_calls : c'.hs_tx_calls ≡ c.hs_tx_calls
    pub same_rx_calls : c'.hs_rx_calls ≡ c.hs_rx_calls

  pub Quiet-refl : (c : TlsConn lwip tls) → c.in_handshake ≡ false → Quiet c c
  Quiet-refl c h = record {
    outside = h;
    same_timings = refl;
    same_rx_bytes = refl;
    same_tx_bytes = refl;
    same_tx_calls = refl;
    same_rx_calls = refl;
  }

  pub Quiet-trans : (c c' c'' : TlsConn lwip tls) → Quiet c c' → Quiet c' c'' → Quiet c c''
  Quiet-trans c c' c'' q r = record {
    outside = r.outside;
    same_timings = r.same_timings ∙ q.same_timings;
    same_rx_bytes = r.same_rx_bytes ∙ q.same_rx_bytes;
    same_tx_bytes = r.same_tx_bytes ∙ q.same_tx_bytes;
    same_tx_calls = r.same_tx_calls ∙ q.same_tx_calls;
    same_rx_calls = r.same_rx_calls ∙ q.same_rx_calls;
  }

  -- A change of the TCP side that keeps its times.
  tcp-Quiet :
      (c : TlsConn lwip tls) (tcp : Plain.TlsConn)
      → c.in_handshake ≡ false
      → tcp.dns_us ≡ c.tcp.dns_us
      → tcp.tcp_connect_us ≡ c.tcp.tcp_connect_us
      → Quiet c (record c { tcp = tcp })
  unfolding tls_get_timings
  tcp-Quiet c tcp h d t = record {
    outside = h;
    same_timings = rw (d, t) refl;
    same_rx_bytes = refl;
    same_tx_bytes = refl;
    same_tx_calls = refl;
    same_rx_calls = refl;
  }

  on_events-Quiet :
      (events : List Event) (c : TlsConn lwip tls)
      → c.in_handshake ≡ false
      → Quiet c (on_events lwip tls events c)
  unfolding on_events
  on_events-Quiet events c h =
      let (d, t) = handle_all-times events c.tcp in tcp-Quiet c (handle_all events c.tcp) h d t

  count_recv-Quiet :
      (t_enter : ℕ) (net : Net) (c : TlsConn lwip tls)
      → c.in_handshake ≡ false
      → Quiet c (count_recv lwip tls t_enter net c)
  unfolding count_recv
  count_recv-Quiet t_enter net c h = simp h (Quiet-refl c h)

  count_wait-Quiet :
      (c : TlsConn lwip tls) → c.in_handshake ≡ false → Quiet c (count_wait lwip tls c)
  unfolding count_wait
  count_wait-Quiet c h = simp h (Quiet-refl c h)

  count_send-Quiet :
      (sz : ℕ) (c : TlsConn lwip tls) → c.in_handshake ≡ false → Quiet c (count_send lwip tls sz c)
  unfolding count_send
  count_send-Quiet sz c h = Quiet-trans c _ _ (tcp-Quiet c _ h refl refl) (count_wait-Quiet _ h)

  wssl_send-Quiet :
      (buf : List ℕ) (c : TlsConn lwip tls) (net : Net)
      → c.in_handshake ≡ false
      → Quiet c (wssl_send lwip tls buf c net).1
  unfolding wssl_send
  wssl_send-Quiet buf c net h =
      let e = (lwip.tcp_write net (take (length buf % 2 ^ 16) buf)).0 in
      elim (Bool-cases (not c.tcp.pcb || c.tcp.tcp_error)) [
        | inl shut ↦ rw (shut, wssl_send) (Quiet-refl c h)
        | inr there ↦ elim (Bool-cases (is_ok e)) [
          | inl taken ↦ rw (there, taken, wssl_send) (count_send-Quiet (length buf) c h)
          | inr refused ↦ rw (there, refused, wssl_send) (Quiet-refl c h)
        ]
      ]

  abbrev pub StaysQuiet : Change lwip tls
  StaysQuiet c n c' n' = c.in_handshake ≡ false → Quiet c c'

  quiet-Steps : Steps lwip tls StaysQuiet StaysQuiet
  quiet-Steps = record {
    stay = λ c n h. Quiet-refl c h;
    pop = λ c₀ n₀ c n sz w h. Quiet-trans c₀ c _ (w h) (tcp-Quiet c _ (w h).outside refl refl);
    sleep = λ c₀ n₀ c n w h. Quiet-trans c₀ c _ (w h) (on_events-Quiet _ c (w h).outside);
    late = λ c₀ n₀ c n w h. Quiet-trans c₀ c _ (w h) (tcp-Quiet c _ (w h).outside refl refl);
    waited = λ c₀ n₀ c n w. w;
    counted = λ c₀ n₀ c n w h. Quiet-trans c₀ c _ (w h) (count_recv-Quiet _ n c (w h).outside);
    work = λ k c n h. on_events-Quiet _ c h;
    write = λ buf c n h. wssl_send-Quiet buf c n h;
    both = λ c₀ n₀ c₁ n₁ c₂ n₂ p q h. Quiet-trans c₀ c₁ c₂ (p h) (q (p h).outside);
  }

  -- A call of wolfSSL outside the handshake keeps its measurements.
  pub run_io-Quiet {ℓ} :
      {A : Type ℓ} (io : Io A) (c : TlsConn lwip tls) (net : Net)
      → c.in_handshake ≡ false
      → Quiet c (run_io lwip tls io c net).1
  run_io-Quiet io c net = run_io-Runs lwip tls StaysQuiet StaysQuiet quiet-Steps io c net

  -- The connection of a world is there and outside the handshake, with the measurements of `c`.
  abbrev pub KeepsMeasurements : TlsConn lwip tls → World lwip tls → Type 0
  KeepsMeasurements c w = (c' : TlsConn lwip tls) × (w.conn ≡ some c') × Quiet c c'

  session-Quiet :
      (c c' : TlsConn lwip tls) (s : Option tls.Ssl) → Quiet c c' → Quiet c (record c' { ssl = s })
  unfolding tls_get_timings
  session-Quiet c c' s q = record {
    outside = q.outside;
    same_timings = q.same_timings;
    same_rx_bytes = q.same_rx_bytes;
    same_tx_bytes = q.same_tx_bytes;
    same_tx_calls = q.same_tx_calls;
    same_rx_calls = q.same_rx_calls;
  }

  tls_write-Keeps :
      (c : TlsConn lwip tls) (w : World lwip tls) (buf : List ℕ)
      → KeepsMeasurements c w
      → KeepsMeasurements c (tls_write lwip tls w buf).1
  unfolding tls_write
  tls_write-Keeps c w buf (c', e, q) = elim (Option-cases c'.ssl) [
    | inl n ↦ rw (e, tls_write, n) (c', e, q)
    | inr (s, y) ↦
        rw (e, tls_write, y)
          (
            _,
            refl,
            session-Quiet c _ _
                (Quiet-trans c c' _ q (run_io-Quiet (tls.write s buf) c' w.net q.outside)),
          )
  ]

  tls_read-Keeps :
      (c : TlsConn lwip tls) (w : World lwip tls) (len : ℕ)
      → KeepsMeasurements c w
      → KeepsMeasurements c (tls_read lwip tls w len).1
  unfolding tls_read
  tls_read-Keeps c w len (c', e, q) = elim (Option-cases c'.ssl) [
    | inl n ↦ rw (e, tls_read, n) (c', e, q)
    | inr (s, y) ↦
        let c₁ : TlsConn lwip tls = record c' { tcp = record c'.tcp { io_timed_out = false } } in
        let q₁ = Quiet-trans c c' c₁ q (tcp-Quiet c' c₁.tcp q.outside refl refl) in
        rw (e, tls_read, y)
          (
            _,
            refl,
            session-Quiet c _ _
                (Quiet-trans c c₁ _ q₁ (run_io-Quiet (tls.read s len) c₁ w.net q₁.outside)),
          )
  ]

  -- The traffic of MQTT never gets into the measurements of the handshake: whatever a connection
  -- attempt of MQTT over TLS does, the times and the handshake's counts that `tls_get_timings` and
  -- `tls_get_bandwidth` report afterwards are those of the connection before it.
  pub mqtt_connect_internal-Keeps :
      (c : TlsConn lwip tls) (net : Net) (a : ConnectArgs)
      → c.in_handshake ≡ false
      → KeepsMeasurements c
          (mqtt_connect_internal (tls_transport lwip tls) (record { conn = some c; net = net }) a).1
  mqtt_connect_internal-Keeps c net a h =
      mqtt_connect_internal-Holds (tls_transport lwip tls) (KeepsMeasurements c) (tls_write-Keeps c)
        (tls_read-Keeps c) (record { conn = some c; net = net }) a (c, refl, Quiet-refl c h)
