-- ===== src/Tls/Ending.antt =====
-- The loops of `wssl_recv` and of the handshake in mqtt_client/tls_transport.c end.
use assessing_pq_mqtt_m_tls.Common.{
  ℕ, zero, suc, ◌+◌, ◌-◌, ◌*◌, ◌/◌, ◌%◌, ◌^◌, ◌≡◌, ◌≤◌, ◌<◌, refl, some, Bool, true, false, not,
  length, ltb, ◌||◌, ◌&&◌, ◌!=◌, ℤ, arith, Bool-cases, inl, inr,
}
use assessing_pq_mqtt_m_tls.Ring.{rx_pop}
use assessing_pq_mqtt_m_tls.Plain.{Lwip, wrap32}
use assessing_pq_mqtt_m_tls.Plain.Connect.{Dialer}
use assessing_pq_mqtt_m_tls.Tls.{
  Received, Wolfssl, TlsConn, on_events, count_recv, wssl_rounds, recv_fuel, run_io,
  recv_conn_close, recv_timeout, got,
}
use assessing_pq_mqtt_m_tls.Tls.Connect.{is_success, wants_io, handshake_rounds, handshake_fuel}

-- The two clocks are one; a sleep takes from a millisecond to a second, and a call of `wolfSSL_connect`
-- from a microsecond to an hour.
pub record Moving (lwip : Lwip) (tls : Wolfssl lwip) : Type 0 where
  pub one_clock : (n : lwip.Net) → lwip.ms n ≡ lwip.time_us n / 1000
  pub sleep_later : (n : lwip.Net) → lwip.ms n < lwip.ms (lwip.sleep_ms n).1
  pub sleep_soon : (n : lwip.Net) → lwip.ms (lwip.sleep_ms n).1 ≤ lwip.ms n + 1000
  pub connect_later :
      (s : tls.Ssl) (c : TlsConn lwip tls) (n : lwip.Net)
      → lwip.time_us n < lwip.time_us (run_io lwip tls (tls.connect s) c n).2
  pub connect_soon :
      (s : tls.Ssl) (c : TlsConn lwip tls) (n : lwip.Net)
      → lwip.time_us (run_io lwip tls (tls.connect s) c n).2 ≤ lwip.time_us n + 3600000000

module _ (lwip : Lwip) (dialer : Dialer lwip) (tls : Wolfssl lwip) (moving : Moving lwip tls) where
  open lwip use {Net, ms, time_us, sleep_ms}

  wssl_rounds_end :
      (fuel sz t_enter deadline : ℕ) (c : TlsConn lwip tls) (net : Net)
      → deadline + 1001 < 2 ^ 32
      → ms net ≤ deadline + 1000
      → deadline + 2 - ms net ≤ fuel
      → 0 < fuel
      → (r : Received × TlsConn lwip tls × Net) × (wssl_rounds lwip tls fuel sz t_enter deadline c
            net
          ≡ some r)
  unfolding wssl_rounds
  wssl_rounds_end zero sz t_enter deadline c net k l m z = absurd (omega arith)
  wssl_rounds_end (suc fuel) sz t_enter deadline c net k l m z =
      let p = rx_pop c.tcp.rx (sz % 2 ^ 16) in
      let c' : TlsConn lwip tls = record c { tcp = record c.tcp { rx = p.1 } } in
      elim (Bool-cases (length p.0 != 0)) [
        | inl some_bytes ↦
            ((got p.0, count_recv lwip tls t_enter net c', net), simp some_bytes refl)
        | inr no_bytes ↦ elim (Bool-cases (c.tcp.tcp_error || c.tcp.remote_closed)) [
          | inl shut ↦ ((recv_conn_close, c', net), simp (no_bytes, shut) refl)
          | inr open_still ↦ elim (Bool-cases (ltb deadline (wrap32 (ms net)))) [
            | inl late ↦ (
              (recv_timeout, record c' { tcp = record c'.tcp { io_timed_out = true } }, net),
              simp (no_bytes, open_still, late) refl,
            )
            | inr early ↦
                let w : ms net ≤ deadline = ground arith in
                let (r, f) =
                  wssl_rounds_end fuel sz t_enter deadline (on_events lwip tls (sleep_ms net).0 c')
                    (sleep_ms net).1 k (omega (arith, moving.sleep_soon net))
                    (omega (arith, moving.sleep_later net)) (omega arith) in
                (r, simp (no_bytes, open_still, early, f) refl)
          ]
        ]
      ]

  handshake_rounds_end :
      (fuel deadline : ℕ) (s : tls.Ssl) (c : TlsConn lwip tls) (net : Net)
      → deadline + 3600001 < 2 ^ 32
      → ms net ≤ deadline
      → deadline * 1000 + 1000 ≤ time_us net + fuel
      → 0 < fuel
      → (r : Bool × ℤ × tls.Ssl × TlsConn lwip tls × Net) × (handshake_rounds lwip dialer tls fuel
            deadline s c net
          ≡ some r)
  unfolding handshake_rounds
  handshake_rounds_end zero deadline s c net k l m z = absurd (omega arith)
  handshake_rounds_end (suc fuel) deadline s c net k l m z =
      let x = run_io lwip tls (tls.connect s) c net in
      elim (Bool-cases (ltb deadline (wrap32 (ms x.2)))) [
        | inl late ↦ ((true, x.0.0, x.0.1, x.1, x.2), simp late refl)
        | inr early ↦
            elim (Bool-cases (not (is_success x.0.0) && wants_io (tls.get_error x.0.1 x.0.0))) [
              | inr over ↦ ((false, x.0.0, x.0.1, x.1, x.2), simp (early, over) refl)
              | inl more ↦
                  let soon : ms x.2 ≤ deadline + 3600001 = omega (
                    arith,
                    l,
                    moving.one_clock net,
                    moving.one_clock x.2,
                    moving.connect_soon s c net,
                  ) in
                  let w : ms x.2 ≤ deadline = ground (arith, early, soon, k) in
                  let left : deadline * 1000 + 1000 ≤ time_us x.2 + fuel =
                    omega (arith, m, moving.connect_later s c net) in
                  let some_left : 0 < fuel = omega (arith, left, w, moving.one_clock x.2) in
                  let (r, f) =
                    handshake_rounds_end fuel deadline x.0.1 x.1 x.2 k w left some_left in
                  (r, simp (early, more, f) refl)
            ]
      ]

  -- A call of `wssl_recv` and the handshake end: the fuel that their loops have is enough, unless the
  -- 32-bit clock is less than about an hour from its end. A sleep takes from a millisecond to a second,
  -- and a call of `wolfSSL_connect` from a microsecond to an hour.
  pub tls_rounds_total :
      (sz : ℕ) (s : tls.Ssl) (c : TlsConn lwip tls) (net : Net)
      → ms net + 3630001 < 2 ^ 32
      → ((r : Received × TlsConn lwip tls × Net) × (wssl_rounds lwip tls
              (recv_fuel lwip tls)
              sz
              (time_us net)
              (wrap32 (wrap32 (ms net) + 15000))
              c
              net
            ≡ some r))
        × ((r : Bool × ℤ × tls.Ssl × TlsConn lwip tls × Net) × (handshake_rounds lwip dialer tls
                (handshake_fuel lwip dialer tls)
                (wrap32 (wrap32 (ms net) + 30000))
                s
                c
                net
              ≡ some r))
  tls_rounds_total sz s c net h =
      let d : wrap32 (wrap32 (ms net) + 15000) ≡ ms net + 15000 = omega arith in
      let e : wrap32 (wrap32 (ms net) + 30000) ≡ ms net + 30000 = omega arith in
      rw (d, e)
        (
          wssl_rounds_end 15002 sz (time_us net) (ms net + 15000) c net (omega arith) (omega arith)
              (omega arith) (omega arith),
          handshake_rounds_end 30001002 (ms net + 30000) s c net (omega arith) (omega arith)
              (omega (arith, moving.one_clock net)) (omega arith),
        )
