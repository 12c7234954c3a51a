-- ===== src/Plain/Connect/Ending.antt =====
-- The loops of `resolve_host` and `tls_connect_plain_attempt` in mqtt_client/plain_transport.c end.
use assessing_pq_mqtt_m_tls.Common.{
  ℕ, zero, suc, ◌+◌, ◌-◌, ◌^◌, ◌≡◌, ◌≤◌, ◌<◌, refl, some, Bool, true, false, ltb, ◌||◌, arith,
  Bool-cases, inl, inr,
}
use assessing_pq_mqtt_m_tls.Plain.{TlsConn, handle_all, Lwip, wrap32}
use assessing_pq_mqtt_m_tls.Plain.Delivery.{NetLaws}
use assessing_pq_mqtt_m_tls.Plain.Connect.{
  Dns, dns_cb_all, Dialer, resolve_rounds, connect_rounds, dial_fuel,
}

module _ (lwip : Lwip) (dialer : Dialer lwip) (laws : NetLaws lwip) where
  open lwip use {Net, ms, sleep_ms}

  -- Fuel for every millisecond up to the deadline is enough, where the clock does not wrap.
  resolve_rounds_end :
      (fuel deadline : ℕ) (d : Dns) (net : Net)
      → deadline + 1001 < 2 ^ 32
      → ms net ≤ deadline + 1000
      → deadline + 2 - ms net ≤ fuel
      → 0 < fuel
      → (r : Bool × Dns × Net) × (resolve_rounds lwip dialer fuel deadline d net ≡ some r)
  unfolding resolve_rounds
  resolve_rounds_end zero deadline d net k l m z = absurd (omega arith)
  resolve_rounds_end (suc fuel) deadline d net k l m z = elim (Bool-cases d.dns_done) [
    | inl stop ↦ ((false, d, net), simp stop refl)
    | inr go ↦ elim (Bool-cases (ltb deadline (wrap32 (ms net)))) [
      | inl late ↦ ((true, d, net), simp (go, late) refl)
      | inr early ↦
          let w : ms net ≤ deadline = ground arith in
          let (r, f) =
            resolve_rounds_end fuel deadline (dns_cb_all (dialer.dns_callbacks net) d)
              (sleep_ms net).1 k (omega (arith, laws.sleep_soon net))
              (omega (arith, laws.sleep_later net)) (omega arith) in
          (r, simp (go, early, f) refl)
    ]
  ]

  connect_rounds_ends :
      (fuel deadline : ℕ) (c : TlsConn) (net : Net)
      → deadline + 1001 < 2 ^ 32
      → ms net ≤ deadline + 1000
      → deadline + 2 - ms net ≤ fuel
      → 0 < fuel
      → (r : Bool × TlsConn × Net) × (connect_rounds lwip dialer fuel deadline c net ≡ some r)
  unfolding connect_rounds
  connect_rounds_ends zero deadline c net k l m z = absurd (omega arith)
  connect_rounds_ends (suc fuel) deadline c net k l m z =
      elim (Bool-cases (c.tcp_connected || c.tcp_error)) [
        | inl stop ↦ ((false, c, net), simp stop refl)
        | inr go ↦ elim (Bool-cases (ltb deadline (wrap32 (ms net)))) [
          | inl late ↦ ((true, c, net), simp (go, late) refl)
          | inr early ↦
              let w : ms net ≤ deadline = ground arith in
              let (r, f) =
                connect_rounds_ends fuel deadline (handle_all (sleep_ms net).0 c) (sleep_ms net).1 k
                  (omega (arith, laws.sleep_soon net)) (omega (arith, laws.sleep_later net))
                  (omega arith) in
              (r, simp (go, early, f) refl)
        ]
      ]

  -- Both waits of a connection attempt end: the fuel that they have is enough for their ten seconds,
  -- unless the 32-bit clock is less than 11.002 seconds from its end.
  pub rounds_total :
      (d : Dns) (c : TlsConn) (net : Net)
      → ms net + 11001 < 2 ^ 32
      → ((r : Bool × Dns × Net) × (resolve_rounds lwip dialer
              (dial_fuel lwip dialer)
              (wrap32 (wrap32 (ms net) + 10000))
              d
              net
            ≡ some r))
        × ((r : Bool × TlsConn × Net) × (connect_rounds lwip dialer
                (dial_fuel lwip dialer)
                (wrap32 (wrap32 (ms net) + 10000))
                c
                net
              ≡ some r))
  rounds_total d c net h =
      let t : wrap32 (wrap32 (ms net) + 10000) ≡ ms net + 10000 = omega arith in
      rw t (
        resolve_rounds_end 10002 (ms net + 10000) d net (omega arith) (omega arith) (omega arith)
            (omega arith),
        connect_rounds_ends 10002 (ms net + 10000) c net (omega arith) (omega arith) (omega arith)
            (omega arith),
      )
