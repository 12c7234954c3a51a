-- ===== src/Tls/Steps.antt =====
-- Induction over a call of wolfSSL in mqtt_client/tls_transport.c: a relation between a connection
-- with its network before and after that each step of the callbacks keeps holds over the whole call.
use assessing_pq_mqtt_m_tls.Common.{
  ℕ, zero, suc, ◌+◌, ◌%◌, ◌^◌, ◌≡◌, List, some, true, length, ltb, ◌!=◌, ◌||◌, Bool-cases,
  Option-cases, inl, inr, none-ne-some, some-injective, subst,
}
use assessing_pq_mqtt_m_tls.Ring.{rx_pop}
use assessing_pq_mqtt_m_tls.Plain.{Lwip, wrap32}
use assessing_pq_mqtt_m_tls.Tls.{
  Received, Io, done, compute, recv, send, Wolfssl, TlsConn, on_events, count_recv, wssl_rounds,
  recv_fuel, wssl_recv, wssl_send, run_io,
}

module _ (lwip : Lwip) (tls : Wolfssl lwip) where
  open lwip use {Net, ms, time_us, sleep_ms}

  -- The ring after `rx_pop`, and the connection of a read that is too late.
  abbrev pub popped : ℕ → TlsConn lwip tls → TlsConn lwip tls
  popped sz c = record c { tcp = record c.tcp { rx = (rx_pop c.tcp.rx (sz % 2 ^ 16)).1 } }

  abbrev pub too_late : TlsConn lwip tls → TlsConn lwip tls
  too_late c = record c { tcp = record c.tcp { io_timed_out = true } }

  abbrev pub Change : Type 1
  Change = TlsConn lwip tls → Net → TlsConn lwip tls → Net → Type 0

  -- `Waits` is for the steps inside `wssl_recv`, `Runs` for those of the whole call.
  pub record Steps (Waits Runs : Change) : Type 0 where
    pub stay : (c : TlsConn lwip tls) (n : Net) → Waits c n c n
    pub pop :
        (c₀ : TlsConn lwip tls) (n₀ : Net) (c : TlsConn lwip tls) (n : Net) (sz : ℕ)
        → Waits c₀ n₀ c n
        → Waits c₀ n₀ (popped sz c) n
    pub sleep :
        (c₀ : TlsConn lwip tls) (n₀ : Net) (c : TlsConn lwip tls) (n : Net)
        → Waits c₀ n₀ c n
        → Waits c₀ n₀ (on_events lwip tls (sleep_ms n).0 c) (sleep_ms n).1
    pub late :
        (c₀ : TlsConn lwip tls) (n₀ : Net) (c : TlsConn lwip tls) (n : Net)
        → Waits c₀ n₀ c n
        → Waits c₀ n₀ (too_late c) n
    pub waited :
        (c₀ : TlsConn lwip tls) (n₀ : Net) (c : TlsConn lwip tls) (n : Net)
        → Waits c₀ n₀ c n
        → Runs c₀ n₀ c n
    pub counted :
        (c₀ : TlsConn lwip tls) (n₀ : Net) (c : TlsConn lwip tls) (n : Net)
        → Waits c₀ n₀ c n
        → Runs c₀ n₀ (count_recv lwip tls (time_us n₀) n c) n
    pub work :
        (k : ℕ) (c : TlsConn lwip tls) (n : Net)
        → Runs c n (on_events lwip tls (tls.crypto k n).0 c) (tls.crypto k n).1
    pub write :
        (buf : List ℕ) (c : TlsConn lwip tls) (n : Net)
        → Runs c n (wssl_send lwip tls buf c n).1 (wssl_send lwip tls buf c n).2
    pub both :
        (c₀ : TlsConn lwip tls) (n₀ : Net) (c₁ : TlsConn lwip tls) (n₁ : Net)
        (c₂ : TlsConn lwip tls) (n₂ : Net)
        → Runs c₀ n₀ c₁ n₁
        → Runs c₁ n₁ c₂ n₂
        → Runs c₀ n₀ c₂ n₂

  module _ (Waits Runs : Change) (steps : Steps Waits Runs) where
    wssl_rounds-Runs :
        (fuel sz deadline : ℕ) (c₀ : TlsConn lwip tls) (n₀ : Net) (c : TlsConn lwip tls) (n : Net)
        (r : Received × TlsConn lwip tls × Net)
        → Waits c₀ n₀ c n
        → wssl_rounds lwip tls fuel sz (time_us n₀) deadline c n ≡ some r
        → Runs c₀ n₀ r.1 r.2
    unfolding wssl_rounds
    wssl_rounds-Runs zero sz deadline c₀ n₀ c n r w e = absurd (none-ne-some _ e)
    wssl_rounds-Runs (suc fuel) sz deadline c₀ n₀ c n r w e =
        let bytes = (rx_pop c.tcp.rx (sz % 2 ^ 16)).0 in
        let w' = steps.pop c₀ n₀ c n sz w in
        let goal = λ (x : Received × TlsConn lwip tls × Net). Runs c₀ n₀ x.1 x.2 in
        elim (Bool-cases (length bytes != 0)) [
          | inl some_bytes ↦
              subst goal (some-injective _ _ (rw some_bytes at e))
                (steps.counted c₀ n₀ (popped sz c) n w')
          | inr no_bytes ↦ elim (Bool-cases (c.tcp.tcp_error || c.tcp.remote_closed)) [
            | inl closed ↦
                subst goal (some-injective _ _ (rw (no_bytes, closed) at e))
                  (steps.waited c₀ n₀ (popped sz c) n w')
            | inr open_still ↦ elim (Bool-cases (ltb deadline (wrap32 (ms n)))) [
              | inl over ↦ subst goal (some-injective _ _ (rw (no_bytes, open_still, over) at e)) (
                  steps.waited c₀ n₀ (too_late (popped sz c)) n
                    (steps.late c₀ n₀ (popped sz c) n w'))
              | inr early ↦
                  wssl_rounds-Runs fuel sz deadline c₀ n₀ _ _ r
                    (steps.sleep c₀ n₀ (popped sz c) n w') (rw (no_bytes, open_still, early) at e)
            ]
          ]
        ]

    wssl_recv-Runs :
        (sz : ℕ) (c : TlsConn lwip tls) (n : Net)
        → Runs c n (wssl_recv lwip tls sz c n).1 (wssl_recv lwip tls sz c n).2
    unfolding wssl_recv
    wssl_recv-Runs sz c n =
        let rounds =
          wssl_rounds lwip tls (recv_fuel lwip tls) sz (time_us n) (wrap32 (wrap32 (ms n) + 15000))
            c n in
        elim (Option-cases rounds) [
          | inl e ↦ rw (e, wssl_recv) (steps.waited c n c n (steps.stay c n))
          | inr (r, e) ↦ rw (e, wssl_recv) (wssl_rounds-Runs _ sz _ c n c n r (steps.stay c n) e)
        ]

    -- The whole call keeps the relation.
    pub run_io-Runs {ℓ} :
        {A : Type ℓ} (io : Io A) (c : TlsConn lwip tls) (n : Net)
        → Runs c n (run_io lwip tls io c n).1 (run_io lwip tls io c n).2
    unfolding run_io
    run_io-Runs (done a) c n = steps.waited c n c n (steps.stay c n)
    run_io-Runs (compute k io) c n = steps.both c n _ _ _ _ (steps.work k c n) (run_io-Runs io _ _)
    run_io-Runs (recv sz next) c n =
        steps.both c n _ _ _ _ (wssl_recv-Runs sz c n)
          (run_io-Runs (next (wssl_recv lwip tls sz c n).0) _ _)
    run_io-Runs (send buf next) c n =
        steps.both c n _ _ _ _ (steps.write buf c n)
          (run_io-Runs (next (wssl_send lwip tls buf c n).0) _ _)
