-- ===== src/Tls/Waiting.antt =====
-- The time that mqtt_client/tls_transport.c counts as waiting for the peer's bytes.
use assessing_pq_mqtt_m_tls.Common.{
  ℕ, zero, suc, ◌+◌, ◌%◌, ◌^◌, ◌≤◌, ◌<◌, ◌≡◌, refl, List, some, Bool, not, length, take, ltb, ◌&&◌,
  ◌||◌, Bool-cases, inl, inr, arith, none-ne-some, some-injective, subst, ℤ,
}
use assessing_pq_mqtt_m_tls.Plain.{is_ok, Lwip, wrap32}
use assessing_pq_mqtt_m_tls.Plain.Connect.{Dialer}
use assessing_pq_mqtt_m_tls.Tls.{
  Io, Wolfssl, TlsConn, on_events, count_recv, count_wait, count_send, wssl_send, run_io,
}
use assessing_pq_mqtt_m_tls.Tls.Steps.{Steps, run_io-Runs}
use assessing_pq_mqtt_m_tls.Tls.Connect.{is_success, wants_io, handshake_rounds}

-- The microsecond timer has 64 bits, and goes on while the code sleeps, computes and writes.
pub record Timer (lwip : Lwip) (tls : Wolfssl lwip) : Type 0 where
  pub fits : (n : lwip.Net) → lwip.time_us n < 2 ^ 64
  pub sleeps : (n : lwip.Net) → lwip.time_us n ≤ lwip.time_us (lwip.sleep_ms n).1
  pub computes : (k : ℕ) (n : lwip.Net) → lwip.time_us n ≤ lwip.time_us (tls.crypto k n).1
  pub writes : (n : lwip.Net) (xs : List ℕ) → lwip.time_us n ≤ lwip.time_us (lwip.tcp_write n xs).1

module _ (lwip : Lwip) (tls : Wolfssl lwip) (timer : Timer lwip tls) where
  open lwip use {Net, ms, time_us}

  -- No wait is counted, and time goes on.
  pub record Idles (c₀ : TlsConn lwip tls) (n₀ : Net) (c : TlsConn lwip tls) (n : Net)
      : Type 0 where
    pub later : time_us n₀ ≤ time_us n
    pub same : c.hs_net_wait_us ≡ c₀.hs_net_wait_us

  -- The wait that is counted is no longer than the time that goes by.
  pub record Counts (c₀ : TlsConn lwip tls) (n₀ : Net) (c : TlsConn lwip tls) (n : Net)
      : Type 0 where
    pub later : time_us n₀ ≤ time_us n
    pub within :
        c₀.hs_net_wait_us ≤ time_us n₀
        → c.hs_net_wait_us + time_us n₀ ≤ c₀.hs_net_wait_us + time_us n

  Idles-Counts :
      (c₀ : TlsConn lwip tls) (n₀ : Net) (c : TlsConn lwip tls) (n : Net)
      → Idles c₀ n₀ c n
      → Counts c₀ n₀ c n
  Idles-Counts c₀ n₀ c n i = record {
    later = i.later;
    within = λ h. omega (arith, i.later, i.same);
  }

  count_recv-Counts :
      (c₀ : TlsConn lwip tls) (n₀ : Net) (c : TlsConn lwip tls) (n : Net)
      → Idles c₀ n₀ c n
      → Counts c₀ n₀ (count_recv lwip tls (time_us n₀) n c) n
  unfolding count_recv
  count_recv-Counts c₀ n₀ c n i = elim (Bool-cases c.in_handshake) [
    | inl e ↦
        rw (e, count_recv)
          (record { later = i.later; within = λ h. omega (arith, i.later, i.same, timer.fits n) })
    | inr e ↦ simp e (Idles-Counts c₀ n₀ c n i)
  ]

  count_wait-wait :
      (c : TlsConn lwip tls) → (count_wait lwip tls c).hs_net_wait_us ≡ c.hs_net_wait_us
  unfolding count_wait
  count_wait-wait c = elim (Bool-cases c.in_handshake) [ inl e ↦ rw e refl | inr e ↦ rw e refl ]

  wssl_send-Counts :
      (buf : List ℕ) (c : TlsConn lwip tls) (n : Net)
      → Counts c n (wssl_send lwip tls buf c n).1 (wssl_send lwip tls buf c n).2
  unfolding wssl_send count_send
  wssl_send-Counts buf c n =
      let bytes = take (length buf % 2 ^ 16) buf in
      let l = timer.writes n bytes in
      elim (Bool-cases (not c.tcp.pcb || c.tcp.tcp_error)) [
        | inl shut ↦
            rw (shut, wssl_send) (record { later = omega arith; within = λ h. omega arith })
        | inr there ↦ elim (Bool-cases (is_ok (lwip.tcp_write n bytes).0)) [
          | inl taken ↦
              rw (there, taken, wssl_send)
                (record { later = l; within = λ h. omega (arith, l, count_wait-wait _) })
          | inr refused ↦
              rw (there, refused, wssl_send) (record { later = l; within = λ h. omega (arith, l) })
        ]
      ]

  Counts-trans :
      (c₀ : TlsConn lwip tls) (n₀ : Net) (c₁ : TlsConn lwip tls) (n₁ : Net) (c₂ : TlsConn lwip tls)
      (n₂ : Net)
      → Counts c₀ n₀ c₁ n₁
      → Counts c₁ n₁ c₂ n₂
      → Counts c₀ n₀ c₂ n₂
  Counts-trans c₀ n₀ c₁ n₁ c₂ n₂ p q = record {
    later = omega (arith, p.later, q.later);
    within = λ h. omega (arith, p.within h, q.within (omega (arith, p.within h, p.later)));
  }

  timer-Steps : Steps lwip tls Idles Counts
  unfolding on_events
  timer-Steps = record {
    stay = λ c n. record { later = omega arith; same = refl };
    pop = λ c₀ n₀ c n sz w. record { later = w.later; same = w.same };
    sleep = λ c₀ n₀ c n w. record { later = omega (arith, w.later, timer.sleeps n); same = w.same };
    late = λ c₀ n₀ c n w. record { later = w.later; same = w.same };
    waited = λ c₀ n₀ c n w. Idles-Counts c₀ n₀ c n w;
    counted = λ c₀ n₀ c n w. count_recv-Counts c₀ n₀ c n w;
    work = λ k c n. Idles-Counts c n _ _ (record { later = timer.computes k n; same = refl });
    write = λ buf c n. wssl_send-Counts buf c n;
    both = λ c₀ n₀ c₁ n₁ c₂ n₂ p q. Counts-trans c₀ n₀ c₁ n₁ c₂ n₂ p q;
  }

  -- A call of wolfSSL counts no more waiting than the time that it takes.
  pub run_io-Counts {ℓ} :
      {A : Type ℓ} (io : Io A) (c : TlsConn lwip tls) (n : Net)
      → Counts c n (run_io lwip tls io c n).1 (run_io lwip tls io c n).2
  run_io-Counts io c n = run_io-Runs lwip tls Idles Counts timer-Steps io c n

  module _ (dialer : Dialer lwip) where
    pub handshake_rounds-Counts :
        (fuel deadline : ℕ) (s : tls.Ssl) (c : TlsConn lwip tls) (n : Net)
        (r : Bool × ℤ × tls.Ssl × TlsConn lwip tls × Net)
        → handshake_rounds lwip dialer tls fuel deadline s c n ≡ some r
        → Counts c n r.3 r.4
    unfolding handshake_rounds
    handshake_rounds-Counts zero deadline s c n r e = absurd (none-ne-some _ e)
    handshake_rounds-Counts (suc fuel) deadline s c n r e =
        let x = run_io lwip tls (tls.connect s) c n in
        let k = run_io-Counts (tls.connect s) c n in
        let goal = λ (y : Bool × ℤ × tls.Ssl × TlsConn lwip tls × Net). Counts c n y.3 y.4 in
        elim (Bool-cases (ltb deadline (wrap32 (ms x.2)))) [
          | inl late ↦ subst goal (some-injective _ _ (rw late at e)) k
          | inr early ↦
              elim (Bool-cases (not (is_success x.0.0) && wants_io (tls.get_error x.0.1 x.0.0))) [
                | inl more ↦
                    Counts-trans c n x.1 x.2 r.3 r.4 k (
                      handshake_rounds-Counts fuel deadline x.0.1 x.1 x.2 r (rw (early, more) at e))
                | inr over ↦ subst goal (some-injective _ _ (rw (early, over) at e)) k
              ]
        ]
