-- ===== src/Plain/Connect/Outcome.antt =====
-- What `tls_connect_plain_attempt` of mqtt_client/plain_transport.c reports.
use assessing_pq_mqtt_m_tls.Common.{
  ℕ, zero, suc, ◌≡◌, ◌⊎◌, refl, sym, ap, ◌∙◌, pos, List, Option, some, none, Bool, true, false, ltb,
  ◌||◌, arith, Bool-cases, Option-cases, some-injective, none-ne-some, inl, inr,
}
use assessing_pq_mqtt_m_tls.Memory.{Stage}
use assessing_pq_mqtt_m_tls.Plain.{is_ok, TlsConn, Lwip, wrap32}
use assessing_pq_mqtt_m_tls.Transport.{
  no_failure, dns_failure, tcp_failure, err_timeout, AttemptResult, new_result,
}
use assessing_pq_mqtt_m_tls.Plain.Connect.{
  tls_get_timings, Dialer, unresolved, connect_rounds, settle, dial, tls_connect_plain_attempt,
}
use assessing_pq_mqtt_m_tls.Plain.Connect.Lookup.{
  Resolution-cases, resolve_host_code, Lookup, resolve_host-Lookup,
}
use assessing_pq_mqtt_m_tls.Plain.Connect.Causes.{
  Says, new_pcb, begun, waited, TcpCause, no_pcb, tcp_refused, tcp_broken, tcp_late, allocated,
  looked_up, Cause, no_memory, no_address, no_connection,
}

-- A connection that TCP has made, with the times that it keeps, and no failure.
pub record Connected (c : TlsConn) (a : AttemptResult) : Type 0 where
  pub made : c.tcp_connected ≡ true
  pub unbroken : c.tcp_error ≡ false
  pub clean : a.failure_stage ≡ no_failure
  pub code : a.error_code ≡ pos 0
  pub in_time : a.timed_out ≡ false
  pub timings : a.timings ≡ tls_get_timings c

-- No connection, and a failure in one of the two phases, for a cause that `why` tells; a timeout has its
-- error code.
pub record Failed (why : AttemptResult → Type 0) (a : AttemptResult) : Type 0 where
  pub phase : (a.failure_stage ≡ dns_failure) ⊎ (a.failure_stage ≡ tcp_failure)
  pub late_code : a.timed_out ≡ true → a.error_code ≡ err_timeout
  pub cause : why a

module _ (lwip : Lwip) (dialer : Dialer lwip) where
  abbrev pub Reported :
      (AttemptResult → Type 0) → Option TlsConn × AttemptResult × lwip.Net → Type 0
  Reported why (some c, a, net) = Connected c a
  Reported why (none, a, net) = Failed why a

  Reported-because :
      (why why' : AttemptResult → Type 0) (r : Option TlsConn × AttemptResult × lwip.Net)
      → ((a : AttemptResult) → why a → why' a)
      → Reported why r
      → Reported why' r
  Reported-because why why' (some c, a, net) h k = k
  Reported-because why why' (none, a, net) h k = record {
    phase = k.phase;
    late_code = k.late_code;
    cause = h a k.cause;
  }

  pub connect_rounds_end :
      (fuel deadline : ℕ) (c : TlsConn) (net : lwip.Net) (c' : TlsConn) (net' : lwip.Net)
      → connect_rounds lwip dialer fuel deadline c net ≡ some (false, c', net')
      → (c'.tcp_connected || c'.tcp_error) ≡ true
  unfolding connect_rounds
  connect_rounds_end zero deadline c net c' net' e = absurd (none-ne-some _ e)
  connect_rounds_end (suc fuel) deadline c net c' net' e =
      elim (Bool-cases (c.tcp_connected || c.tcp_error)) [
        | inl stop ↦
            ap (λ (r : Bool × TlsConn × lwip.Net). r.1.tcp_connected || r.1.tcp_error)
              (sym (some-injective _ _ (rw stop at e)))
            ∙ stop
        | inr go ↦ elim (Bool-cases (ltb deadline (wrap32 (lwip.ms net)))) [
          | inl late ↦ absurd (
              ground (
                arith,
                ap (λ (r : Bool × TlsConn × lwip.Net). r.0)
                    (some-injective _ _ (rw (go, late) at e)),
              ))
          | inr early ↦ connect_rounds_end fuel deadline _ _ c' net' (rw (go, early) at e)
        ]
      ]

  settle-Reported :
      (why : AttemptResult → Type 0) (t0 : ℕ) (a : AttemptResult) (late : Bool) (c : TlsConn)
      (net : lwip.Net)
      → (late ≡ true → (b : AttemptResult) → Says b tcp_failure err_timeout true → why b)
      → (late ≡ false
          → c.tcp_error ≡ true
          → (b : AttemptResult) → Says b tcp_failure c.tcp_error_code false
          → why b)
      → (late ≡ false → (c.tcp_connected || c.tcp_error) ≡ true)
      → Says a no_failure (pos 0) false
      → Reported why (settle lwip dialer t0 a late c net)
  unfolding settle tls_get_timings
  settle-Reported why t0 a true c net p q h (f, g, k) = record {
    phase = inr refl;
    late_code = λ _. refl;
    cause = p refl _ (refl, refl, refl);
  }
  settle-Reported why t0 a false c net p q h (f, g, k) = elim (Bool-cases c.tcp_error) [
    | inl broken ↦ simp broken (record {
      phase = inr refl;
      late_code = λ e. absurd (ground (arith, e, k));
      cause = q refl broken _ (refl, refl, k);
    })
    | inr fine ↦ simp fine (record {
      made = ground (arith, fine, h refl);
      unbroken = refl;
      clean = f;
      code = g;
      in_time = k;
      timings = refl;
    })
  ]

  dial-Reported :
      (addr port : ℕ) (c : TlsConn) (a : AttemptResult) (net : lwip.Net)
      → Says a no_failure (pos 0) false
      → Reported (TcpCause lwip dialer addr port net) (dial lwip dialer addr port c a net)
  unfolding dial
  dial-Reported addr port c a net (f, g, k) =
      let net₁ = lwip.set_stage Stage.tcp net in
      let a₁ : AttemptResult = record a { tcp_start_epoch_ms = dialer.epoch_ms net₁ } in
      let c₁ : TlsConn = record c { pcb = true } in
      let s = begun lwip dialer addr port net in
      elim (Bool-cases (new_pcb lwip dialer net).0) [
        | inr missing ↦ simp missing (record {
          phase = inr refl;
          late_code = λ e. absurd (ground (arith, e, k));
          cause = no_pcb missing (refl, refl, k);
        })
        | inl there ↦ elim (Bool-cases (is_ok s.0)) [
          | inr bad ↦
              simp (there, bad)
                (record {
                  phase = inr refl;
                  late_code = λ e. absurd (ground (arith, e, k));
                  cause = tcp_refused there bad (refl, refl, k);
                })
          | inl taken ↦ elim (Option-cases (waited lwip dialer addr port net c₁)) [
            | inl e ↦
                simp (there, taken, e)
                  (settle-Reported (TcpCause lwip dialer addr port net) (lwip.time_us net₁) a₁ true
                    c₁ s.1 (λ _ b q. tcp_late c₁ taken (inl e) q) (λ q. absurd (ground (arith, q)))
                    (λ q. absurd (ground (arith, q))) (f, g, k))
            | inr ((true, c₂, net₄), e) ↦
                simp (there, taken, e)
                  (settle-Reported (TcpCause lwip dialer addr port net) (lwip.time_us net₁) a₁ true
                    c₂ net₄ (λ _ b q. tcp_late c₁ taken (inr (c₂, net₄, e)) q)
                    (λ q. absurd (ground (arith, q))) (λ q. absurd (ground (arith, q))) (f, g, k))
            | inr ((false, c₂, net₄), e) ↦
                simp (there, taken, e)
                  (settle-Reported (TcpCause lwip dialer addr port net) (lwip.time_us net₁) a₁ false
                    c₂ net₄ (λ q. absurd (ground (arith, q)))
                    (λ _ w b q. tcp_broken c₁ c₂ net₄ taken e w q)
                    (λ q. connect_rounds_end _ _ _ _ c₂ net₄ e) (f, g, k))
          ]
        ]
      ]

  attempt-Reported :
      (host : List ℕ) (port : ℕ) (net : lwip.Net)
      → Reported
          (Cause lwip dialer host port net)
          (tls_connect_plain_attempt lwip dialer host port net)
  unfolding tls_connect_plain_attempt tls_get_timings
  attempt-Reported host port net = elim (Bool-cases (allocated lwip dialer net).0) [
    | inr missing ↦ simp missing (record {
      phase = inl refl;
      late_code = λ e. absurd (ground (arith, e));
      cause = no_memory missing (refl, refl, refl);
    })
    | inl there ↦ elim (Resolution-cases (looked_up lwip dialer host net).0) [
      | inl (addr, e) ↦
          simp (there, e)
            (Reported-because (TcpCause lwip dialer addr port (looked_up lwip dialer host net).1)
              (Cause lwip dialer host port net) _ (λ a k. no_connection there addr e k)
              (dial-Reported addr port _ new_result (looked_up lwip dialer host net).1
                (refl, refl, refl)))
      | inr (code, timed_out, e) ↦
          simp (there, e)
            (record {
              phase = inl refl;
              late_code = λ q.
                  resolve_host_code lwip dialer host (allocated lwip dialer net).1 code
                    (e ∙ ap (unresolved code) q);
              cause = no_address there code timed_out e (refl, refl, refl);
            })
    ]
  ]

  pub tls_connect_plain_attempt-Reported :
      (host : List ℕ) (port : ℕ) (net : lwip.Net)
      → Lookup lwip dialer host (allocated lwip dialer net).1 (looked_up lwip dialer host net).0
        × Reported
            (Cause lwip dialer host port net)
            (tls_connect_plain_attempt lwip dialer host port net)
  tls_connect_plain_attempt-Reported host port net = (
    resolve_host-Lookup lwip dialer host (allocated lwip dialer net).1,
    attempt-Reported host port net,
  )
