-- ===== src/Tls/Connect/Outcome/Phases.antt =====
-- The phases of `tls_connect_attempt` of mqtt_client/tls_transport.c before the handshake.
use assessing_pq_mqtt_m_tls.Common.{
  ℕ, ◌≡◌, ◌⊎◌, refl, ap, ◌∙◌, ℤ, pos, negsuc, List, Bool, true, false, arith, Bool-cases,
  Option-cases, inl, inr,
}
use assessing_pq_mqtt_m_tls.Memory.{Stage}
use assessing_pq_mqtt_m_tls.Transport.{
  dns_failure, tcp_failure, tls_context_failure, certificate_failure, private_key_failure,
  key_share_failure, err_timeout, err_allocation, AttemptResult, new_result,
}
use assessing_pq_mqtt_m_tls.Plain
use assessing_pq_mqtt_m_tls.Plain.{is_ok, Lwip}
use assessing_pq_mqtt_m_tls.Plain.Connect.{Dialer, resolved, unresolved}
use assessing_pq_mqtt_m_tls.Plain.Connect.Lookup.{Resolution-cases, resolve_host_code}
use assessing_pq_mqtt_m_tls.Plain.Connect.Causes.{
  Says, TcpCause, no_pcb, tcp_refused, tcp_late, tcp_broken, allocated, looked_up, new_pcb, begun,
  waited,
}
use assessing_pq_mqtt_m_tls.Tls.{Wolfssl, TlsConn}
use assessing_pq_mqtt_m_tls.Tls.Waiting.{Timer}
use assessing_pq_mqtt_m_tls.Tls.Connect.{
  is_success, Credentials, share_keys, use_session, start_session, load_credentials, use_context,
  start_tls, tcp_settled, open_tcp, tls_connect_common, tls_connect_attempt,
}
use assessing_pq_mqtt_m_tls.Tls.Connect.Outcome.{
  is_connecting, Splits, Reported, Reported-because, Agreed, HandshakeCause, Clean, Fresh, Fits,
  Fresh-Fits, connect_failed-Reported, handshake-Reported, early-Reported,
}
use assessing_pq_mqtt_m_tls.Tls.Connect.Outcome.Causes.{
  Gives, Errs, ca_call, cert_call, key_call, TlsCause, no_context, no_session, bad_ca,
  bad_certificate, bad_key, bad_share, bad_handshake, Shared, Accepted, Cause, no_memory,
  no_address, no_connection, no_tls,
}

module _ (lwip : Lwip) (dialer : Dialer lwip) (tls : Wolfssl lwip) (timer : Timer lwip tls) where
  open lwip use {Net, ms, time_us, set_stage}
  open tls use {Ctx, Ssl}

  is_success-pos : (code : ℤ) → is_success code ≡ true → code ≡ pos 1
  is_success-pos (pos n) e = ground (arith, e)
  is_success-pos (negsuc n) e = absurd (ground (arith, e))

  errs :
      {A : Type 0} (call : A → ℤ × A) (x : A)
      → is_success (call x).0 ≡ false
      → Errs lwip dialer tls timer call (call x).0
  errs call x e = (e, (x, refl))

  gives :
      {A : Type 0} (call : A → ℤ × A) (x : A)
      → is_success (call x).0 ≡ true
      → Gives lwip dialer tls timer call (pos 1)
  gives call x e = (x, is_success-pos _ e)

  share_keys-Reported :
      (cred : Credentials) (s : Ssl) (c : TlsConn lwip tls) (a : AttemptResult) (net : Net)
      → Fresh lwip dialer tls timer c
      → Clean lwip dialer tls timer a
      → Reported lwip dialer tls timer
          (TlsCause lwip dialer tls timer cred)
          (Shared lwip dialer tls timer)
          (share_keys lwip dialer tls s c a net)
  unfolding share_keys is_connecting
  share_keys-Reported cred s c a net f k =
      let r = tls.use_supported_curve s in
      let r' = tls.use_key_share r.1 in
      elim (Bool-cases (is_success r.0)) [
        | inr bad ↦ simp bad (
            early-Reported lwip dialer tls timer (TlsCause lwip dialer tls timer cred)
              (Shared lwip dialer tls timer) _ a key_share_failure r.0 _ refl
              (record { no_time = f.no_time; no_wait = f.no_wait })
              (λ b q. bad_share r.0 (inl (errs tls.use_supported_curve s bad)) q))
        | inl good ↦ elim (Bool-cases (is_success r'.0)) [
          | inr bad ↦
              simp (good, bad)
                (early-Reported lwip dialer tls timer (TlsCause lwip dialer tls timer cred)
                  (Shared lwip dialer tls timer) _ a key_share_failure r'.0 _ refl
                  (record { no_time = f.no_time; no_wait = f.no_wait })
                  (λ b q. bad_share r'.0 (inr (errs tls.use_key_share r.1 bad)) q))
          | inl good' ↦
              simp (good, good')
                (Reported-because lwip dialer tls timer (HandshakeCause lwip dialer tls timer)
                  (TlsCause lwip dialer tls timer cred) (Agreed lwip dialer tls timer)
                  (Shared lwip dialer tls timer) _ (λ b q. bad_handshake q)
                  (λ d q. record {
                    curve = gives tls.use_supported_curve s good;
                    share = gives tls.use_key_share r.1 good';
                    agreed = q;
                  })
                  (handshake-Reported lwip dialer tls timer r'.1 _ a _
                    (record { no_time = f.no_time; no_wait = f.no_wait }) k))
        ]
      ]

  start_session-Reported :
      (cred : Credentials) (ctx : Ctx) (c : TlsConn lwip tls) (a : AttemptResult) (net : Net)
      → Fresh lwip dialer tls timer c
      → Clean lwip dialer tls timer a
      → Reported lwip dialer tls timer
          (TlsCause lwip dialer tls timer cred)
          (Shared lwip dialer tls timer)
          (start_session lwip dialer tls ctx c a net)
  unfolding start_session use_session is_connecting
  start_session-Reported cred ctx c a net f k =
      let n = set_stage Stage.tls_context net in
      elim (Option-cases (tls.ssl_new ctx n).0) [
        | inl e ↦
            rw (e, use_session)
              (early-Reported lwip dialer tls timer (TlsCause lwip dialer tls timer cred)
                (Shared lwip dialer tls timer) c a tls_context_failure err_allocation _ refl f
                (λ b q. no_session ctx n e q))
        | inr (s, e) ↦
            rw (e, use_session)
              (share_keys-Reported cred s _ a _
                (record { no_time = f.no_time; no_wait = f.no_wait }) k)
      ]

  load_credentials-Reported :
      (cred : Credentials) (ctx : Ctx) (c : TlsConn lwip tls) (a : AttemptResult) (net : Net)
      → Fresh lwip dialer tls timer c
      → Clean lwip dialer tls timer a
      → Reported lwip dialer tls timer
          (TlsCause lwip dialer tls timer cred)
          (Accepted lwip dialer tls timer cred)
          (load_credentials lwip dialer tls cred ctx c a net)
  unfolding load_credentials is_connecting
  load_credentials-Reported cred ctx c a net f k =
      let r₁ = ca_call lwip dialer tls timer cred ctx in
      let ctx₁ = tls.set_verify_peer r₁.1 in
      let r₂ = cert_call lwip dialer tls timer cred ctx₁ in
      let r₃ = key_call lwip dialer tls timer cred r₂.1 in
      elim (Bool-cases (is_success r₁.0)) [
        | inr bad ↦ simp bad (
            early-Reported lwip dialer tls timer (TlsCause lwip dialer tls timer cred)
              (Accepted lwip dialer tls timer cred) _ a certificate_failure _ _ refl
              (record { no_time = f.no_time; no_wait = f.no_wait })
              (λ b q. bad_ca r₁.0 (errs (ca_call lwip dialer tls timer cred) ctx bad) q))
        | inl good₁ ↦ elim (Bool-cases (is_success r₂.0)) [
          | inr bad ↦
              simp (good₁, bad)
                (early-Reported lwip dialer tls timer (TlsCause lwip dialer tls timer cred)
                  (Accepted lwip dialer tls timer cred) _ a certificate_failure _ _ refl
                  (record { no_time = f.no_time; no_wait = f.no_wait })
                  (λ b q.
                    bad_certificate r₂.0 (errs (cert_call lwip dialer tls timer cred) ctx₁ bad) q))
          | inl good₂ ↦ elim (Bool-cases (is_success r₃.0)) [
            | inr bad ↦
                simp (good₁, good₂, bad)
                  (early-Reported lwip dialer tls timer (TlsCause lwip dialer tls timer cred)
                    (Accepted lwip dialer tls timer cred) _ a private_key_failure _ _ refl
                    (record { no_time = f.no_time; no_wait = f.no_wait })
                    (λ b q. bad_key r₃.0 (errs (key_call lwip dialer tls timer cred) r₂.1 bad) q))
            | inl good₃ ↦
                simp (good₁, good₂, good₃)
                  (Reported-because lwip dialer tls timer (TlsCause lwip dialer tls timer cred)
                    (TlsCause lwip dialer tls timer cred) (Shared lwip dialer tls timer)
                    (Accepted lwip dialer tls timer cred) _ (λ b q. q)
                    (λ d q. record {
                      ca = gives (ca_call lwip dialer tls timer cred) ctx good₁;
                      certificate = gives (cert_call lwip dialer tls timer cred) ctx₁ good₂;
                      key = gives (key_call lwip dialer tls timer cred) r₂.1 good₃;
                      shared = q;
                    })
                    (start_session-Reported cred r₃.1 _ a _
                      (record { no_time = f.no_time; no_wait = f.no_wait }) k))
          ]
        ]
      ]

  start_tls-Reported :
      (cred : Credentials) (c : TlsConn lwip tls) (a : AttemptResult) (net : Net)
      → Fresh lwip dialer tls timer c
      → Clean lwip dialer tls timer a
      → Reported lwip dialer tls timer
          (TlsCause lwip dialer tls timer cred)
          (Accepted lwip dialer tls timer cred)
          (start_tls lwip dialer tls cred c a net)
  unfolding start_tls use_context is_connecting
  start_tls-Reported cred c a net f k =
      let n = tls.set_up (set_stage Stage.tls_context net) in
      elim (Option-cases (tls.ctx_new n).0) [
        | inl e ↦
            rw (e, use_context)
              (early-Reported lwip dialer tls timer (TlsCause lwip dialer tls timer cred)
                (Accepted lwip dialer tls timer cred) c a tls_context_failure err_allocation _ refl
                f (λ b q. no_context n e q))
        | inr (ctx, e) ↦
            rw (e, use_context)
              (load_credentials-Reported cred ctx _ a _
                (record { no_time = f.no_time; no_wait = f.no_wait }) k)
      ]

  module _ (cred : Credentials) (addr port : ℕ) (net₀ : Net) where
    -- The failures from TCP on.
    abbrev Later : AttemptResult → Type 0
    Later b = TcpCause lwip dialer addr port net₀ b ⊎ TlsCause lwip dialer tls timer cred b

    tcp_settled-Reported :
        (t0 : ℕ) (late : Bool) (c : TlsConn lwip tls) (a : AttemptResult) (net : Net)
        → Fresh lwip dialer tls timer c
        → Clean lwip dialer tls timer a
        → (late ≡ true → (b : AttemptResult) → Says b tcp_failure err_timeout true → Later b)
        → (late ≡ false
            → c.tcp.tcp_error ≡ true
            → (b : AttemptResult) → Says b tcp_failure c.tcp.tcp_error_code false
            → Later b)
        → Reported lwip dialer tls timer Later
            (Accepted lwip dialer tls timer cred)
            (tcp_settled lwip dialer tls cred t0 late c a net)
    unfolding tcp_settled is_connecting Fits
    tcp_settled-Reported t0 true c a net f k p q =
        connect_failed-Reported lwip dialer tls timer Later (Accepted lwip dialer tls timer cred) _
          a tcp_failure err_timeout true net refl (λ _. refl) (omega (arith, f.no_time, f.no_wait))
          (p refl)
    tcp_settled-Reported t0 false c a net f k p q = elim (Bool-cases c.tcp.tcp_error) [
      | inl bad ↦ simp bad (
          early-Reported lwip dialer tls timer Later (Accepted lwip dialer tls timer cred) _ a
            tcp_failure _ net refl (record { no_time = f.no_time; no_wait = f.no_wait })
            (q refl bad))
      | inr good ↦ simp good (
          Reported-because lwip dialer tls timer (TlsCause lwip dialer tls timer cred) Later
            (Accepted lwip dialer tls timer cred) (Accepted lwip dialer tls timer cred) _
            (λ b w. inr w) (λ d w. w)
            (start_tls-Reported cred _ a _ (record { no_time = f.no_time; no_wait = f.no_wait }) k))
    ]

    open_tcp-Reported :
        (c : TlsConn lwip tls)
        → Fresh lwip dialer tls timer c
        → Reported lwip dialer tls timer Later
            (Accepted lwip dialer tls timer cred)
            (open_tcp lwip dialer tls cred addr port c net₀)
    unfolding open_tcp is_connecting
    open_tcp-Reported c f =
        let net₁ = set_stage Stage.tcp net₀ in
        let a : AttemptResult = record new_result { tcp_start_epoch_ms = dialer.epoch_ms net₁ } in
        let k : Clean lwip dialer tls timer a = record {
          stage = refl;
          code = refl;
          in_time = refl;
        } in
        let s = begun lwip dialer addr port net₀ in
        let tcp₁ : Plain.TlsConn = record c.tcp { pcb = true } in
        elim (Bool-cases (new_pcb lwip dialer net₀).0) [
          | inr missing ↦ simp missing (
              early-Reported lwip dialer tls timer Later (Accepted lwip dialer tls timer cred) c a
                tcp_failure _ _ refl f (λ b q. inl (no_pcb missing q)))
          | inl there ↦ elim (Bool-cases (is_ok s.0)) [
            | inr bad ↦
                simp (there, bad)
                  (early-Reported lwip dialer tls timer Later (Accepted lwip dialer tls timer cred)
                    _ a tcp_failure s.0 s.1 refl
                    (record { no_time = f.no_time; no_wait = f.no_wait })
                    (λ b q. inl (tcp_refused there bad q)))
            | inl taken ↦ elim (Option-cases (waited lwip dialer addr port net₀ tcp₁)) [
              | inl e ↦
                  simp (there, taken, e)
                    (tcp_settled-Reported (time_us net₁) true _ a s.1
                      (record { no_time = f.no_time; no_wait = f.no_wait }) k
                      (λ _ b q. inl (tcp_late tcp₁ taken (inl e) q))
                      (λ q. absurd (ground (arith, q))))
              | inr ((true, tcp, net₄), e) ↦
                  simp (there, taken, e)
                    (tcp_settled-Reported (time_us net₁) true _ a net₄
                      (record { no_time = f.no_time; no_wait = f.no_wait }) k
                      (λ _ b q. inl (tcp_late tcp₁ taken (inr (tcp, net₄, e)) q))
                      (λ q. absurd (ground (arith, q))))
              | inr ((false, tcp, net₄), e) ↦
                  simp (there, taken, e)
                    (tcp_settled-Reported (time_us net₁) false _ a net₄
                      (record { no_time = f.no_time; no_wait = f.no_wait }) k
                      (λ q. absurd (ground (arith, q)))
                      (λ _ w b q. inl (tcp_broken tcp₁ tcp net₄ taken e w q)))
            ]
          ]
        ]

  at_last :
      (host : List ℕ) (port : ℕ) (cred : Credentials) (net : Net) (addr : ℕ) (a : AttemptResult)
      → (allocated lwip dialer net).0 ≡ true
      → (looked_up lwip dialer host net).0 ≡ resolved addr
      → Later cred addr port (looked_up lwip dialer host net).1 a
      → Cause lwip dialer tls timer host port cred net a
  at_last host port cred net addr a there e (inl w) = no_connection there addr e w
  at_last host port cred net addr a there e (inr w) = no_tls there addr e w

  pub tls_connect_attempt-Reported :
      (host : List ℕ) (port : ℕ) (cred : Credentials) (net : Net)
      → Reported lwip dialer tls timer
          (Cause lwip dialer tls timer host port cred net)
          (Accepted lwip dialer tls timer cred)
          (tls_connect_attempt lwip dialer tls host port cred net)
  unfolding tls_connect_attempt tls_connect_common is_connecting Splits
  tls_connect_attempt-Reported host port cred net =
      let why = Cause lwip dialer tls timer host port cred net in
      let n = (looked_up lwip dialer host net).1 in
      elim (Bool-cases (allocated lwip dialer net).0) [
        | inr missing ↦ simp missing (record {
          phase = refl;
          late_code = λ e. absurd (ground (arith, e));
          splits = (omega arith, refl);
          cause = no_memory missing (refl, refl, refl);
        })
        | inl there ↦ elim (Resolution-cases (looked_up lwip dialer host net).0) [
          | inl (addr, e) ↦
              simp (there, e)
                (Reported-because lwip dialer tls timer (Later cred addr port n) why
                  (Accepted lwip dialer tls timer cred) (Accepted lwip dialer tls timer cred) _
                  (λ b w. at_last host port cred net addr b there e w) (λ d w. w)
                  (open_tcp-Reported cred addr port n _
                    (record { no_time = refl; no_wait = refl })))
          | inr (code, late, e) ↦
              simp (there, e)
                (connect_failed-Reported lwip dialer tls timer why
                  (Accepted lwip dialer tls timer cred) _ new_result dns_failure code late n refl
                  (λ q.
                    resolve_host_code lwip dialer host (allocated lwip dialer net).1 code
                      (e ∙ ap (unresolved code) q))
                  (Fresh-Fits lwip dialer tls timer _ (record { no_time = refl; no_wait = refl }))
                  (λ b q. no_address there code late e q))
        ]
      ]
