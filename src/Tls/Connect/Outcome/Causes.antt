-- ===== src/Tls/Connect/Outcome/Causes.antt =====
-- Why `tls_connect_attempt` of mqtt_client/tls_transport.c fails, and what it needs to succeed.
use assessing_pq_mqtt_m_tls.Common.{ℕ, ◌≡◌, ◌⊎◌, ℤ, pos, List, none, Bool, true, false}
use assessing_pq_mqtt_m_tls.Transport.{
  dns_failure, tls_context_failure, certificate_failure, private_key_failure, key_share_failure,
  err_allocation, AttemptResult,
}
use assessing_pq_mqtt_m_tls.Plain.{Lwip}
use assessing_pq_mqtt_m_tls.Plain.Connect.{Dialer, resolved, unresolved}
use assessing_pq_mqtt_m_tls.Plain.Connect.Causes.{Says, TcpCause, allocated, looked_up}
use assessing_pq_mqtt_m_tls.Tls.{Wolfssl, TlsConn}
use assessing_pq_mqtt_m_tls.Tls.Waiting.{Timer}
use assessing_pq_mqtt_m_tls.Tls.Connect.{is_success, Credentials}
use assessing_pq_mqtt_m_tls.Tls.Connect.Outcome.{Agreed, HandshakeCause}

module _ (lwip : Lwip) (dialer : Dialer lwip) (tls : Wolfssl lwip) (timer : Timer lwip tls) where
  open lwip use {Net, ms, time_us, set_stage}
  open tls use {Ctx, Ssl}

  -- What a call of wolfSSL gives on some context or session.
  abbrev pub Gives : {A : Type 0} → (A → ℤ × A) → ℤ → Type 0
  Gives {A} call code = (x : A) × ((call x).0 ≡ code)

  -- An error of wolfSSL.
  abbrev pub Errs : {A : Type 0} → (A → ℤ × A) → ℤ → Type 0
  Errs call code = (is_success code ≡ false) × Gives call code

  -- The calls that load the credentials.
  abbrev pub ca_call : Credentials → Ctx → ℤ × Ctx
  ca_call cred = tls.load_verify_buffer cred.ca_der

  abbrev pub cert_call : Credentials → Ctx → ℤ × Ctx
  cert_call cred = tls.use_certificate_buffer cred.cert

  abbrev pub key_call : Credentials → Ctx → ℤ × Ctx
  key_call cred = tls.use_private_key_buffer cred.key

  -- Why TLS fails on a connection of TCP, and what the record says then: there is no context; one of the
  -- credentials is refused; there is no session; one of the key shares is refused; or the handshake fails.
  pub data TlsCause (cred : Credentials) (a : AttemptResult) : Type 0 where
    no_context :
        (n : Net)
        → (tls.ctx_new n).0 ≡ none
        → Says a tls_context_failure err_allocation false
        → TlsCause cred a
    no_session :
        (ctx : Ctx) (n : Net)
        → (tls.ssl_new ctx n).0 ≡ none
        → Says a tls_context_failure err_allocation false
        → TlsCause cred a
    bad_ca :
        (code : ℤ)
        → Errs (ca_call cred) code
        → Says a certificate_failure code false
        → TlsCause cred a
    bad_certificate :
        (code : ℤ)
        → Errs (cert_call cred) code
        → Says a certificate_failure code false
        → TlsCause cred a
    bad_key :
        (code : ℤ)
        → Errs (key_call cred) code
        → Says a private_key_failure code false
        → TlsCause cred a
    bad_share :
        (code : ℤ)
        → (Errs tls.use_supported_curve code ⊎ Errs tls.use_key_share code)
        → Says a key_share_failure code false
        → TlsCause cred a
    bad_handshake : HandshakeCause lwip dialer tls timer a → TlsCause cred a

  -- What wolfSSL has agreed to for a session.
  pub record Shared (c : TlsConn lwip tls) : Type 0 where
    pub curve : Gives tls.use_supported_curve (pos 1)
    pub share : Gives tls.use_key_share (pos 1)
    pub agreed : Agreed lwip dialer tls timer c

  pub record Accepted (cred : Credentials) (c : TlsConn lwip tls) : Type 0 where
    pub ca : Gives (ca_call cred) (pos 1)
    pub certificate : Gives (cert_call cred) (pos 1)
    pub key : Gives (key_call cred) (pos 1)
    pub shared : Shared c

  -- Why an attempt fails: there is no memory, the name has no address, TCP fails, or TLS does.
  pub data Cause (host : List ℕ) (port : ℕ) (cred : Credentials) (net : Net) (a : AttemptResult)
      : Type 0 where
    no_memory :
        (allocated lwip dialer net).0 ≡ false
        → Says a dns_failure err_allocation false
        → Cause host port cred net a
    no_address :
        (allocated lwip dialer net).0 ≡ true
        → (code : ℤ) (timed_out : Bool)
        → (looked_up lwip dialer host net).0 ≡ unresolved code timed_out
        → Says a dns_failure code timed_out
        → Cause host port cred net a
    no_connection :
        (allocated lwip dialer net).0 ≡ true
        → (addr : ℕ) → (looked_up lwip dialer host net).0 ≡ resolved addr
        → TcpCause lwip dialer addr port (looked_up lwip dialer host net).1 a
        → Cause host port cred net a
    no_tls :
        (allocated lwip dialer net).0 ≡ true
        → (addr : ℕ) → (looked_up lwip dialer host net).0 ≡ resolved addr
        → TlsCause cred a
        → Cause host port cred net a
