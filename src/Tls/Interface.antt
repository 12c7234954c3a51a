-- ===== src/Tls/Interface.antt =====
-- wolfSSL as mqtt_client/tls_transport.c uses it.
use assessing_pq_mqtt_m_tls.Common.{ℕ, ℤ, List, Option}
use assessing_pq_mqtt_m_tls.Transport.{WriteResult, ReadResult}
use assessing_pq_mqtt_m_tls.Plain.{Event, Lwip}

-- What `wssl_recv` and `wssl_send` return: bytes or their number, or one of wolfSSL's error codes.
pub data Received : Type 0 where
  got : List ℕ → Received
  recv_conn_close : Received
  recv_timeout : Received

pub data Sent : Type 0 where
  sent : ℕ → Sent
  send_conn_close : Sent
  send_general : Sent

-- A call of wolfSSL, which computes and asks for bytes through the callbacks until it is done.
pub data Io {ℓ} (A : Type ℓ) : Type ℓ where
  done : A → Io A
  compute : (work : ℕ) → Io A → Io A
  recv : (sz : ℕ) → (Received → Io A) → Io A
  send : (buf : List ℕ) → (Sent → Io A) → Io A

-- wolfSSL, with the memory monitor's `runtime_memory_mark_tls_start`. `crypto` is some work of its own:
-- time goes on, and lwIP calls back in that time.
pub record Wolfssl (lwip : Lwip) : Type 1 where
  pub Ctx : Type 0
  pub Ssl : Type 0
  pub crypto : ℕ → lwip.Net → List Event × lwip.Net
  pub set_up : lwip.Net → lwip.Net
  pub ctx_new : lwip.Net → Option Ctx × lwip.Net
  pub ctx_free : Ctx → lwip.Net → lwip.Net
  pub load_verify_buffer : List ℕ → Ctx → ℤ × Ctx
  pub set_verify_peer : Ctx → Ctx
  pub use_certificate_buffer : List ℕ → Ctx → ℤ × Ctx
  pub use_private_key_buffer : List ℕ → Ctx → ℤ × Ctx
  pub ssl_new : Ctx → lwip.Net → Option Ssl × lwip.Net
  pub ssl_free : Ssl → lwip.Net → lwip.Net
  pub use_supported_curve : Ssl → ℤ × Ssl
  pub use_key_share : Ssl → ℤ × Ssl
  pub connect : Ssl → Io (ℤ × Ssl)
  pub get_error : Ssl → ℤ → ℤ
  pub read : Ssl → ℕ → Io (ReadResult × Ssl)
  pub write : Ssl → List ℕ → Io (WriteResult × Ssl)
  pub shutdown : Ssl → Io Ssl
  pub mark_tls_start : lwip.Net → lwip.Net
