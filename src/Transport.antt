-- ===== src/Transport.antt =====
-- The interface mqtt_client/tls_transport.h, which plain_transport.c and tls_transport.c implement
-- and mqtt.c calls. A `Conn` is a connection with the clock and the network that it runs in.
use Prim.Native.String.{String}
use assessing_pq_mqtt_m_tls.Common.{
  ℕ, ℤ, pos, negsuc, Bool, false, ◌≤◌, ◌≡◌, List, ◌++◌, length, take,
}

-- `tls_failure_stage_t`
pub data FailureStage : Type 0 where
  no_failure dns_failure tcp_failure tls_context_failure certificate_failure : FailureStage
  private_key_failure key_share_failure tls_handshake_failure mqtt_failure : FailureStage

unfoldable pub tls_failure_stage_name : FailureStage → String
tls_failure_stage_name dns_failure = "dns"
tls_failure_stage_name tcp_failure = "tcp"
tls_failure_stage_name tls_context_failure = "tls_context"
tls_failure_stage_name certificate_failure = "certificate"
tls_failure_stage_name private_key_failure = "private_key"
tls_failure_stage_name key_share_failure = "key_share"
tls_failure_stage_name tls_handshake_failure = "tls_handshake"
tls_failure_stage_name mqtt_failure = "mqtt"
tls_failure_stage_name no_failure = "none"

-- TLS_ATTEMPT_ERR_ALLOCATION and TLS_ATTEMPT_ERR_TIMEOUT
abbrev pub err_allocation : ℤ
err_allocation = negsuc 999

abbrev pub err_timeout : ℤ
err_timeout = negsuc 1000

-- `tls_timings_t`
pub record Timings : Type 0 where
  pub dns_us : ℕ
  pub tcp_us : ℕ
  pub tls_us : ℕ
  pub tls_net_wait_us : ℕ
  pub tls_crypto_us : ℕ

abbrev pub no_timings : Timings
no_timings = record { dns_us = 0; tcp_us = 0; tls_us = 0; tls_net_wait_us = 0; tls_crypto_us = 0 }

-- `tls_bandwidth_t`
pub record Bandwidth : Type 0 where
  pub handshake_rx_bytes : ℕ
  pub handshake_tx_bytes : ℕ
  pub total_rx_bytes : ℕ
  pub total_tx_bytes : ℕ
  pub handshake_tx_calls : ℕ
  pub handshake_rx_calls : ℕ

abbrev pub no_bandwidth : Bandwidth
no_bandwidth = record {
  handshake_rx_bytes = 0;
  handshake_tx_bytes = 0;
  total_rx_bytes = 0;
  total_tx_bytes = 0;
  handshake_tx_calls = 0;
  handshake_rx_calls = 0;
}

-- `tls_attempt_result_t`
pub record AttemptResult : Type 0 where
  pub timings : Timings
  pub bandwidth : Bandwidth
  pub tcp_start_epoch_ms : ℕ
  pub failure_stage : FailureStage
  pub error_code : ℤ
  pub timed_out : Bool

abbrev pub new_result : AttemptResult
new_result = record {
  timings = no_timings;
  bandwidth = no_bandwidth;
  tcp_start_epoch_ms = 0;
  failure_stage = no_failure;
  error_code = pos 0;
  timed_out = false;
}

-- What `tls_write` returns: a negative number, or the number of bytes written.
pub data WriteResult : Type 0 where
  write_failed : WriteResult
  wrote : ℕ → WriteResult

-- What `tls_read` returns: a negative number, or the bytes that it stored, whose number it returns.
pub data ReadResult : Type 0 where
  read_failed : ReadResult
  received : List ℕ → ReadResult

pub record Transport : Type 1 where
  pub Conn : Type 0
  pub tls_write : Conn → List ℕ → WriteResult × Conn
  pub tls_read : Conn → ℕ → ReadResult × Conn
  pub tls_close : Conn → Conn
  pub time_us_64 : Conn → ℕ

-- What the header promises of a connection in a good state: a write takes a prefix of the bytes that
-- it is given, and a read takes the next bytes of the stream, at most as many as it is asked for.
pub record Laws (t : Transport) : Type 1 where
  pub IsGood : t.Conn → Type 0
  -- the bytes that the connection has still to deliver, and those that it has taken
  pub incoming : t.Conn → List ℕ
  pub sent : t.Conn → List ℕ
  pub write-IsGood : (c : t.Conn) (xs : List ℕ) → IsGood c → IsGood (t.tls_write c xs).1
  pub write-incoming :
      (c : t.Conn) (xs : List ℕ) → IsGood c → incoming (t.tls_write c xs).1 ≡ incoming c
  pub write-sent :
      (c : t.Conn) (xs : List ℕ) (n : ℕ)
      → IsGood c
      → (t.tls_write c xs).0 ≡ wrote n
      → (n ≤ length xs) × (sent (t.tls_write c xs).1 ≡ sent c ++ take n xs)
  pub read-IsGood : (c : t.Conn) (n : ℕ) → IsGood c → IsGood (t.tls_read c n).1
  pub read-sent : (c : t.Conn) (n : ℕ) → IsGood c → sent (t.tls_read c n).1 ≡ sent c
  pub read-incoming :
      (c : t.Conn) (n : ℕ) (xs : List ℕ)
      → IsGood c
      → (t.tls_read c n).0 ≡ received xs
      → (length xs ≤ n) × (incoming c ≡ xs ++ incoming (t.tls_read c n).1)
