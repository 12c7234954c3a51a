-- ===== src/Tls/Sample.antt =====
-- A concrete network, a concrete wolfSSL and their timer, for the tests of mqtt_client/tls_transport.c.
use assessing_pq_mqtt_m_tls.Common.{
  ℕ, ◌+◌, ◌-◌, ◌^◌, ◌≤◌, ◌<◌, [], ◌∷◌, some, pos, negsuc, true, arith, ltb, if◌then◌else◌, ℤ,
}
use assessing_pq_mqtt_m_tls.Transport.{wrote, received}
use assessing_pq_mqtt_m_tls.Plain.{connected, Lwip}
use assessing_pq_mqtt_m_tls.Plain.Connect.{Dialer}
use assessing_pq_mqtt_m_tls.Tls.{Io, done, compute, recv, send, Wolfssl}
use assessing_pq_mqtt_m_tls.Tls.Waiting.{Timer}
use assessing_pq_mqtt_m_tls.Tls.Connect.{Credentials}

-- A timer of 64 bits that stops at its end.
abbrev pub timer_us : ℕ → ℕ
timer_us n = if ltb n (2 ^ 64) then n else 2 ^ 64 - 1

-- A network that is its clock, in microseconds: the peer accepts and takes everything.
abbrev pub accepting : Lwip
accepting = record {
  Net = ℕ;
  ms = λ n. n;
  time_us = timer_us;
  sleep_ms = λ n. (connected (pos 0) ∷ [], n + 1000);
  tcp_write = λ n xs. (pos 0, n + 10);
  tcp_close = λ n. n;
  set_stage = λ stage n. n;
}

abbrev pub dialer : Dialer accepting
dialer = record {
  calloc = λ n. (true, n);
  note_allocation_failure = λ n. n;
  dns_gethostbyname = λ host n. (pos 0, 77, n);
  dns_callbacks = λ n. [];
  epoch_ms = λ n. n + 0;
  tcp_new = λ n. (true, n);
  tcp_connect = λ addr port n. (pos 0, n);
}

-- A session is the number of records of its handshake that are to come: each is a write, some
-- computing and a read.
abbrev pub shake : ℕ → Io (ℤ × ℕ)
shake s =
    send (22 ∷ [])
      (λ r. compute 300 (recv 5 (λ q. done (if ltb 0 s then negsuc 0 else pos 1, s - 1))))

abbrev pub wolfssl_on : (lwip : Lwip) → (ℕ → lwip.Net → lwip.Net) → (ℕ → Io (ℤ × ℕ)) → Wolfssl lwip
wolfssl_on lwip spend connect = record {
  Ctx = ℕ;
  Ssl = ℕ;
  crypto = λ work n. ([], spend work n);
  set_up = λ n. n;
  ctx_new = λ n. (some 0, n);
  ctx_free = λ ctx n. n;
  load_verify_buffer = λ der ctx. (pos 1, ctx);
  set_verify_peer = λ ctx. ctx;
  use_certificate_buffer = λ der ctx. (pos 1, ctx);
  use_private_key_buffer = λ der ctx. (pos 1, ctx);
  ssl_new = λ ctx n. (some 2, n);
  ssl_free = λ s n. n;
  use_supported_curve = λ s. (pos 1, s);
  use_key_share = λ s. (pos 1, s);
  connect = connect;
  get_error = λ s ret. pos 2;
  read = λ s len. recv len (λ r. done (received (32 ∷ []), s));
  write = λ s buf. send buf (λ r. done (wrote 1, s));
  shutdown = λ s. done s;
  mark_tls_start = λ n. n;
}

abbrev pub wolfssl : Wolfssl accepting
wolfssl = wolfssl_on accepting (λ work n. n + work) shake

pub timer_us-grows : (n k : ℕ) → (timer_us n < 2 ^ 64) × (timer_us n ≤ timer_us (n + k))
timer_us-grows n k = (ground arith, ground arith)

abbrev pub timer : Timer accepting wolfssl
timer = record {
  fits = λ n. (timer_us-grows n 0).0;
  sleeps = λ n. (timer_us-grows n 1000).1;
  computes = λ k n. (timer_us-grows n k).1;
  writes = λ n xs. (timer_us-grows n 10).1;
}

abbrev pub credentials : Credentials
credentials = record { ca_der = 48 ∷ []; cert = 48 ∷ 0 ∷ []; key = 4 ∷ [] }
