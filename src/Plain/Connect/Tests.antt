-- ===== src/Plain/Connect/Tests.antt =====
-- The theorems on connection attempts at a concrete network.
use assessing_pq_mqtt_m_tls.Common.{ℕ, ◌+◌, [], ◌∷◌, some, pos, negsuc, true}
use assessing_pq_mqtt_m_tls.Plain.{connected, Lwip}
use assessing_pq_mqtt_m_tls.Plain.Connect.{Dialer}
use assessing_pq_mqtt_m_tls.Plain.Connect.Lookup.{Lookup}

-- A network that is its clock: every millisecond the peer accepts, and the name is looked_up.
abbrev accepting : Lwip
accepting = record {
  Net = ℕ;
  ms = λ n. n;
  time_us = λ n. n + 0;
  sleep_ms = λ n. (connected (pos 0) ∷ [], n + 1);
  tcp_write = λ n xs. (negsuc 0, n);
  tcp_close = λ n. n;
  set_stage = λ stage n. n;
}

-- The name has to be asked for.
abbrev dialer : Dialer accepting
dialer = record {
  calloc = λ n. (true, n);
  note_allocation_failure = λ n. n;
  dns_gethostbyname = λ host n. (negsuc 4, 0, n);
  dns_callbacks = λ n. some 77 ∷ [];
  epoch_ms = λ n. n + 0;
  tcp_new = λ n. (true, n);
  tcp_connect = λ addr port n. (pos 0, n);
}
