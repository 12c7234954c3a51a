-- ===== src/Plain/Connect/Causes.antt =====
-- Why `tls_connect_plain_attempt` of mqtt_client/plain_transport.c fails.
use assessing_pq_mqtt_m_tls.Common.{
  ℕ, ◌+◌, ◌≡◌, ◌⊎◌, ℤ, List, Option, some, none, Bool, true, false,
}
use assessing_pq_mqtt_m_tls.Memory.{Stage}
use assessing_pq_mqtt_m_tls.Plain.{is_ok, TlsConn, Lwip, wrap32}
use assessing_pq_mqtt_m_tls.Transport.{
  FailureStage, dns_failure, tcp_failure, err_allocation, err_timeout, AttemptResult,
}
use assessing_pq_mqtt_m_tls.Plain.Connect.{
  err_mem, Dialer, Resolution, resolved, unresolved, dial_fuel, resolve_host, connect_rounds,
}

-- The failure in a record: its phase, its error code, and whether it is a timeout.
abbrev pub Says : AttemptResult → FailureStage → ℤ → Bool → Type 0
Says a stage code late = (a.failure_stage ≡ stage) × (a.error_code ≡ code) × (a.timed_out ≡ late)

module _ (lwip : Lwip) (dialer : Dialer lwip) where
  -- What `tcp_new` gives in the phase of TCP, and `tcp_connect` after it.
  abbrev pub new_pcb : lwip.Net → Bool × lwip.Net
  new_pcb net = dialer.tcp_new (lwip.set_stage Stage.tcp net)

  abbrev pub begun : ℕ → ℕ → lwip.Net → ℤ × lwip.Net
  begun addr port net = dialer.tcp_connect addr port (new_pcb net).1

  -- The wait for TCP on a connection.
  abbrev pub waited : ℕ → ℕ → lwip.Net → TlsConn → Option (Bool × TlsConn × lwip.Net)
  waited addr port net c =
      let n = (begun addr port net).1 in
      connect_rounds lwip dialer (dial_fuel lwip dialer) (wrap32 (wrap32 (lwip.ms n) + 10000)) c n

  -- Why TCP fails from the network `net` on, and what the record says then: there is no pcb;
  -- `tcp_connect` refuses; the wait ends with an error of TCP, or late.
  pub data TcpCause (addr port : ℕ) (net : lwip.Net) (a : AttemptResult) : Type 0 where
    no_pcb : (new_pcb net).0 ≡ false → Says a tcp_failure err_mem false → TcpCause addr port net a
    tcp_refused :
        (new_pcb net).0 ≡ true
        → is_ok (begun addr port net).0 ≡ false
        → Says a tcp_failure (begun addr port net).0 false
        → TcpCause addr port net a
    tcp_broken :
        (c c' : TlsConn) (net' : lwip.Net)
        → is_ok (begun addr port net).0 ≡ true
        → waited addr port net c ≡ some (false, c', net')
        → c'.tcp_error ≡ true
        → Says a tcp_failure c'.tcp_error_code false
        → TcpCause addr port net a
    tcp_late :
        (c : TlsConn)
        → is_ok (begun addr port net).0 ≡ true
        → ((waited addr port net c ≡ none)
            ⊎ ((c' : TlsConn) × (net' : lwip.Net) × (waited addr port net c
                  ≡ some (true, c', net'))))
        → Says a tcp_failure err_timeout true
        → TcpCause addr port net a

  -- What the allocation gives in the phase of DNS, and `resolve_host` after it.
  abbrev pub allocated : lwip.Net → Bool × lwip.Net
  allocated net = dialer.calloc (lwip.set_stage Stage.dns net)

  abbrev pub looked_up : List ℕ → lwip.Net → Resolution × lwip.Net
  looked_up host net = resolve_host lwip dialer host (allocated net).1

  -- Why an attempt fails: there is no memory, the name has no address, or TCP fails.
  pub data Cause (host : List ℕ) (port : ℕ) (net : lwip.Net) (a : AttemptResult) : Type 0 where
    no_memory :
        (allocated net).0 ≡ false → Says a dns_failure err_allocation false → Cause host port net a
    no_address :
        (allocated net).0 ≡ true
        → (code : ℤ) (timed_out : Bool) → (looked_up host net).0 ≡ unresolved code timed_out
        → Says a dns_failure code timed_out
        → Cause host port net a
    no_connection :
        (allocated net).0 ≡ true
        → (addr : ℕ) → (looked_up host net).0 ≡ resolved addr
        → TcpCause addr port (looked_up host net).1 a
        → Cause host port net a
