-- ===== src/Plain/Connect.antt =====
-- The making of a connection in mqtt_client/plain_transport.c: `resolve_host` and
-- `tls_connect_plain_attempt`. `result` is not NULL; `tls_connect_plain` drops what is written there.
pub mod Lookup
pub mod Causes
pub mod Outcome
pub mod Ending
mod Tests
use assessing_pq_mqtt_m_tls.Common.{
  ℕ, zero, suc, ◌+◌, ◌-◌, ◌%◌, ◌^◌, ℤ, pos, negsuc, List, [], ◌∷◌, Option, some, none, Bool, true,
  false, not, ltb, ◌||◌, ◌==◌, if◌then◌else◌,
}
use assessing_pq_mqtt_m_tls.Memory.{Stage}
use assessing_pq_mqtt_m_tls.Ring.{empty_ring}
use assessing_pq_mqtt_m_tls.Transport.{
  FailureStage, no_failure, dns_failure, tcp_failure, err_allocation, err_timeout, Timings,
  no_timings, Bandwidth, no_bandwidth, AttemptResult, new_result,
}
use assessing_pq_mqtt_m_tls.Plain.{
  is_ok, TlsConn, Event, handle_all, Lwip, World, wrap32, tls_close,
}

-- ERR_MEM and ERR_VAL of lwIP
abbrev pub err_mem : ℤ
err_mem = negsuc 0

abbrev pub err_val : ℤ
err_val = negsuc 5

-- `dns_done`, `dns_err` and `dns_result`
pub record Dns : Type 0 where
  pub dns_done : Bool
  pub dns_err : Bool
  pub dns_result : ℕ

unfoldable pub dns_cb : Option ℕ → Dns → Dns
dns_cb (some addr) d = record d { dns_result = addr; dns_done = true }
dns_cb none d = record d { dns_err = true; dns_done = true }

unfoldable pub dns_cb_all : List (Option ℕ) → Dns → Dns
dns_cb_all [] d = d
dns_cb_all (addr ∷ addrs) d = dns_cb_all addrs (dns_cb addr d)

abbrev pub new_conn : TlsConn
new_conn = record {
  pcb = false;
  rx = empty_ring;
  tcp_connected = false;
  tcp_error = false;
  remote_closed = false;
  io_timed_out = false;
  tcp_error_code = pos 0;
  dns_us = 0;
  tcp_connect_us = 0;
  total_rx_bytes = 0;
  total_tx_bytes = 0;
}

-- The other times stay 0.
unfoldable pub tls_get_timings : TlsConn → Timings
tls_get_timings c = record no_timings { dns_us = c.dns_us; tcp_us = c.tcp_connect_us }

unfoldable pub tls_get_bandwidth : TlsConn → Bandwidth
tls_get_bandwidth c = record no_bandwidth {
  total_rx_bytes = c.total_rx_bytes;
  total_tx_bytes = c.total_tx_bytes;
}

-- `result->timings = tls_get_timings(c)`
abbrev pub with_timings : TlsConn → AttemptResult → AttemptResult
with_timings c a = record a { timings = tls_get_timings c }

-- `uint64_t` subtraction of times
abbrev pub since : ℕ → ℕ → ℕ
since now t0 = (now + 2 ^ 64 - t0) % 2 ^ 64

-- What else lwIP, the clock and the allocator give: `dns_callbacks` are the calls of `dns_cb` in the
-- millisecond of the next `sleep_ms`; `dns_gethostbyname` gives its result and the address where it
-- knows it; `tcp_new` says whether there is a pcb.
pub record Dialer (lwip : Lwip) : Type 0 where
  pub calloc : lwip.Net → Bool × lwip.Net
  pub note_allocation_failure : lwip.Net → lwip.Net
  pub dns_gethostbyname : List ℕ → lwip.Net → ℤ × ℕ × lwip.Net
  pub dns_callbacks : lwip.Net → List (Option ℕ)
  pub epoch_ms : lwip.Net → ℕ
  pub tcp_new : lwip.Net → Bool × lwip.Net
  pub tcp_connect : ℕ → ℕ → lwip.Net → ℤ × lwip.Net

-- What `resolve_host` returns, with `*error_code` and `*timed_out` where it fails.
pub data Resolution : Type 0 where
  resolved : ℕ → Resolution
  unresolved : ℤ → Bool → Resolution

module _ (lwip : Lwip) (dialer : Dialer lwip) where
  open lwip use {Net, ms, time_us, sleep_ms, set_stage}
  open dialer use {
    calloc, note_allocation_failure, dns_gethostbyname, dns_callbacks, epoch_ms, tcp_new,
    tcp_connect,
  }

  -- ERR_INPROGRESS
  abbrev pub in_progress : ℤ → Bool
  in_progress (negsuc n) = n == 4
  in_progress (pos n) = false

  -- The loop of `resolve_host`, where there is no connection yet for lwIP to call back: whether it timed out, and what the callbacks left; `none` where the
  -- fuel runs out.
  unfoldable pub resolve_rounds : ℕ → ℕ → Dns → Net → Option (Bool × Dns × Net)
  resolve_rounds zero deadline d net = none
  resolve_rounds (suc fuel) deadline d net =
      let rest = resolve_rounds fuel deadline (dns_cb_all (dns_callbacks net) d) (sleep_ms net).1 in
      if d.dns_done
      then some (false, d, net)
      else if ltb deadline (wrap32 (ms net))
      then some (true, d, net)
      else rest

  -- A round for each of the 10000 milliseconds up to the deadline, and two more.
  abbrev pub dial_fuel : ℕ
  dial_fuel = 10002

  abbrev pub resolution : Dns → Resolution
  resolution d = if d.dns_err then unresolved err_val false else resolved d.dns_result

  unfoldable pub resolve_host : List ℕ → Net → Resolution × Net
  resolve_host host net =
      let (e, addr, net₁) = dns_gethostbyname host net in
      if is_ok e
      then (resolved addr, net₁)
      else if not (in_progress e)
      then (unresolved e false, net₁)
      else elim (resolve_rounds dial_fuel (wrap32 (wrap32 (ms net₁) + 10000))
          (record { dns_done = false; dns_err = false; dns_result = 0 }) net₁) [
            | none ↦ (unresolved err_timeout true, net₁)
            | some (true, d, net₂) ↦ (unresolved err_timeout true, net₂)
            | some (false, d, net₂) ↦ (resolution d, net₂)
          ]

  -- The loop that waits for the connection: whether it timed out, and what the callbacks left.
  unfoldable pub connect_rounds : ℕ → ℕ → TlsConn → Net → Option (Bool × TlsConn × Net)
  connect_rounds zero deadline c net = none
  connect_rounds (suc fuel) deadline c net =
      let rest = connect_rounds fuel deadline (handle_all (sleep_ms net).0 c) (sleep_ms net).1 in
      if c.tcp_connected || c.tcp_error
      then some (false, c, net)
      else if ltb deadline (wrap32 (ms net))
      then some (true, c, net)
      else rest

  -- `tls_close(c); return NULL;`
  abbrev pub give_up : TlsConn → Net → AttemptResult → Option TlsConn × AttemptResult × Net
  give_up c net a = (none, a, (tls_close lwip (record { conn = some c; net = net })).net)

  -- After the loop.
  unfoldable pub settle :
      ℕ → AttemptResult → Bool → TlsConn → Net → Option TlsConn × AttemptResult × Net
  settle t0 a late c net =
      let c' = record c { tcp_connect_us = since (time_us net) t0 } in
      if late
      then give_up c' net (record (with_timings c' a) {
        failure_stage = tcp_failure;
        error_code = err_timeout;
        timed_out = true;
      })
      else if c.tcp_error
      then give_up c' net (record (with_timings c' a) {
        failure_stage = tcp_failure;
        error_code = c.tcp_error_code;
      })
      else (some c', with_timings c' a, net)

  -- From the stage of TCP on.
  unfoldable pub dial : ℕ → ℕ → TlsConn → AttemptResult → Net → Option TlsConn × AttemptResult × Net
  dial addr port c a net =
      let net₁ = set_stage Stage.tcp net in
      let a₁ = record a { tcp_start_epoch_ms = epoch_ms net₁ } in
      let t0 = time_us net₁ in
      let (there, net₂) = tcp_new net₁ in
      if not there
      then give_up c net₂ (record a₁ { failure_stage = tcp_failure; error_code = err_mem })
      else let c₁ = record c { pcb = true } in
        let (e, net₃) = tcp_connect addr port net₂ in
        if not (is_ok e)
        then give_up c₁ net₃ (record a₁ { failure_stage = tcp_failure; error_code = e })
        else elim (connect_rounds dial_fuel (wrap32 (wrap32 (ms net₃) + 10000)) c₁ net₃) [
          | none ↦ settle t0 a₁ true c₁ net₃
          | some (late, c₂, net₄) ↦ settle t0 a₁ late c₂ net₄
        ]

  unfoldable pub tls_connect_plain_attempt : List ℕ → ℕ → Net → Option TlsConn × AttemptResult × Net
  tls_connect_plain_attempt host port net =
      let net₁ = set_stage Stage.dns net in
      let (there, net₂) = calloc net₁ in
      if not there
      then (
        none,
        record new_result { failure_stage = dns_failure; error_code = err_allocation },
        note_allocation_failure net₂,
      )
      else let t0 = time_us net₂ in
        let (found, net₃) = resolve_host host net₂ in
        let c = record new_conn { dns_us = since (time_us net₃) t0 } in
        elim found [
          | unresolved e late ↦ give_up c net₃ (record (with_timings c new_result) {
            failure_stage = dns_failure;
            error_code = e;
            timed_out = late;
          })
          | resolved addr ↦ dial addr port c new_result net₃
        ]

  unfoldable pub tls_connect_plain : List ℕ → ℕ → Net → Option TlsConn × Net
  tls_connect_plain host port net =
      let (c, a, net') = tls_connect_plain_attempt host port net in (c, net')
