-- ===== src/Plain.antt =====
-- mqtt_client/plain_transport.c: the connection, lwIP's callbacks, and `tls_write`, `tls_read` and
-- `tls_close` over plain TCP. lwIP and the clock are the interface `Lwip`; the callbacks run while the
-- code sleeps, since it holds lwIP's lock wherever it looks at what they change.
pub mod Delivery
pub mod Reading
pub mod Stream
pub mod Connect
pub mod Publishing
mod Tests
use assessing_pq_mqtt_m_tls.Common.{
  ℕ, zero, suc, ◌+◌, ◌-◌, ◌%◌, ◌^◌, ℤ, pos, negsuc, List, [], ◌∷◌, ◌++◌, Option, some, none, Bool,
  true, false, not, length, ltb, ◌==◌, ◌||◌, if◌then◌else◌,
}
use assessing_pq_mqtt_m_tls.Memory.{Stage}
use assessing_pq_mqtt_m_tls.Ring.{RxRing, empty_ring, rx_push, rx_pop}
use assessing_pq_mqtt_m_tls.Transport.{
  WriteResult, write_failed, wrote, ReadResult, read_failed, received,
}

-- ERR_OK is 0.
abbrev pub is_ok : ℤ → Bool
is_ok (pos n) = n == 0
is_ok (negsuc n) = false

-- `struct tls_conn`; `pcb` says whether the pointer is there.
pub record TlsConn : Type 0 where
  pub pcb : Bool
  pub rx : RxRing
  pub tcp_connected : Bool
  pub tcp_error : Bool
  pub remote_closed : Bool
  pub io_timed_out : Bool
  pub tcp_error_code : ℤ
  pub dns_us : ℕ
  pub tcp_connect_us : ℕ
  pub total_rx_bytes : ℕ
  pub total_tx_bytes : ℕ

-- What lwIP calls back with: the chain of buffers of `on_recv` is the list of their payloads, or
-- `none` for NULL.
pub data Event : Type 0 where
  connected : (err : ℤ) → Event
  arrived : (p : Option (List (List ℕ))) (err : ℤ) → Event
  broken : (err : ℤ) → Event

unfoldable pub on_connected : ℤ → TlsConn → TlsConn
on_connected err c =
    if not (is_ok err)
    then record c { tcp_error_code = err; tcp_error = true }
    else record c { tcp_connected = true }

-- The loop of `on_recv`.
unfoldable pub push_chain : RxRing → List (List ℕ) → RxRing
push_chain r [] = r
push_chain r (payload ∷ chain) = push_chain (rx_push r payload) chain

unfoldable pub joined : List (List ℕ) → List ℕ
joined [] = []
joined (payload ∷ chain) = payload ++ joined chain

-- `tot_len` is a `u16_t`, and the counter a `uint64_t`. lwIP's `tcp_recved` and `pbuf_free` are no
-- part of the connection.
unfoldable pub on_recv : Option (List (List ℕ)) → ℤ → TlsConn → TlsConn
on_recv none err c = record c { remote_closed = true }
on_recv (some chain) err c =
    if not (is_ok err) then record c { remote_closed = true } else record c {
      rx = push_chain c.rx chain;
      total_rx_bytes = (c.total_rx_bytes + length (joined chain) % 2 ^ 16) % 2 ^ 64;
    }

unfoldable pub on_err : ℤ → TlsConn → TlsConn
on_err err c = record c { tcp_error_code = err; tcp_error = true; pcb = false }

unfoldable pub handle : Event → TlsConn → TlsConn
handle (connected err) c = on_connected err c
handle (arrived p err) c = on_recv p err c
handle (broken err) c = on_err err c

unfoldable pub handle_all : List Event → TlsConn → TlsConn
handle_all [] c = c
handle_all (e ∷ events) c = handle_all events (handle e c)

-- The payloads that a callback brings.
unfoldable pub delivered : Event → List ℕ
delivered (arrived (some chain) err) = if is_ok err then joined chain else []
delivered (arrived none err) = []
delivered (connected err) = []
delivered (broken err) = []

unfoldable pub delivered_all : List Event → List ℕ
delivered_all [] = []
delivered_all (e ∷ events) = delivered e ++ delivered_all events

-- lwIP, the clock and the network. `ms` is the time since boot in milliseconds without the wrap of
-- `to_ms_since_boot`; `sleep_ms` gives the callbacks that came in that time; `tcp_write` gives ERR_OK
-- or an error; `tcp_close` is the closing, or the abort where it fails. `set_stage` is
-- `runtime_memory_set_stage`: the memory monitor is part of what `Net` stands for.
pub record Lwip : Type 1 where
  pub Net : Type 0
  pub ms : Net → ℕ
  pub time_us : Net → ℕ
  pub sleep_ms : Net → List Event × Net
  pub tcp_write : Net → List ℕ → ℤ × Net
  pub tcp_close : Net → Net
  pub set_stage : Stage → Net → Net

-- `to_ms_since_boot` gives a `uint32_t`.
abbrev pub wrap32 : ℕ → ℕ
wrap32 n = n % 2 ^ 32

module _ (lwip : Lwip) where
  open lwip use {Net, ms, sleep_ms, tcp_write, tcp_close, set_stage}

  -- A connection, `none` for NULL, with the network.
  pub record World : Type 0 where
    pub conn : Option TlsConn
    pub net : Net

  -- The loop of `tls_read` from a round on, with `want` bytes to go: the bytes that it still stores,
  -- or `none` where the fuel runs out.
  unfoldable pub read_rounds : ℕ → ℕ → ℕ → TlsConn → Net → Option (List ℕ × TlsConn × Net)
  read_rounds zero want deadline c net = none
  read_rounds (suc fuel) want deadline c net =
      let (got, rx') = rx_pop c.rx want in
      let c' = record c { rx = rx' } in
      let (events, net') = sleep_ms net in
      let rest = read_rounds fuel (want - length got) deadline (handle_all events c') net' in
      if length got == want || c.tcp_error || c.remote_closed
      then some (got, c', net)
      else if ltb deadline (wrap32 (ms net))
      then some (got, record c' { io_timed_out = true }, net)
      else elim rest [ none ↦ none | some (more, c'', net'') ↦ some (got ++ more, c'', net'') ]

  -- A round for every millisecond up to the deadline, and two more.
  abbrev pub read_fuel : ℕ
  read_fuel = 15002

  -- The result from the bytes stored: none of them is an error.
  abbrev pub read_result : List ℕ → ReadResult
  read_result [] = read_failed
  read_result (x ∷ xs) = received (x ∷ xs)

  unfoldable pub tls_read : World → ℕ → ReadResult × World
  tls_read w len = elim w.conn [
    | none ↦ (read_failed, w)
    | some c ↦
        if ltb 65535 len
        then (read_failed, w)
        else if len == 0
        then (received [], record w { conn = some (record c { io_timed_out = false }) })
        else elim (read_rounds read_fuel len (wrap32 (wrap32 (ms w.net) + 15000))
            (record c { io_timed_out = false }) w.net) [
              | none ↦ (read_failed, w)
              | some (got, c', net') ↦ (read_result got, record { conn = some c'; net = net' })
            ]
  ]

  unfoldable pub tls_write : World → List ℕ → WriteResult × World
  tls_write w buf = elim w.conn [
    | none ↦ (write_failed, w)
    | some c ↦
        if not c.pcb || c.tcp_error || ltb 65535 (length buf)
        then (write_failed, w)
        else let (e, net') = tcp_write w.net buf in
          if is_ok e
          then (
            wrote (length buf),
            record {
              conn = some (record c { total_tx_bytes = (c.total_tx_bytes + length buf) % 2 ^ 64 });
              net = net';
            },
          )
          else (write_failed, record w { net = net' })
  ]

  unfoldable pub tls_io_timed_out : World → Bool
  tls_io_timed_out w = elim w.conn [ none ↦ false | some c ↦ c.io_timed_out ]

  -- The connection is freed.
  unfoldable pub tls_close : World → World
  tls_close w = elim w.conn [
    | none ↦ w
    | some c ↦
        let net' = set_stage Stage.close w.net in
        record { conn = none; net = if c.pcb then tcp_close net' else net' }
  ]
