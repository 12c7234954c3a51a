-- ===== src/Mqtt/Client.antt =====
-- The client calls of mqtt_client/mqtt.c: CONNECT with its CONNACK, PUBLISH of quality of service 0,
-- and DISCONNECT. The connection is `m->conn`, which is not null where a call is made.
pub mod Publish
pub mod Accept
pub mod Keeping
pub mod Codes
use assessing_pq_mqtt_m_tls.Common.{
  ℕ, ◌+◌, ◌-◌, ◌^◌, ◌%◌, ℤ, pos, negsuc, List, [], ◌∷◌, Option, none, some, Bool, true, false,
  length, take, ltb, ◌==◌, ◌!=◌, ◌&&◌, ◌||◌, not, if◌then◌else◌,
}
use assessing_pq_mqtt_m_tls.Transport.{Transport, ReadResult, read_failed, received}
use assessing_pq_mqtt_m_tls.Mqtt.Packet.{
  ConnectArgs, connect_packet, pkt_connack, pkt_disconnect, write_u16, len16, publish_header,
}
use assessing_pq_mqtt_m_tls.Mqtt.Stream.{send_all, recv_byte, recv_remlen, remlen_error, drain}

-- TLS_ATTEMPT_ERR_MQTT_SEND
abbrev pub err_mqtt_send : ℤ
err_mqtt_send = negsuc 1100

-- TLS_ATTEMPT_ERR_MQTT_PACKET
abbrev pub err_mqtt_packet : ℤ
err_mqtt_packet = negsuc 1101

-- The result of `mqtt_connect_internal`, with what it leaves in `*connect_us` and `*error_code`.
pub record Outcome : Type 0 where
  pub success : Bool
  pub connect_us : ℕ
  pub error_code : ℤ

abbrev pub fail : ℤ → Outcome
fail e = record { success = false; connect_us = 0; error_code = e }

-- `uint64_t` subtraction
abbrev pub elapsed : ℕ → ℕ → ℕ
elapsed now t0 = (now + 2 ^ 64 - t0) % 2 ^ 64

-- The two bytes of the CONNACK's variable header, where `tls_read` returned two.
abbrev pub pair : ReadResult → Option (ℕ × ℕ)
pair (received (b₀ ∷ b₁ ∷ [])) = some (b₀, b₁)
pair (received (b₀ ∷ b₁ ∷ b₂ ∷ bs)) = none
pair (received (b₀ ∷ [])) = none
pair (received []) = none
pair read_failed = none

module _ (t : Transport) where
  open t use {Conn, tls_read, tls_close, time_us_64}

  -- From the return code on.
  unfoldable pub finish_connect : Conn → ℕ → ℕ → Outcome × Conn
  finish_connect c t0 code = if code != 0x00 then (fail (pos code), c) else (
    record { success = true; connect_us = elapsed (time_us_64 c) t0; error_code = pos 0 },
    c,
  )

  -- The bytes after the first two of the variable header are dropped.
  unfoldable pub skip_rest : Conn → ℕ → ℕ → ℕ → Outcome × Conn
  skip_rest c t0 rlen code =
      if ltb 2 rlen
      then (let (drained, c') = drain t c (rlen - 2) in
          if drained then finish_connect c' t0 code else (fail err_mqtt_packet, c'))
      else finish_connect c t0 code

  -- From the two bytes of the variable header on.
  unfoldable pub read_code : Conn → ℕ → ℕ → Outcome × Conn
  read_code c t0 rlen =
      let (r, c') = tls_read c 2 in
      elim (pair r) [ none ↦ (fail err_mqtt_packet, c') | some (b₀, b₁) ↦ skip_rest c' t0 rlen b₁ ]

  -- From the remaining length of the CONNACK on.
  unfoldable pub read_length : Conn → ℕ → Outcome × Conn
  read_length c t0 =
      let (rlen, c₁) = recv_remlen t c in
      if rlen == remlen_error || ltb rlen 2
      then (fail err_mqtt_packet, c₁)
      else read_code c₁ t0 rlen

  -- From the first byte of the CONNACK on.
  unfoldable pub read_connack : Conn → ℕ → Outcome × Conn
  read_connack c t0 =
      let (type_byte, c₁) = recv_byte t c in
      elim type_byte [
        | none ↦ (fail err_mqtt_packet, c₁)
        | some b ↦ if b != pkt_connack then (fail err_mqtt_packet, c₁) else read_length c₁ t0
      ]

  unfoldable pub mqtt_connect_internal : Conn → ConnectArgs → Outcome × Conn
  mqtt_connect_internal c a = elim (connect_packet a) [
    | none ↦ (fail err_mqtt_packet, c)
    | some pkt ↦
        let t0 = time_us_64 c in
        let (ok, c₁) = send_all t c pkt in
        if ok then read_connack c₁ t0 else (fail err_mqtt_send, c₁)
  ]

  -- The wrappers, which pass a null pointer for what they do not use.
  abbrev pub plain_args : List ℕ → ℕ → ConnectArgs
  plain_args client_id keepalive_sec = record {
    client_id = client_id;
    keepalive_sec = keepalive_sec;
    will_topic = none;
    will_payload = none;
    will_retain = false;
  }

  unfoldable pub mqtt_connect : Conn → List ℕ → ℕ → Bool × Conn
  mqtt_connect c client_id keepalive_sec =
      let (o, c') = mqtt_connect_internal c (plain_args client_id keepalive_sec) in (o.success, c')

  unfoldable pub mqtt_connect_measured : Conn → List ℕ → ℕ → Bool × ℕ × Conn
  mqtt_connect_measured c client_id keepalive_sec =
      let (o, c') = mqtt_connect_internal c (plain_args client_id keepalive_sec) in
      (o.success, o.connect_us, c')

  unfoldable pub mqtt_connect_measured_attempt : Conn → List ℕ → ℕ → Outcome × Conn
  mqtt_connect_measured_attempt c client_id keepalive_sec =
      mqtt_connect_internal c (plain_args client_id keepalive_sec)

  unfoldable pub mqtt_connect_with_will : Conn → ConnectArgs → Bool × Conn
  mqtt_connect_with_will c a = let (o, c') = mqtt_connect_internal c a in (o.success, c')

  -- A chain of `if (!send_all(...)) return false;`
  unfoldable pub send_parts : Conn → List (List ℕ) → Bool × Conn
  send_parts c [] = (true, c)
  send_parts c (part ∷ parts) =
      let (ok, c') = send_all t c part in
      elim ok [ true ↦ send_parts c' parts | false ↦ (false, c') ]

  unfoldable pub mqtt_publish_qos0 : Conn → List ℕ → List ℕ → Bool → Bool × Conn
  mqtt_publish_qos0 c topic payload retain = send_parts c (
      publish_header topic payload retain
      ∷ write_u16 (len16 topic)
      ∷ take (len16 topic) topic
      ∷ payload
      ∷ [])

  unfoldable pub mqtt_publish : Conn → List ℕ → List ℕ → Bool × Conn
  mqtt_publish c topic payload = mqtt_publish_qos0 c topic payload false

  unfoldable pub mqtt_publish_retained : Conn → List ℕ → List ℕ → Bool × Conn
  mqtt_publish_retained c topic payload = mqtt_publish_qos0 c topic payload true

  -- `m->conn` is null afterwards: the connection is the one that `tls_close` has freed.
  unfoldable pub mqtt_disconnect : Conn → Option Conn × Conn
  mqtt_disconnect c =
      let (sent, c') = send_all t c (pkt_disconnect ∷ 0x00 ∷ []) in (none, tls_close c')
