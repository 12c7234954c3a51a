-- ===== src/Mqtt/Client/Codes.antt =====
-- The error codes of `mqtt_connect_internal` of mqtt_client/mqtt.c.
use assessing_pq_mqtt_m_tls.Common.{
  ℕ, zero, suc, ◌-◌, ◌≡◌, ◌≢◌, refl, inl, inr, pos, true, false, arith, Bool-cases, Option-cases,
  ltb, ◌==◌, ◌!=◌, ◌||◌,
}
use assessing_pq_mqtt_m_tls.Transport.{Transport}
use assessing_pq_mqtt_m_tls.Mqtt.Packet.{ConnectArgs, connect_packet, pkt_connack}
use assessing_pq_mqtt_m_tls.Mqtt.Stream.{send_all, recv_byte, recv_remlen, remlen_error, drain}
use assessing_pq_mqtt_m_tls.Mqtt.Client.{
  Outcome, err_mqtt_packet, err_mqtt_send, fail, pair, finish_connect, skip_rest, read_code,
  read_length, read_connack, mqtt_connect_internal,
}

-- A failure has an error code, and a success has none.
pub record Coded (o : Outcome) : Type 0 where
  pub failed : o.success ≡ false → o.error_code ≢ pos 0
  pub succeeded : o.success ≡ true → o.error_code ≡ pos 0

packet-Coded : Coded (fail err_mqtt_packet)
packet-Coded = record { failed = λ _ f. ground (arith, f); succeeded = λ e. ground (arith, e) }

send-Coded : Coded (fail err_mqtt_send)
send-Coded = record { failed = λ _ f. ground (arith, f); succeeded = λ e. ground (arith, e) }

module _ (t : Transport) where
  open t use {Conn, tls_read}

  finish_connect-Coded : (c : Conn) (t0 code : ℕ) → Coded (finish_connect t c t0 code).0
  unfolding finish_connect
  finish_connect-Coded c t0 zero = record {
    failed = λ e. absurd (ground (arith, e));
    succeeded = λ _. refl;
  }
  finish_connect-Coded c t0 (suc k) =
      let not_zero : (suc k != 0x00) ≡ true = ground arith in
      rw not_zero
        (record { failed = λ _ f. ground (arith, f); succeeded = λ e. absurd (ground (arith, e)) })

  skip_rest-Coded : (c : Conn) (t0 rlen code : ℕ) → Coded (skip_rest t c t0 rlen code).0
  unfolding skip_rest
  skip_rest-Coded c t0 rlen code = elim (Bool-cases (ltb 2 rlen)) [
    | inr k ↦ rw k (finish_connect-Coded c t0 code)
    | inl k ↦ elim (Bool-cases (drain t c (rlen - 2)).0) [
      | inl y ↦ rw (k, y) (finish_connect-Coded _ t0 code)
      | inr n ↦ rw (k, n) packet-Coded
    ]
  ]

  read_code-Coded : (c : Conn) (t0 rlen : ℕ) → Coded (read_code t c t0 rlen).0
  unfolding read_code
  read_code-Coded c t0 rlen = elim (Option-cases (pair (tls_read c 2).0)) [
    | inl e ↦ rw (e, read_code) packet-Coded
    | inr ((b₀, b₁), e) ↦ rw (e, read_code) (skip_rest-Coded _ t0 rlen b₁)
  ]

  read_length-Coded : (c : Conn) (t0 : ℕ) → Coded (read_length t c t0).0
  unfolding read_length
  read_length-Coded c t0 =
      let rlen = (recv_remlen t c).0 in
      elim (Bool-cases (rlen == remlen_error || ltb rlen 2)) [
        | inl e ↦ rw e packet-Coded
        | inr e ↦ rw e (read_code-Coded _ t0 rlen)
      ]

  read_connack-Coded : (c : Conn) (t0 : ℕ) → Coded (read_connack t c t0).0
  unfolding read_connack
  read_connack-Coded c t0 = elim (Option-cases (recv_byte t c).0) [
    | inl e ↦ rw (e, read_connack) packet-Coded
    | inr (b, e) ↦ elim (Bool-cases (b != pkt_connack)) [
      | inl k ↦ rw (e, read_connack, k) packet-Coded
      | inr k ↦ rw (e, read_connack, k) (read_length-Coded _ t0)
    ]
  ]

  -- An attempt of MQTT has an error code other than 0 exactly where it fails, whatever the transport does.
  pub mqtt_connect_internal-Coded :
      (c : Conn) (a : ConnectArgs) → Coded (mqtt_connect_internal t c a).0
  unfolding mqtt_connect_internal
  mqtt_connect_internal-Coded c a = elim (Option-cases (connect_packet a)) [
    | inl e ↦ rw (e, mqtt_connect_internal) packet-Coded
    | inr (pkt, e) ↦ elim (Bool-cases (send_all t c pkt).0) [
      | inl y ↦ rw (e, mqtt_connect_internal, y) (read_connack-Coded _ _)
      | inr n ↦ rw (e, mqtt_connect_internal, n) send-Coded
    ]
  ]
