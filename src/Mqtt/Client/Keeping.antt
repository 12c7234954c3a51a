-- ===== src/Mqtt/Client/Keeping.antt =====
-- What reads and writes keep, the calls of mqtt_client/mqtt.c keep.
use assessing_pq_mqtt_m_tls.Common.{
  ℕ, zero, suc, ◌+◌, ◌-◌, ◌≡◌, refl, List, [], ◌∷◌, Bool, length, ltb, ◌==◌, ◌!=◌, ◌&&◌, ◌||◌,
  bit_and, if◌then◌else◌, Bool-cases, Option-cases, inl, inr, ◌⊎◌,
}
use assessing_pq_mqtt_m_tls.Transport.{
  Transport, WriteResult, write_failed, wrote, ReadResult, read_failed, received,
}
use assessing_pq_mqtt_m_tls.Mqtt.Packet.{ConnectArgs, connect_packet, pkt_connack}
use assessing_pq_mqtt_m_tls.Mqtt.Stream.{
  send_from, send_all, recv_byte, add_group, recv_rounds, recv_remlen, remlen_error, drain_from,
  drain,
}
use assessing_pq_mqtt_m_tls.Mqtt.Client.{
  pair, finish_connect, skip_rest, read_code, read_length, read_connack, mqtt_connect_internal,
  send_parts, mqtt_publish_qos0,
}

WriteResult-cases :
    (r : WriteResult) → ((r ≡ write_failed) ⊎ (r ≡ wrote zero)) ⊎ ((m : ℕ) × (r ≡ wrote (suc m)))
WriteResult-cases write_failed = inl (inl refl)
WriteResult-cases (wrote zero) = inl (inr refl)
WriteResult-cases (wrote (suc m)) = inr (m, refl)

ReadResult-cases :
    (r : ReadResult)
    → ((r ≡ read_failed) ⊎ (r ≡ received [])) ⊎ ((x : ℕ) × (ys : List ℕ) × (r ≡ received (x ∷ ys)))
ReadResult-cases read_failed = inl (inl refl)
ReadResult-cases (received []) = inl (inr refl)
ReadResult-cases (received (x ∷ ys)) = inr (x, ys, refl)

module _ (t : Transport) (Holds : t.Conn → Type 0)
    (write-Holds : (c : t.Conn) (xs : List ℕ) → Holds c → Holds (t.tls_write c xs).1)
    (read-Holds : (c : t.Conn) (n : ℕ) → Holds c → Holds (t.tls_read c n).1) where
  open t use {Conn, tls_write, tls_read}

  send_from-Holds :
      (c : Conn) (ahead : ℕ) (xs : List ℕ) → Holds c → Holds (send_from t c ahead xs).1
  unfolding send_from
  send_from-Holds c ahead [] h = h
  send_from-Holds c (suc ahead) (x ∷ xs) h = send_from-Holds c ahead xs h
  send_from-Holds c zero (x ∷ xs) h =
      let k = write-Holds c (x ∷ xs) h in
      elim (WriteResult-cases (tls_write c (x ∷ xs)).0) [
        | inl (inl e) ↦ rw (e, send_from) k
        | inl (inr e) ↦ rw (e, send_from) k
        | inr (m, e) ↦ rw (e, send_from) (send_from-Holds (tls_write c (x ∷ xs)).1 m xs k)
      ]

  send_all-Holds : (c : Conn) (xs : List ℕ) → Holds c → Holds (send_all t c xs).1
  unfolding send_all
  send_all-Holds c xs h = send_from-Holds c 0 xs h

  recv_byte-Holds : (c : Conn) → Holds c → Holds (recv_byte t c).1
  unfolding recv_byte
  recv_byte-Holds c h = read-Holds c 1 h

  recv_rounds-Holds :
      (more : ℕ) (c : Conn) (val shift : ℕ) → Holds c → Holds (recv_rounds t more c val shift).1
  unfolding recv_rounds
  recv_rounds-Holds zero c val shift h =
      let k = recv_byte-Holds c h in
      elim (Option-cases (recv_byte t c).0) [
        | inl e ↦ rw (e, recv_rounds) k
        | inr (b, e) ↦ rw (e, recv_rounds) k
      ]
  recv_rounds-Holds (suc more) c val shift h =
      let k = recv_byte-Holds c h in
      elim (Option-cases (recv_byte t c).0) [
        | inl e ↦ rw (e, recv_rounds) k
        | inr (b, e) ↦ elim (Bool-cases (bit_and b 0x80 != 0 && ltb (shift + 7) 28)) [
          | inl m ↦
              rw (e, recv_rounds, m)
                (recv_rounds-Holds more (recv_byte t c).1 (add_group val b shift) (shift + 7) k)
          | inr m ↦ rw (e, recv_rounds, m) k
        ]
      ]

  recv_remlen-Holds : (c : Conn) → Holds c → Holds (recv_remlen t c).1
  unfolding recv_remlen
  recv_remlen-Holds c h = recv_rounds-Holds 3 c 0 0 h

  drain_from-Holds : (c : Conn) (ahead n : ℕ) → Holds c → Holds (drain_from t c ahead n).1
  unfolding drain_from
  drain_from-Holds c ahead zero h = h
  drain_from-Holds c (suc ahead) (suc n) h = drain_from-Holds c ahead n h
  drain_from-Holds c zero (suc n) h =
      let want = if ltb (suc n) 32 then suc n else 32 in
      let k = read-Holds c want h in
      elim (ReadResult-cases (tls_read c want).0) [
        | inl (inl e) ↦ rw (e, drain_from) k
        | inl (inr e) ↦ rw (e, drain_from) k
        | inr (x, ys, e) ↦ rw (e, drain_from) (drain_from-Holds (tls_read c want).1 (length ys) n k)
      ]

  drain-Holds : (c : Conn) (n : ℕ) → Holds c → Holds (drain t c n).1
  unfolding drain
  drain-Holds c n h = drain_from-Holds c 0 n h

  finish_connect-Holds : (c : Conn) (t0 code : ℕ) → Holds c → Holds (finish_connect t c t0 code).1
  unfolding finish_connect
  finish_connect-Holds c t0 code h = elim (Bool-cases (code != 0x00)) [
    | inl e ↦ rw e h
    | inr e ↦ rw e h
  ]

  skip_rest-Holds : (c : Conn) (t0 rlen code : ℕ) → Holds c → Holds (skip_rest t c t0 rlen code).1
  unfolding skip_rest
  skip_rest-Holds c t0 rlen code h =
      let k = drain-Holds c (rlen - 2) h in
      elim (Bool-cases (ltb 2 rlen)) [
        | inr e ↦ rw e (finish_connect-Holds c t0 code h)
        | inl e ↦ elim (Bool-cases (drain t c (rlen - 2)).0) [
          | inl y ↦ rw (e, y) (finish_connect-Holds _ t0 code k)
          | inr n ↦ rw (e, n) k
        ]
      ]

  read_code-Holds : (c : Conn) (t0 rlen : ℕ) → Holds c → Holds (read_code t c t0 rlen).1
  unfolding read_code
  read_code-Holds c t0 rlen h =
      let k = read-Holds c 2 h in
      elim (Option-cases (pair (tls_read c 2).0)) [
        | inl e ↦ rw (e, read_code) k
        | inr ((b₀, b₁), e) ↦ rw (e, read_code) (skip_rest-Holds _ t0 rlen b₁ k)
      ]

  read_length-Holds : (c : Conn) (t0 : ℕ) → Holds c → Holds (read_length t c t0).1
  unfolding read_length
  read_length-Holds c t0 h =
      let k = recv_remlen-Holds c h in
      let rlen = (recv_remlen t c).0 in
      elim (Bool-cases (rlen == remlen_error || ltb rlen 2)) [
        | inl e ↦ rw e k
        | inr e ↦ rw e (read_code-Holds _ t0 rlen k)
      ]

  read_connack-Holds : (c : Conn) (t0 : ℕ) → Holds c → Holds (read_connack t c t0).1
  unfolding read_connack
  read_connack-Holds c t0 h =
      let k = recv_byte-Holds c h in
      elim (Option-cases (recv_byte t c).0) [
        | inl e ↦ rw (e, read_connack) k
        | inr (b, e) ↦ elim (Bool-cases (b != pkt_connack)) [
          | inl w ↦ rw (e, read_connack, w) k
          | inr w ↦ rw (e, read_connack, w) (read_length-Holds _ t0 k)
        ]
      ]

  -- A connection attempt of MQTT keeps what the reads and writes of its transport keep.
  pub mqtt_connect_internal-Holds :
      (c : Conn) (a : ConnectArgs) → Holds c → Holds (mqtt_connect_internal t c a).1
  unfolding mqtt_connect_internal
  mqtt_connect_internal-Holds c a h = elim (Option-cases (connect_packet a)) [
    | inl e ↦ rw (e, mqtt_connect_internal) h
    | inr (pkt, e) ↦
        let k = send_all-Holds c pkt h in
        elim (Bool-cases (send_all t c pkt).0) [
          | inl y ↦ rw (e, mqtt_connect_internal, y) (read_connack-Holds _ _ k)
          | inr n ↦ rw (e, mqtt_connect_internal, n) k
        ]
  ]

  send_parts-Holds : (c : Conn) (parts : List (List ℕ)) → Holds c → Holds (send_parts t c parts).1
  unfolding send_parts
  send_parts-Holds c [] h = h
  send_parts-Holds c (part ∷ parts) h =
      let k = send_all-Holds c part h in
      elim (Bool-cases (send_all t c part).0) [
        | inl y ↦ rw (y, send_parts) (send_parts-Holds (send_all t c part).1 parts k)
        | inr n ↦ rw (n, send_parts) k
      ]

  -- A publish keeps it too.
  pub mqtt_publish_qos0-Holds :
      (c : Conn) (topic payload : List ℕ) (retain : Bool)
      → Holds c
      → Holds (mqtt_publish_qos0 t c topic payload retain).1
  unfolding mqtt_publish_qos0
  mqtt_publish_qos0-Holds c topic payload retain h = send_parts-Holds c _ h
