-- ===== src/Plain/Publishing.antt =====
-- Publishing of mqtt_client/mqtt.c over the transport of mqtt_client/plain_transport.c.
use assessing_pq_mqtt_m_tls.Common.{
  ℕ, ◌+◌, ◌≤◌, ◌%◌, ◌^◌, ◌≡◌, ◌∙◌, ap, refl, List, [], ◌∷◌, some, Bool, true, false, length,
  length-take, arith, All, not, ◌||◌, ltb,
}
use assessing_pq_mqtt_m_tls.Transport.{Transport, WriteResult, wrote}
use assessing_pq_mqtt_m_tls.Mqtt.Packet.{publish_rem_len, publish_header, write_u16, len16}
use assessing_pq_mqtt_m_tls.Mqtt.RemLen.{encode_remlen, remlen_rounds}
use assessing_pq_mqtt_m_tls.Mqtt.Stream.{send_from, send_all}
use assessing_pq_mqtt_m_tls.Mqtt.Client.{send_parts, mqtt_publish_qos0}
use assessing_pq_mqtt_m_tls.Plain.{TlsConn, is_ok, Lwip, World, tls_write}
use assessing_pq_mqtt_m_tls.Plain.Stream.{plain_transport}

length-encode_remlen : (val : ℕ) → length (encode_remlen val) ≤ 4
unfolding encode_remlen remlen_rounds
length-encode_remlen val = ground arith

module _ (t : Transport) where
  send_from_past : (c : t.Conn) (xs : List ℕ) → send_from t c (length xs) xs ≡ (true, c)
  unfolding send_from
  send_from_past c [] = refl
  send_from_past c (x ∷ xs) = send_from_past c xs

  -- A write that takes the whole buffer ends `send_all`.
  send_all_whole :
      (c c' : t.Conn) (x : ℕ) (xs : List ℕ)
      → t.tls_write c (x ∷ xs) ≡ (wrote (length (x ∷ xs)), c')
      → send_all t c (x ∷ xs) ≡ (true, c')
  unfolding send_all send_from
  send_all_whole c c' x xs e =
      rw (e, send_from)
        (ap (λ (r : WriteResult × t.Conn). send_from t r.1 (length xs) xs) e ∙ send_from_past c' xs)

  send_parts_next :
      (c c' : t.Conn) (part : List ℕ) (parts : List (List ℕ))
      → send_all t c part ≡ (true, c')
      → (send_parts t c (part ∷ parts)).0 ≡ (send_parts t c' parts).0
  unfolding send_parts
  send_parts_next c c' part parts e =
      rw (e, send_parts) (ap (λ (r : Bool × t.Conn). (send_parts t r.1 parts).0) e)

module _ (lwip : Lwip) where
  -- A connection that writes can use.
  pub record IsWritable (c : TlsConn) : Type 0 where
    pub there : c.pcb ≡ true
    pub unbroken : c.tcp_error ≡ false

  -- The result of sending: all of it went out, and the connection can go on.
  abbrev pub Goes : Bool × World lwip → Type 0
  Goes r =
      (c : TlsConn) × (net : lwip.Net) × (r ≡ (true, record { conn = some c; net = net }))
      × IsWritable c

  module _ (takes : (n : lwip.Net) (xs : List ℕ) → is_ok (lwip.tcp_write n xs).0 ≡ true) where
    after : TlsConn → List ℕ → TlsConn
    after c buf = record c { total_tx_bytes = (c.total_tx_bytes + length buf) % 2 ^ 64 }

    tls_write_goes :
        (c : TlsConn) (net : lwip.Net) (buf : List ℕ)
        → IsWritable c
        → length buf ≤ 65535
        → tls_write lwip (record { conn = some c; net = net }) buf ≡ (
          wrote (length buf),
          record { conn = some (after c buf); net = (lwip.tcp_write net buf).1 },
        )
    unfolding tls_write after
    tls_write_goes c net buf h l =
        let small : ltb 65535 (length buf) ≡ false = ground arith in
        let go : (not c.pcb || c.tcp_error || ltb 65535 (length buf)) ≡ false =
          ground (arith, h.there, h.unbroken) in
        rw (go, takes net buf) refl

    send_all-Goes :
        (c : TlsConn) (net : lwip.Net) (buf : List ℕ)
        → IsWritable c
        → length buf ≤ 65535
        → Goes (send_all (plain_transport lwip) (record { conn = some c; net = net }) buf)
    unfolding send_all send_from after
    send_all-Goes c net [] h l = (c, net, refl, h)
    send_all-Goes c net (x ∷ xs) h l = (
      after c (x ∷ xs),
      (lwip.tcp_write net (x ∷ xs)).1,
      send_all_whole (plain_transport lwip) _ _ x xs (tls_write_goes c net (x ∷ xs) h l),
      record { there = h.there; unbroken = h.unbroken },
    )

    send_parts_succeeds :
        (c : TlsConn) (net : lwip.Net) (parts : List (List ℕ))
        → IsWritable c
        → All (λ (part : List ℕ). length part ≤ 65535) parts
        → (send_parts (plain_transport lwip) (record { conn = some c; net = net }) parts).0 ≡ true
    unfolding send_parts
    send_parts_succeeds c net [] h l = refl
    send_parts_succeeds c net (part ∷ parts) h l =
        let (c', net', e, h') = send_all-Goes c net part h l.0 in
        send_parts_next (plain_transport lwip) _ _ part parts e
        ∙ send_parts_succeeds c' net' parts h' l.1

    -- Over a plain connection that is open and that TCP has not broken, where TCP takes what it is
    -- given, a publish of at most 65535 bytes of payload returns true.
    pub mqtt_publish_qos0_succeeds :
        (c : TlsConn) (net : lwip.Net) (topic payload : List ℕ) (retain : Bool)
        → IsWritable c
        → length payload ≤ 65535
        → (mqtt_publish_qos0
            (plain_transport lwip)
            (record { conn = some c; net = net })
            topic
            payload
            retain).0
          ≡ true
    unfolding mqtt_publish_qos0 publish_header write_u16
    mqtt_publish_qos0_succeeds c net topic payload retain h l = send_parts_succeeds c net _ h (
      omega (arith, length-encode_remlen (publish_rem_len topic payload)),
      (omega arith, (omega (arith, length-take (len16 topic) topic), (l, tt))),
    )
