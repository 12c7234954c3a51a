-- ===== src/Mqtt/Client/Publish.antt =====
-- `mqtt_publish_qos0` of mqtt_client/mqtt.c, from the call to the bytes on the connection.
use assessing_pq_mqtt_m_tls.Common.{
  ℕ, ◌+◌, ◌^◌, ◌<◌, ◌≡◌, refl, sym, ap, ◌∙◌, List, [], ◌∷◌, ◌++◌, Bool, true, some, length, take,
  append_assoc, append-nil, Bool-cases, inl, inr,
}
use assessing_pq_mqtt_m_tls.Transport.{Transport, Laws}
use assessing_pq_mqtt_m_tls.Mqtt.Packet.{counted, write_u16, len16, publish_header}
use assessing_pq_mqtt_m_tls.Mqtt.Packet.Format.{read_publish}
use assessing_pq_mqtt_m_tls.Mqtt.Packet.Connect.{publish_packet, read_publish-publish_packet}
use assessing_pq_mqtt_m_tls.Mqtt.Stream.{send_all}
use assessing_pq_mqtt_m_tls.Mqtt.Stream.Sending.{Sends, send_all-Sends}
use assessing_pq_mqtt_m_tls.Mqtt.Client.{send_parts, mqtt_publish_qos0}

abbrev pub joined : List (List ℕ) → List ℕ
joined [] = []
joined (part ∷ parts) = part ++ joined parts

module _ (t : Transport) (laws : Laws t) where
  open t use {Conn}
  open laws use {IsGood, incoming, sent}

  send_parts-Sends :
      (c : Conn) (parts : List (List ℕ))
      → IsGood c
      → Sends t laws c (joined parts) (send_parts t c parts)
  unfolding send_parts
  send_parts-Sends c [] g = record {
    good = g;
    unread = refl;
    stuck = λ p. cc;
    all_sent = λ _. sym (append-nil (sent c));
  }
  send_parts-Sends c (part ∷ parts) g =
      let s = send_all-Sends t laws c part g in
      elim (Bool-cases (send_all t c part).0) [
        | inl e ↦
            let ih = send_parts-Sends (send_all t c part).1 parts s.good in
            rw (e, send_parts)
              (record {
                good = ih.good;
                unread = ih.unread ∙ s.unread;
                stuck = ih.stuck;
                all_sent = λ p.
                    ih.all_sent p
                    ∙ ap (λ (xs : List ℕ). xs ++ joined parts) (s.all_sent e)
                    ∙ append_assoc (sent c) part (joined parts);
              })
        | inr e ↦
            rw (e, send_parts)
              (record {
                good = s.good;
                unread = s.unread;
                stuck = λ _. s.stuck e;
                all_sent = λ p. cc;
              })
      ]

  -- If `mqtt_publish_qos0` returns true, the connection has been given one packet, which a reader of
  -- the MQTT 3.1.1 format takes for a PUBLISH with the caller's retain flag, topic and payload. The
  -- topic's length has to fit 16 bits, and the remaining length 28 bits.
  pub mqtt_publish_qos0_lem :
      (c : Conn) (topic payload : List ℕ) (retain : Bool)
      → IsGood c
      → length topic < 2 ^ 16
      → 2 + length topic + length payload < 2 ^ 28
      → (mqtt_publish_qos0 t c topic payload retain).0 ≡ true
      → (pkt : List ℕ) × (sent (mqtt_publish_qos0 t c topic payload retain).1 ≡ sent c ++ pkt)
        × (read_publish pkt ≡ some (retain, topic, payload))
  unfolding mqtt_publish_qos0
  mqtt_publish_qos0_lem c topic payload retain g h k p = (
    publish_packet topic payload retain,
    (send_parts-Sends c _ g).all_sent p ∙ ap (λ (xs : List ℕ). sent c ++ xs) four_parts,
    read_publish-publish_packet topic payload retain h k,
  )
    where
      four_parts :
          joined (
            publish_header topic payload retain
            ∷ write_u16 (len16 topic)
            ∷ take (len16 topic) topic
            ∷ payload
            ∷ [])
          ≡ publish_packet topic payload retain
      four_parts = unfold counted in simp (append-nil, append_assoc)
