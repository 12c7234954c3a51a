-- ===== src/Mqtt/Tests.antt =====
-- Runs of the client of mqtt_client/mqtt.c, and its theorems at concrete inputs.
use assessing_pq_mqtt_m_tls.Common.{
  ℕ, ◌≤◌, ◌<◌, ◌≡◌, refl, ◌⊎◌, pos, List, [], ◌∷◌, ◌++◌, true, some, none, arith, length,
}
use assessing_pq_mqtt_m_tls.Mqtt.Loopback.{Line, loopback, loopback_laws}
use assessing_pq_mqtt_m_tls.Mqtt.RemLen.{
  encode_remlen, decode_remlen, decode_overlong, decode_either,
}
use assessing_pq_mqtt_m_tls.Mqtt.Packet.{
  ConnectArgs, connect_packet, rem_len, connect_body, connect_flags, write_u16, counted, will_part,
  publish_header, publish_rem_len,
}
use assessing_pq_mqtt_m_tls.Mqtt.Packet.Format.{read_connect, read_ack_by, read_publish}
use assessing_pq_mqtt_m_tls.Mqtt.Packet.Connect.{
  length-connect_packet, read_connect-connect_packet, connect_fields, connect_size, FitsU16,
  publish_packet, read_publish-publish_packet,
}
use assessing_pq_mqtt_m_tls.Mqtt.Stream.{
  send_from, send_all, recv_byte, recv_rounds, recv_remlen, drain_from, drain, remlen_error,
}
use assessing_pq_mqtt_m_tls.Mqtt.Stream.Sending.{Refused, Sends, send_all-Sends}
use assessing_pq_mqtt_m_tls.Mqtt.Stream.Receiving.{Kept, Cut, recv_remlen_lem}
use assessing_pq_mqtt_m_tls.Mqtt.Client.{
  fail, err_mqtt_packet, err_mqtt_send, finish_connect, skip_rest, read_code, read_length,
  read_connack, mqtt_connect_internal, send_parts, mqtt_publish_qos0,
}
use assessing_pq_mqtt_m_tls.Mqtt.Client.Accept.{Answers, mqtt_connect_internal_lem}
use assessing_pq_mqtt_m_tls.Mqtt.Client.Publish.{mqtt_publish_qos0_lem}

abbrev will_args : ConnectArgs
will_args = record {
  client_id = b'p' ∷ b'i' ∷ [];
  keepalive_sec = 60;
  will_topic = some (b't' ∷ []);
  will_payload = some (b'o' ∷ b'f' ∷ b'f' ∷ []);
  will_retain = true;
}

abbrev will_packet : List ℕ
will_packet =
    0x10 ∷ 22 ∷ 0 ∷ 4 ∷ b'M' ∷ b'Q' ∷ b'T' ∷ b'T' ∷ 4 ∷ 0x26 ∷ 0 ∷ 60 ∷ 0 ∷ 2 ∷ b'p' ∷ b'i' ∷ 0 ∷ 1
    ∷ b't' ∷ 0 ∷ 3 ∷ b'o' ∷ b'f' ∷ b'f' ∷ []

-- A broker that answers with a CONNACK of four bytes, the last two of them dropped, and goes on.
abbrev broker : ℕ → Line
broker code = record { inbox = 0x20 ∷ 4 ∷ 1 ∷ code ∷ 9 ∷ 9 ∷ 0xd0 ∷ []; outbox = []; clock = 7 }

will_packet_bytes : connect_packet will_args ≡ some will_packet
unfolding connect_packet rem_len connect_body connect_flags write_u16 counted will_part
    encode_remlen
will_packet_bytes = refl

-- Code 5 (not authorised) reaches the caller as it is.
refused_run :
    mqtt_connect_internal loopback (broker 5) will_args
    ≡ (fail (pos 5), record { inbox = 0xd0 ∷ []; outbox = will_packet; clock = 7 })
unfolding mqtt_connect_internal read_connack read_length read_code skip_rest finish_connect
    connect_packet rem_len connect_body connect_flags write_u16 counted will_part encode_remlen
    send_all send_from recv_byte recv_remlen recv_rounds drain drain_from
refused_run = refl

will_args_fit : FitsU16 will_args
will_args_fit = omega arith

published_bytes : (mqtt_publish_qos0 loopback (broker 0) (b't' ∷ []) (1 ∷ []) true).0 ≡ true
unfolding mqtt_publish_qos0 send_parts publish_header publish_rem_len write_u16 encode_remlen
    send_all send_from
published_bytes = refl

length-connect_packet_example : length will_packet ≤ 256
length-connect_packet_example = length-connect_packet will_args will_packet will_packet_bytes

read_connect-connect_packet_example : read_connect will_packet ≡ some (connect_fields will_args)
read_connect-connect_packet_example =
    read_connect-connect_packet will_args will_packet will_args_fit will_packet_bytes

read_publish-publish_packet_example :
    read_publish (publish_packet (b't' ∷ []) (1 ∷ 2 ∷ []) true) ≡ some (true, b't' ∷ [], 1 ∷ 2 ∷ [])
read_publish-publish_packet_example =
    read_publish-publish_packet (b't' ∷ []) (1 ∷ 2 ∷ []) true (omega arith) (omega arith)

send_all-Sends_example :
    Sends loopback loopback_laws (broker 0) (1 ∷ 2 ∷ []) (send_all loopback (broker 0) (1 ∷ 2 ∷ []))
send_all-Sends_example = send_all-Sends loopback loopback_laws (broker 0) (1 ∷ 2 ∷ []) tt

recv_remlen_lem_example :
    let (v, c') = recv_remlen loopback (broker 0) in
    Kept loopback loopback_laws (broker 0) c'
    × (((v ≡ remlen_error) × Cut loopback loopback_laws (broker 0) c')
        ⊎ (decode_remlen (broker 0).inbox ≡ some (v, c'.inbox))
        ⊎ ((decode_remlen (broker 0).inbox ≡ none)
            × (decode_overlong (broker 0).inbox ≡ some (v, c'.inbox))))
recv_remlen_lem_example = recv_remlen_lem loopback loopback_laws (broker 0) tt

mqtt_publish_qos0_lem_example :
    (pkt : List ℕ) × ((mqtt_publish_qos0 loopback (broker 0) (b't' ∷ []) (1 ∷ []) true).1.outbox
      ≡ [] ++ pkt)
    × (read_publish pkt ≡ some (true, b't' ∷ [], 1 ∷ []))
mqtt_publish_qos0_lem_example =
    mqtt_publish_qos0_lem loopback loopback_laws (broker 0) (b't' ∷ []) (1 ∷ []) true tt
      (omega arith) (omega arith) published_bytes

mqtt_connect_internal_lem_example :
    let (o, c') = mqtt_connect_internal loopback (broker 5) will_args in
    ((251 < connect_size (connect_fields will_args)) × (o ≡ fail err_mqtt_packet) × (c' ≡ broker 5))
    ⊎ ((o ≡ fail err_mqtt_send) × Refused loopback loopback_laws c' × Unit {0})
    ⊎ ((pkt : List ℕ) × (c'.outbox ≡ [] ++ pkt)
        × (read_connect pkt ≡ some (connect_fields will_args))
        × Answers
            (read_ack_by decode_either (broker 5).inbox)
            c'.inbox
            (Cut loopback loopback_laws (broker 5) c')
            o
        × Unit {0})
mqtt_connect_internal_lem_example =
    mqtt_connect_internal_lem loopback loopback_laws (broker 5) will_args tt will_args_fit
