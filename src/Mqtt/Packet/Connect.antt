-- ===== src/Mqtt/Packet/Connect.antt =====
-- The packets that mqtt_client/mqtt.c writes, against the formats of MQTT 3.1.1.
use assessing_pq_mqtt_m_tls.Common.{
  ℕ, ◌+◌, ◌/◌, ◌%◌, ◌^◌, ◌≤◌, ◌<◌, ◌≡◌, refl, List, [], ◌∷◌, ◌++◌, Option, none, some, Bool, true,
  false, arith, length, take, length-append, length-take, take_all, take-append, drop-append,
  append_assoc, append-nil, bit_and-0xff, ◌==◌,
}
use assessing_pq_mqtt_m_tls.Mqtt.RemLen.{encode_remlen}
use assessing_pq_mqtt_m_tls.Mqtt.RemLen.RoundTrip.{
  decode_remlen-encode_remlen, length-encode_remlen_small,
}
use assessing_pq_mqtt_m_tls.Mqtt.Packet.{
  ConnectArgs, write_u16, has_will, len16, will_rem_len, rem_len, connect_flags, counted, will_part,
  connect_body, connect_packet, publish_rem_len, publish_header,
}
use assessing_pq_mqtt_m_tls.Mqtt.Packet.Format.{
  read_u16, read_counted, Will, Connect, read_will, read_payload, read_level, read_body, is_mqtt,
  read_connect, read_publish,
}

pub read_u16-write_u16 :
    (v : ℕ) (rest : List ℕ) → v < 2 ^ 16 → read_u16 (write_u16 v ++ rest) ≡ some (v, rest)
unfolding read_u16 write_u16
read_u16-write_u16 v rest h = ground (arith, bit_and-0xff v)

length-write_u16 : (v : ℕ) → length (write_u16 v) ≡ 2
unfolding write_u16
length-write_u16 v = refl

pub length-counted : (s : List ℕ) → length (counted s) ≡ 2 + len16 s
unfolding counted
length-counted s = omega (
  arith,
  length-append (write_u16 (len16 s)) (take (len16 s) s),
  length-write_u16 (len16 s),
  length-take (len16 s) s,
)

counted_short : (s : List ℕ) → length s < 2 ^ 16 → counted s ≡ write_u16 (length s) ++ s
unfolding counted
counted_short s h =
    let e : len16 s ≡ length s = omega arith in rw (e, take_all (length s) s (omega arith))

pub read_counted-counted :
    (s rest : List ℕ) → length s < 2 ^ 16 → read_counted (counted s ++ rest) ≡ some (s, rest)
unfolding read_counted
read_counted-counted s rest h =
    rw
      (
        counted_short s h,
        append_assoc (write_u16 (length s)) s rest,
        read_u16-write_u16 (length s) (s ++ rest) h,
      )
      (ground (arith, length-append s rest, take-append s rest, drop-append s rest))

read_counted-counted_last :
    (s : List ℕ) → length s < 2 ^ 16 → read_counted (counted s) ≡ some (s, [])
read_counted-counted_last s h = rw append-nil at (read_counted-counted s [] h)

length-will_part : (w : Option (List ℕ × List ℕ)) → length (will_part w) ≡ will_rem_len w
unfolding will_part
length-will_part none = refl
length-will_part (some (topic, payload)) = omega (
  arith,
  length-append (counted topic) (counted payload),
  length-counted topic,
  length-counted payload,
)

-- The remaining length is the number of bytes that follow it.
length-connect_body : (a : ConnectArgs) → length (connect_body a) ≡ rem_len a
unfolding connect_body rem_len
length-connect_body a = omega (
  arith,
  length-append (write_u16 a.keepalive_sec) (counted a.client_id ++ will_part (has_will a)),
  length-append (counted a.client_id) (will_part (has_will a)),
  length-write_u16 a.keepalive_sec,
  length-counted a.client_id,
  length-will_part (has_will a),
)

-- A CONNECT packet that is built fits the 256 bytes of `pkt`.
pub length-connect_packet :
    (a : ConnectArgs) (pkt : List ℕ) → connect_packet a ≡ some pkt → length pkt ≤ 256
unfolding connect_packet
length-connect_packet a pkt e = ground (
  arith,
  length-append (encode_remlen (rem_len a)) (connect_body a),
  length-connect_body a,
  length-encode_remlen_small (rem_len a),
)

abbrev pub will_fields : Option (List ℕ × List ℕ) → Bool → Option Will
will_fields none will_retain = none
will_fields (some (topic, payload)) will_retain =
    some (record { topic = topic; message = payload; retain = will_retain })

-- The fields that a reader of the packet should find.
abbrev pub connect_fields : ConnectArgs → Connect
connect_fields a = record {
  clean_session = true;
  keepalive = a.keepalive_sec;
  client_id = a.client_id;
  will = will_fields (has_will a) a.will_retain;
}

abbrev pub WillFits : Option (List ℕ × List ℕ) → Type 0
WillFits none = Unit {0}
WillFits (some (topic, payload)) = (length topic < 2 ^ 16) × (length payload < 2 ^ 16)

-- The `uint16_t` casts of the lengths, and the `uint16_t` keep-alive, lose nothing.
pub record FitsU16 (a : ConnectArgs) : Type 0 where
  pub id_fits : length a.client_id < 2 ^ 16
  pub keepalive_fits : a.keepalive_sec < 2 ^ 16
  pub will_fits : WillFits (has_will a)

read_will-will_part :
    (w : Option (List ℕ × List ℕ)) (retain : Bool)
    → WillFits w
    → read_will (connect_flags w retain) (will_part w) ≡ some (will_fields w retain, [])
unfolding read_will connect_flags will_part
read_will-will_part none retain h = refl
read_will-will_part (some (topic, payload)) true h =
    rw (read_counted-counted topic (counted payload) h.0, read_counted-counted_last payload h.1)
read_will-will_part (some (topic, payload)) false h =
    rw (read_counted-counted topic (counted payload) h.0, read_counted-counted_last payload h.1)

clean_session-connect_flags :
    (w : Option (List ℕ × List ℕ)) (retain : Bool) → (connect_flags w retain / 2 % 2 == 1) ≡ true
unfolding connect_flags
clean_session-connect_flags none retain = refl
clean_session-connect_flags (some w) true = refl
clean_session-connect_flags (some w) false = refl

read_payload-connect_body :
    (a : ConnectArgs)
    → FitsU16 a
    → read_payload
        (connect_flags (has_will a) a.will_retain)
        (write_u16 a.keepalive_sec ++ (counted a.client_id ++ will_part (has_will a)))
      ≡ some (connect_fields a)
unfolding read_payload
read_payload-connect_body a f = rw (
  read_u16-write_u16 a.keepalive_sec (counted a.client_id ++ will_part (has_will a))
      f.keepalive_fits,
  read_counted-counted a.client_id (will_part (has_will a)) f.id_fits,
  read_will-will_part (has_will a) a.will_retain f.will_fits,
  clean_session-connect_flags (has_will a) a.will_retain,
)

abbrev mqtt_name : List ℕ
mqtt_name = b'M' ∷ b'Q' ∷ b'T' ∷ b'T' ∷ []

read_counted_name :
    (rest : List ℕ) → read_counted (0x00 ∷ 0x04 ∷ (mqtt_name ++ rest)) ≡ some (mqtt_name, rest)
unfolding read_counted read_u16
read_counted_name rest = ground arith

read_body-connect_body :
    (a : ConnectArgs) → FitsU16 a → read_body (connect_body a) ≡ some (connect_fields a)
unfolding read_body connect_body read_level is_mqtt
read_body-connect_body a f = rw read_counted_name (read_payload-connect_body a f)

-- A reader of the MQTT 3.1.1 format finds in a CONNECT packet the fields that the caller gave (the
-- will only where both its topic and its payload are there), if the lengths fit 16 bits.
pub read_connect-connect_packet :
    (a : ConnectArgs) (pkt : List ℕ)
    → FitsU16 a
    → connect_packet a ≡ some pkt
    → read_connect pkt ≡ some (connect_fields a)
unfolding connect_packet read_connect
read_connect-connect_packet a pkt f e = ground (
  arith,
  decode_remlen-encode_remlen (rem_len a) (connect_body a),
  length-connect_body a,
  read_body-connect_body a f,
)

-- What the fields of a CONNECT packet take after its fixed header.
abbrev pub will_size : Option Will → ℕ
will_size none = 0
will_size (some w) = 2 + length w.topic + 2 + length w.message

abbrev pub connect_size : Connect → ℕ
connect_size r = 12 + length r.client_id + will_size r.will

will_rem_len-will_fields :
    (w : Option (List ℕ × List ℕ)) (retain : Bool)
    → WillFits w
    → will_rem_len w ≡ will_size (will_fields w retain)
will_rem_len-will_fields none retain h = refl
will_rem_len-will_fields (some (topic, payload)) retain h = omega arith

-- A packet that is not built does not fit the buffer with a fixed header of five bytes.
pub connect_packet-none :
    (a : ConnectArgs) → FitsU16 a → connect_packet a ≡ none → 251 < connect_size (connect_fields a)
unfolding connect_packet rem_len
connect_packet-none a f e =
    let w = will_rem_len-will_fields (has_will a) a.will_retain f.will_fits in
    let big : 251 < rem_len a = ground arith in omega (arith, w, f.id_fits, big)

-- The four writes of `mqtt_publish_qos0`, one after the other.
abbrev pub publish_packet : List ℕ → List ℕ → Bool → List ℕ
publish_packet topic payload retain =
    publish_header topic payload retain ++ (counted topic ++ payload)

-- A reader of the MQTT 3.1.1 format finds in a PUBLISH packet the retain flag, the topic and the
-- payload, if the topic's length fits 16 bits and the remaining length fits 28 bits.
pub read_publish-publish_packet :
    (topic payload : List ℕ) (retain : Bool)
    → length topic < 2 ^ 16
    → 2 + length topic + length payload < 2 ^ 28
    → read_publish (publish_packet topic payload retain) ≡ some (retain, topic, payload)
unfolding read_publish publish_header publish_rem_len
read_publish-publish_packet topic payload true h k = ground (
  arith,
  decode_remlen-encode_remlen (publish_rem_len topic payload) (counted topic ++ payload),
  read_counted-counted topic payload h,
  length-append (counted topic) payload,
  length-counted topic,
)
read_publish-publish_packet topic payload false h k = ground (
  arith,
  decode_remlen-encode_remlen (publish_rem_len topic payload) (counted topic ++ payload),
  read_counted-counted topic payload h,
  length-append (counted topic) payload,
  length-counted topic,
)
