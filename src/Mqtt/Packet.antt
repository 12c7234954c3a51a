-- ===== src/Mqtt/Packet.antt =====
-- The packets that mqtt_client/mqtt.c builds: CONNECT (`mqtt_connect_internal`) and the parts of
-- PUBLISH (`mqtt_publish_qos0`).
pub mod Format
pub mod Connect
use assessing_pq_mqtt_m_tls.Common.{
  ℕ, ◌+◌, ◌-◌, ◌/◌, ◌%◌, ◌^◌, List, [], ◌∷◌, ◌++◌, Option, none, some, Bool, true, false, length,
  take, ltb, bit_and, bit_or, if◌then◌else◌,
}
use assessing_pq_mqtt_m_tls.Mqtt.RemLen.{encode_remlen}

-- PKT_CONNECT, PKT_CONNACK, PKT_PUBLISH, PKT_DISCONNECT
abbrev pub pkt_connect : ℕ
pkt_connect = 0x10

abbrev pub pkt_connack : ℕ
pkt_connack = 0x20

abbrev pub pkt_publish : ℕ
pkt_publish = 0x30

abbrev pub pkt_disconnect : ℕ
pkt_disconnect = 0xE0

-- The two bytes that `write_u16` writes for the `uint16_t` v.
unfoldable pub write_u16 : ℕ → List ℕ
write_u16 v = (v / 2 ^ 8 % 256) ∷ bit_and v 0xFF % 256 ∷ []

-- What the callers of `mqtt_connect_internal` pass: strings and buffers as the bytes that they hold,
-- and `none` for a null pointer. `will_payload_len` is the length of the payload.
pub record ConnectArgs : Type 0 where
  pub client_id : List ℕ
  pub keepalive_sec : ℕ
  pub will_topic : Option (List ℕ)
  pub will_payload : Option (List ℕ)
  pub will_retain : Bool

-- `has_will`, with the topic and the payload where both are there.
abbrev pub both : Option (List ℕ) → Option (List ℕ) → Option (List ℕ × List ℕ)
both (some topic) (some payload) = some (topic, payload)
both (some topic) none = none
both none payload = none

abbrev pub has_will : ConnectArgs → Option (List ℕ × List ℕ)
has_will a = both a.will_topic a.will_payload

-- `(uint16_t)strlen(s)`
abbrev pub len16 : List ℕ → ℕ
len16 s = length s % 2 ^ 16

abbrev pub will_rem_len : Option (List ℕ × List ℕ) → ℕ
will_rem_len none = 0
will_rem_len (some (topic, payload)) = 2 + len16 topic + 2 + len16 payload

-- `rem_len`: at most 12 + 65535 + 4 + 2 * 65535, so the `uint32_t` does not wrap.
unfoldable pub rem_len : ConnectArgs → ℕ
rem_len a = 10 + 2 + len16 a.client_id + will_rem_len (has_will a)

-- `flags`, from `has_will` and `will_retain`
unfoldable pub connect_flags : Option (List ℕ × List ℕ) → Bool → ℕ
connect_flags none will_retain = 0x02
connect_flags (some w) will_retain =
    let flags = bit_or 0x02 0x04 in if will_retain then bit_or flags 0x20 else flags

-- `write_u16` of the length, then `memcpy` of that many bytes.
unfoldable pub counted : List ℕ → List ℕ
counted s = write_u16 (len16 s) ++ take (len16 s) s

unfoldable pub will_part : Option (List ℕ × List ℕ) → List ℕ
will_part none = []
will_part (some (topic, payload)) = counted topic ++ counted payload

-- The bytes after the fixed header.
unfoldable pub connect_body : ConnectArgs → List ℕ
connect_body a =
    (0x00 ∷ 0x04 ∷ b'M' ∷ b'Q' ∷ b'T' ∷ b'T' ∷ 0x04 ∷ connect_flags (has_will a) a.will_retain ∷ [])
    ++ (write_u16 a.keepalive_sec ++ (counted a.client_id ++ will_part (has_will a)))

-- `sizeof(pkt)`
abbrev pub pkt_size : ℕ
pkt_size = 256

-- The CONNECT packet, or `none` where it is too large for the buffer.
unfoldable pub connect_packet : ConnectArgs → Option (List ℕ)
connect_packet a =
    if ltb (pkt_size - 5) (rem_len a)
    then none
    else some (pkt_connect ∷ (encode_remlen (rem_len a) ++ connect_body a))

-- `rem_len` of a PUBLISH packet, a `uint32_t`.
unfoldable pub publish_rem_len : List ℕ → List ℕ → ℕ
publish_rem_len topic payload = (2 + len16 topic + length payload % 2 ^ 32) % 2 ^ 32

-- `hdr`: the type byte and the remaining length.
unfoldable pub publish_header : List ℕ → List ℕ → Bool → List ℕ
publish_header topic payload retain =
    bit_or pkt_publish (if retain then 0x01 else 0x00)
    ∷ encode_remlen (publish_rem_len topic payload)
