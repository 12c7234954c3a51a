-- ===== src/Mqtt/Packet/Format.antt =====
-- The formats of CONNECT and PUBLISH in MQTT 3.1.1, as readers that share nothing with the writers
-- of mqtt_client/mqtt.c.
use assessing_pq_mqtt_m_tls.Common.{
  ◌>>=◌, ℕ, ◌+◌, ◌-◌, ◌*◌, ◌/◌, ◌%◌, List, [], ◌∷◌, Option, none, some, Bool, false, length, take,
  drop, ltb, ◌==◌, ◌&&◌, ◌||◌, if◌then◌else◌,
}
use assessing_pq_mqtt_m_tls.Mqtt.RemLen.{decode_remlen}

-- A number of two bytes, high byte first.
unfoldable pub read_u16 : List ℕ → Option (ℕ × List ℕ)
read_u16 (hi ∷ lo ∷ rest) = some (hi * 256 + lo, rest)
read_u16 (hi ∷ []) = none
read_u16 [] = none

-- A string with its length before it.
unfoldable pub read_counted : List ℕ → Option (List ℕ × List ℕ)
read_counted bs = do
  (n, rest) ← read_u16 bs
  if ltb (length rest) n then none else some (take n rest, drop n rest)

pub record Will : Type 0 where
  pub topic : List ℕ
  pub message : List ℕ
  pub retain : Bool

pub record Connect : Type 0 where
  pub clean_session : Bool
  pub keepalive : ℕ
  pub client_id : List ℕ
  pub will : Option Will

-- The payload after the client identifier, under the flags of the packet.
unfoldable pub read_will : ℕ → List ℕ → Option (Option Will × List ℕ)
read_will flags bs =
    if flags / 4 % 2 == 0
    then some (none, bs)
    else (read_counted bs >>= λ (topic, rest). read_counted rest >>= λ (message, rest').
        some
          (some (record { topic = topic; message = message; retain = flags / 32 % 2 == 1 }), rest'))

-- What follows the flags.
unfoldable pub read_payload : ℕ → List ℕ → Option Connect
read_payload flags bs = do
  (keepalive, rest) ← read_u16 bs
  (client_id, rest') ← read_counted rest
  (will, rest'') ← read_will flags rest'
  if length rest'' == 0
      then some (record {
        clean_session = flags / 2 % 2 == 1;
        keepalive = keepalive;
        client_id = client_id;
        will = will;
      })
      else none

unfoldable pub is_mqtt : List ℕ → Bool
is_mqtt (b₀ ∷ b₁ ∷ b₂ ∷ b₃ ∷ []) = b₀ == b'M' && (b₁ == b'Q' && (b₂ == b'T' && b₃ == b'T'))
is_mqtt name = false

-- The level, which is 4, and the flags.
unfoldable pub read_level : List ℕ → Option Connect
read_level (level ∷ flags ∷ rest) = if level == 4 then read_payload flags rest else none
read_level (level ∷ []) = none
read_level [] = none

-- The packet without its fixed header: protocol name and level, flags, keep-alive, payload.
unfoldable pub read_body : List ℕ → Option Connect
read_body bs = do (name, rest) ← read_counted bs; if is_mqtt name then read_level rest else none

-- A whole CONNECT packet: the remaining length is that of what follows it.
unfoldable pub read_connect : List ℕ → Option Connect
read_connect [] = none
read_connect (type ∷ bs) =
    if type == 0x10
    then (decode_remlen bs >>= λ (n, body). if length body == n then read_body body else none)
    else none

-- A PUBLISH packet of quality of service 0: retain flag, topic and payload.
unfoldable pub read_publish : List ℕ → Option (Bool × List ℕ × List ℕ)
read_publish [] = none
read_publish (type ∷ bs) =
    if type / 2 == 0x18
    then (decode_remlen bs >>= λ (n, body). read_counted body >>= λ (topic, payload).
        if length body == n then some (type % 2 == 1, topic, payload) else none)
    else none

-- A CONNACK packet at the head of a stream: its return code, and the stream after the packet.
unfoldable pub read_ack_body : ℕ → List ℕ → Option (ℕ × List ℕ)
read_ack_body n (b₀ ∷ b₁ ∷ rest) =
    if ltb n 2 || ltb (length rest) (n - 2) then none else some (b₁, drop (n - 2) rest)
read_ack_body n (b₀ ∷ []) = none
read_ack_body n [] = none

-- With what reads the length.
unfoldable pub read_ack_by : (List ℕ → Option (ℕ × List ℕ)) → List ℕ → Option (ℕ × List ℕ)
read_ack_by length_of [] = none
read_ack_by length_of (type ∷ bs) =
    if type == 0x20 then (length_of bs >>= λ (n, rest). read_ack_body n rest) else none
