-- ===== src/Main/Session.antt =====
-- The MQTT session of `main` in mqtt_client/main.c, from the connection to the broker on. What is
-- printed is left out; `cyw43_arch_deinit` is the caller's.
pub mod Pace
mod Tests
use assessing_pq_mqtt_m_tls.Common.{
  ℕ, zero, suc, ◌+◌, ◌-◌, ◌%◌, ◌^◌, List, [], ◌∷◌, Option, some, none, Bool, true, false, not, leb,
  if◌then◌else◌,
}
use assessing_pq_mqtt_m_tls.Transport.{AttemptResult, Transport}
use assessing_pq_mqtt_m_tls.Plain.{wrap32}
use assessing_pq_mqtt_m_tls.Mqtt.Packet.{ConnectArgs}
use assessing_pq_mqtt_m_tls.Mqtt.Client.{
  mqtt_connect_with_will, mqtt_publish, mqtt_publish_retained, mqtt_disconnect,
}
use assessing_pq_mqtt_m_tls.Main.{Link}

-- The macros of the build, with `home_assistant_discovery_json`.
pub record Topics : Type 0 where
  pub client_id : List ℕ
  pub keepalive_sec : ℕ
  pub state_topic : List ℕ
  pub status_topic : List ℕ
  pub discovery_topic : List ℕ
  pub discovery_json : List ℕ
  pub online : List ℕ
  pub offline : List ℕ

-- The board in the session: the milliseconds since boot without the wrap of `to_ms_since_boot`, the sleep,
-- and the sensors with `build_payload`, whose text is `none` where it gives no length above 0.
pub record Sensors (t : Transport) : Type 0 where
  pub ms : t.Conn → ℕ
  pub sleep_ms : ℕ → t.Conn → t.Conn
  pub build_payload : t.Conn → Option (List ℕ) × t.Conn

module _ (t : Transport) (l : Link t) (s : Sensors t) (topics : Topics) where
  open t use {Conn}
  open s use {ms, sleep_ms, build_payload}
  open topics use {state_topic, status_topic, discovery_topic, discovery_json}

  unfoldable pub publish_home_assistant_discovery : Conn → Bool × Conn
  publish_home_assistant_discovery c = mqtt_publish_retained t c discovery_topic discovery_json

  unfoldable pub publish_availability : Conn → List ℕ → Bool × Conn
  publish_availability c status = mqtt_publish_retained t c status_topic status

  -- The variables of the publish loop. `times` has the times of the rounds that publish, without the
  -- wrap and the last one first; `stopped` says that the loop has ended.
  pub record Loop : Type 0 where
    pub conn : Conn
    pub last_pub : ℕ
    pub times : List ℕ
    pub stopped : Bool

  -- PUB_INTERVAL_MS
  abbrev pub pub_interval_ms : ℕ
  pub_interval_ms = 5000

  -- `if (plen > 0) ...`: whether the loop goes on, and the connection.
  unfoldable pub publish_payload : Option (List ℕ) → Conn → Bool × Conn
  publish_payload none c = (true, c)
  publish_payload (some payload) c = mqtt_publish t c state_topic payload

  -- A round that is due, at the time `now`.
  unfoldable pub publish_state : ℕ → Loop → Loop
  publish_state now v =
      let (payload, c₁) = build_payload v.conn in
      let (ok, c₂) = publish_payload payload c₁ in
      record {
        conn = if ok then sleep_ms 10 c₂ else c₂;
        last_pub = wrap32 now;
        times = now ∷ v.times;
        stopped = if ok then false else true;
      }

  -- `now - last_pub`, on `uint32_t`
  abbrev pub since_last : ℕ → ℕ → ℕ
  since_last now last = (wrap32 now + 2 ^ 32 - last) % 2 ^ 32

  unfoldable pub round : Loop → Loop
  round v =
      if leb pub_interval_ms (since_last (ms v.conn) v.last_pub)
      then publish_state (ms v.conn) v
      else record v { conn = sleep_ms 10 v.conn }

  -- So many rounds, or fewer where the loop ends.
  unfoldable pub rounds : ℕ → Loop → Loop
  rounds zero v = v
  rounds (suc n) v = let more = rounds n (round v) in if v.stopped then v else more

  abbrev pub begin_loop : Conn → Loop
  begin_loop c = record { conn = c; last_pub = 0; times = []; stopped = false }

  -- After the loop.
  unfoldable pub end_session : Conn → Conn
  end_session c = (mqtt_disconnect t (publish_availability c topics.offline).1).1

  -- `mqtt_disconnect(&mqtt); return 1;`
  abbrev pub give_up : Conn → Option Loop × Conn
  give_up c = (none, (mqtt_disconnect t c).1)

  -- After CONNECT: the state of the loop, or `none` for the result 1.
  unfoldable pub announce : Conn → Option Loop × Conn
  announce c =
      let (found, c₁) = publish_home_assistant_discovery c in
      let (announced, c₂) = publish_availability c₁ topics.online in
      if not found
      then give_up c₁
      else if not announced
      then give_up c₂
      else (some (begin_loop c₂), c₂)

  -- From the connection to the broker to the loop.
  unfoldable pub start_session : Conn → Option Loop × Conn
  start_session c =
      let (accepted, c₁) = mqtt_connect_with_will t c (record {
        client_id = topics.client_id;
        keepalive_sec = topics.keepalive_sec;
        will_topic = some topics.status_topic;
        will_payload = some topics.offline;
        will_retain = true;
      }) in
      if not accepted then give_up c₁ else announce c₁
