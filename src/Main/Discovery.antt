-- ===== src/Main/Discovery.antt =====
-- The documents that mqtt_client/main.c publishes, with the macros of mqtt_client/config.h, for its two
-- boards: `pico2w` says that MQTT_BOARD_PICO2W is defined.
pub mod Json
pub mod Agreement
mod Tests
use assessing_pq_mqtt_m_tls.Common.{
  ℕ, zero, suc, ◌+◌, ◌-◌, List, [], ◌∷◌, ◌++◌, Option, some, none, Bool, true, false, length, take,
  ltb, codes, if◌then◌else◌,
}
use assessing_pq_mqtt_m_tls.Transport.{Transport}
use assessing_pq_mqtt_m_tls.Main.Session.{Topics, Sensors}

module _ (pico2w : Bool) where
  abbrev pub device_id : List ℕ
  device_id = if pico2w then codes "pico2w_pq_001" else codes "picow_pq_001"

  abbrev pub device_name : List ℕ
  device_name =
      if pico2w then codes "Pico 2 W PQ Humidity Sensor" else codes "Pico W PQ Temperature Sensor"

  abbrev pub device_model : List ℕ
  device_model = if pico2w then codes "Pico 2 W" else codes "Pico W"

  abbrev pub state_topic : List ℕ
  state_topic = if pico2w then codes "pico2w_pq/state" else codes "picow_pq/state"

  abbrev pub status_topic : List ℕ
  status_topic = if pico2w then codes "pico2w_pq/status" else codes "picow_pq/status"

  -- The component, which differs between the boards.
  abbrev pub component_json : List ℕ
  component_json =
      if pico2w
      then codes "\"humidity\":{\"p\":\"sensor\",\"unique_id\":\""
        ++ (device_id
            ++ (codes "_humidity\",\"device_class\":\"humidity\",\"state_class\":\"measurement\","
                ++ (codes "\"unit_of_measurement\":\"%\","
                    ++ codes "\"value_template\":\"{{ value_json.humidity_percent }}\"}")))
      else codes "\"temperature\":{\"p\":\"sensor\",\"unique_id\":\""
        ++ (device_id
            ++ (codes "_temperature\",\"device_class\":\"temperature\","
                ++ (codes "\"state_class\":\"measurement\",\"unit_of_measurement\":\"\\u00b0C\","
                    ++ codes "\"value_template\":\"{{ value_json.temperature_c }}\"}")))

  unfoldable pub home_assistant_discovery_json : List ℕ
  home_assistant_discovery_json =
      codes "{\"dev\":{\"ids\":\""
      ++ (device_id
          ++ (codes "\",\"name\":\""
              ++ (device_name
                  ++ (codes "\",\"mf\":\"Raspberry Pi\",\"mdl\":\""
                      ++ (device_model
                          ++ (codes "\",\"sw\":\"pq-mqtt-1.0\"},"
                              ++ (codes "\"o\":{\"name\":\"pico-pqc-mqtt\",\"sw\":\"1.0\"},"
                                  ++ (codes "\"state_topic\":\""
                                      ++ (state_topic
                                          ++ (codes "\",\"availability_topic\":\""
                                              ++ (status_topic
                                                  ++ (codes "\",\"payload_available\":\"online\","
                                                      ++ (codes
                                                            "\"payload_not_available\":\"offline\","
                                                          ++ (codes "\"qos\":0,\"cmps\":{"
                                                            ++ (component_json
                                                            ++ codes "}}")))))))))))))))

  unfoldable pub session_topics : Topics
  session_topics = record {
    client_id = if pico2w then codes "pico2w-pq" else codes "picow-pq";
    keepalive_sec = 60;
    state_topic = state_topic;
    status_topic = status_topic;
    discovery_topic =
        if pico2w
        then codes "homeassistant/device/pico2w_pq/config"
        else codes "homeassistant/device/picow_pq/config";
    discovery_json = home_assistant_discovery_json;
    online = codes "online";
    offline = codes "offline";
  }

  -- What `snprintf` is given; a number is the text that its conversion prints.
  unfoldable pub payload_text : List ℕ → List ℕ → List ℕ
  payload_text temp_c humidity_pct =
      if pico2w
      then codes "{\"humidity_percent\":" ++ (humidity_pct ++ codes "}")
      else codes "{\"temperature_c\":" ++ (temp_c ++ codes "}")

  -- The result of `snprintf` and the characters that it leaves in the buffer.
  unfoldable pub build_payload : ℕ → List ℕ → List ℕ → ℕ × List ℕ
  build_payload buf_len temp_c humidity_pct =
      let whole = payload_text temp_c humidity_pct in (length whole, take (buf_len - 1) whole)

  -- The bytes of `payload` that the loop of `main` publishes, or none.
  unfoldable pub published : List ℕ → List ℕ → Option (List ℕ)
  published temp_c humidity_pct =
      let (plen, payload) = build_payload 128 temp_c humidity_pct in
      if ltb 0 plen then some (take plen payload) else none

  -- The board as the publish loop has it, with the two readings, in the text that they are printed in.
  abbrev pub board_sensors :
      (t : Transport)
      → (t.Conn → ℕ)
      → (ℕ → t.Conn → t.Conn)
      → (t.Conn → List ℕ × t.Conn)
      → (t.Conn → List ℕ × t.Conn)
      → Sensors t
  board_sensors t ms sleep_ms read_temperature_c read_humidity_percent = record {
    ms = ms;
    sleep_ms = sleep_ms;
    build_payload = λ c.
        let (temp, c₁) = read_temperature_c c in
        let (humidity, c₂) = read_humidity_percent c₁ in (published temp humidity, c₂);
  }
