-- ===== src/Main/Session/Tests.antt =====
-- The theorem on the publish loop of mqtt_client/main.c at a concrete board.
use assessing_pq_mqtt_m_tls.Common.{
  ℕ, ◌+◌, ◌≤◌, List, [], ◌∷◌, Option, some, none, false, arith, length,
}
use assessing_pq_mqtt_m_tls.Transport.{
  Transport, wrote, received, no_timings, no_bandwidth, new_result,
}
use assessing_pq_mqtt_m_tls.Mqtt.Client.{mqtt_publish}
use assessing_pq_mqtt_m_tls.Mqtt.Client.Keeping.{mqtt_publish_qos0-Holds}
use assessing_pq_mqtt_m_tls.Main.{Link}
use assessing_pq_mqtt_m_tls.Main.Session.{Topics, Sensors, rounds, begin_loop, publish_payload}
use assessing_pq_mqtt_m_tls.Main.Session.Pace.{Forward, Spaced, rounds-Spaced}

-- A connection that is its clock; every write takes three milliseconds.
abbrev transport : Transport
transport = record {
  Conn = ℕ;
  tls_write = λ c buf. (wrote (length buf), c + 3);
  tls_read = λ c n. (received (32 ∷ []), c + 1);
  tls_close = λ c. c;
  time_us_64 = λ c. c;
}

abbrev link : Link transport
link = record {
  Net = ℕ;
  connect = λ n. (some n, new_result, n);
  net_of = λ c. c;
  enter_mqtt = λ c. c;
  tls_get_timings = λ c. no_timings;
  tls_get_bandwidth = λ c. no_bandwidth;
  tls_io_timed_out = λ c. false;
}

abbrev sensors : Sensors transport
sensors = record {
  ms = λ c. c;
  sleep_ms = λ k c. c + k;
  build_payload = λ c. (some (50 ∷ 49 ∷ []), c);
}

abbrev topics : Topics
topics = record {
  client_id = b'c' ∷ [];
  keepalive_sec = 60;
  state_topic = b's' ∷ [];
  status_topic = b'a' ∷ [];
  discovery_topic = b'd' ∷ [];
  discovery_json = b'j' ∷ [];
  online = b'1' ∷ [];
  offline = b'0' ∷ [];
}

-- What writes keep, a publication keeps.
later_publish :
    (now : ℕ) (p : Option (List ℕ)) (c : ℕ)
    → now ≤ c
    → now ≤ (publish_payload transport link sensors topics p c).1
unfolding publish_payload mqtt_publish
later_publish now none c h = h
later_publish now (some payload) c h =
    mqtt_publish_qos0-Holds transport (λ c. now ≤ c) (λ c buf g. omega (arith, g))
      (λ c n g. omega (arith, g)) c topics.state_topic payload false h

abbrev clock_forward : Forward transport link sensors topics
clock_forward = record {
  sleeps = λ k c. omega arith;
  senses = λ c. omega arith;
  publishes = λ p c. later_publish c p c (omega arith);
}

rounds-Spaced_example :
    Spaced 5000
      (rounds transport link sensors topics 2000 (begin_loop transport link sensors topics 9)).times
rounds-Spaced_example = rounds-Spaced transport link sensors topics clock_forward 2000 9
