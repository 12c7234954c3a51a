-- ===== src/Main/Discovery/Tests.antt =====
-- The theorem on the documents of mqtt_client/main.c at a concrete measurement.
use assessing_pq_mqtt_m_tls.Common.{◌>>=◌, ◌≡◌, refl, some, true, arith, codes}
use assessing_pq_mqtt_m_tls.Main.Discovery.{session_topics, payload_text, published}
use assessing_pq_mqtt_m_tls.Main.Discovery.Json.{
  Value, text, number, after, may_end, is_number_from, read_json, member,
}
use assessing_pq_mqtt_m_tls.Main.Discovery.Agreement.{shown, discovery-Agrees}

discovery-Agrees_example :
    (doc state : Value) × (read_json (session_topics true).discovery_json ≡ some doc)
    × (member (codes "state_topic") doc ≡ some (text (session_topics true).state_topic))
    × (member (codes "availability_topic") doc ≡ some (text (session_topics true).status_topic))
    × (member (codes "payload_available") doc ≡ some (text (session_topics true).online))
    × (member (codes "payload_not_available") doc ≡ some (text (session_topics true).offline))
    × ((published true (codes "21.37") (codes "-4.5") >>= read_json) ≡ some state)
    × (shown doc state ≡ some (number (codes "-4.5")))
unfolding is_number_from after may_end
discovery-Agrees_example =
    discovery-Agrees true (codes "21.37") (codes "-4.5") refl refl (omega arith) (omega arith)

humidity_text :
    payload_text true (codes "21.37") (codes "58.2") ≡ codes "{\"humidity_percent\":58.2}"
unfolding payload_text
humidity_text = refl
