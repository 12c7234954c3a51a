-- ===== src/Ring/Tests.antt =====
-- The theorems on the receive ring at concrete inputs.
use assessing_pq_mqtt_m_tls.Common.{ℕ, ◌+◌, ◌-◌, ◌≡◌, List, [], ◌∷◌, ◌++◌, arith, length, take, ap}
use assessing_pq_mqtt_m_tls.Ring.{rx_buf_cap, empty_ring, rx_push, rx_pop}
use assessing_pq_mqtt_m_tls.Ring.Window.{IsValid, contents}
use assessing_pq_mqtt_m_tls.Ring.Bytes.{empty_ring-IsValid, rx_push_lem, rx_pop-rx_push}

abbrev two_bytes : List ℕ
two_bytes = 32 ∷ 2 ∷ []

rx_push_lem_example :
    IsValid (rx_push empty_ring two_bytes)
    × (contents (rx_push empty_ring two_bytes)
        ≡ contents empty_ring ++ take (rx_buf_cap - empty_ring.avail) two_bytes)
rx_push_lem_example = rx_push_lem empty_ring two_bytes empty_ring-IsValid.0

rx_pop-rx_push_example :
    (rx_pop (rx_push empty_ring two_bytes) (length (contents empty_ring) + 2)).0
    ≡ contents empty_ring ++ two_bytes
rx_pop-rx_push_example =
    rx_pop-rx_push empty_ring two_bytes empty_ring-IsValid.0
      (omega (arith, ap length empty_ring-IsValid.1))
