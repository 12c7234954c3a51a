-- ===== src/Plain/Tests.antt =====
-- The theorems on the plain transport at a concrete network.
use assessing_pq_mqtt_m_tls.Common.{
  ℕ, ◌+◌, ◌≡◌, refl, sym, ◌∙◌, List, [], ◌∷◌, ◌++◌, append-nil, pos, some, true, false, arith,
  length, ap,
}
use assessing_pq_mqtt_m_tls.Ring.{empty_ring}
use assessing_pq_mqtt_m_tls.Ring.Bytes.{empty_ring-IsValid}
use assessing_pq_mqtt_m_tls.Plain.{
  TlsConn, Event, arrived, Lwip, wrap32, read_rounds, read_fuel, tls_read, delivered, delivered_all,
  joined,
}
use assessing_pq_mqtt_m_tls.Plain.Delivery.{NetLaws}
use assessing_pq_mqtt_m_tls.Plain.Reading.{HasRoom, read_rounds_total}
use assessing_pq_mqtt_m_tls.Mqtt.Client.{mqtt_publish_qos0}
use assessing_pq_mqtt_m_tls.Plain.Publishing.{mqtt_publish_qos0_succeeds}
use assessing_pq_mqtt_m_tls.Plain.Stream.{plain_transport, Receives, tls_read-Receives}

-- A peer whose segments come one in a millisecond, and which takes everything.
record Peer : Type 0 where
  segments : List (List ℕ)
  taken : List ℕ
  clock : ℕ

abbrev next_segment : Peer → List Event × Peer
next_segment p = elim p.segments [
  | [] ↦ ([], record p { clock = p.clock + 1 })
  | xs ∷ later ↦
      (arrived (some (xs ∷ [])) (pos 0) ∷ [], record p { segments = later; clock = p.clock + 1 })
]

abbrev network : Lwip
network = record {
  Net = Peer;
  ms = λ p. p.clock;
  time_us = λ p. p.clock + 0;
  sleep_ms = next_segment;
  tcp_write = λ p xs. (pos 0, record p { taken = p.taken ++ xs });
  tcp_close = λ p. p;
  set_stage = λ stage p. p;
}

next_segment-pending :
    (segments : List (List ℕ)) (taken : List ℕ) (clock : ℕ)
    → let p : Peer = record { segments = segments; taken = taken; clock = clock } in
      (joined segments ≡ delivered_all (next_segment p).0 ++ joined (next_segment p).1.segments)
      × ((next_segment p).1.taken ≡ taken)
      × ((next_segment p).1.clock ≡ clock + 1)
unfolding delivered_all delivered joined
next_segment-pending [] taken clock = (refl, refl, refl)
next_segment-pending (xs ∷ later) taken clock = (
  ap (λ (ys : List ℕ). ys ++ joined later) (sym (append-nil (xs ++ []) ∙ append-nil xs)),
  refl,
  refl,
)

abbrev network_laws : NetLaws network
network_laws = record {
  pending = λ p. joined p.segments;
  sent = λ p. p.taken;
  sleep-pending = λ p. (next_segment-pending p.segments p.taken p.clock).0;
  sleep-sent = λ p. (next_segment-pending p.segments p.taken p.clock).1;
  sleep_later = λ p. omega (arith, (next_segment-pending p.segments p.taken p.clock).2);
  sleep_soon = λ p. omega (arith, (next_segment-pending p.segments p.taken p.clock).2);
  write-pending = λ p xs. refl;
  write-sent = λ p xs e. refl;
}

abbrev fresh : TlsConn
fresh = record {
  pcb = true;
  rx = empty_ring;
  tcp_connected = true;
  tcp_error = false;
  remote_closed = false;
  io_timed_out = false;
  tcp_error_code = pos 0;
  dns_us = 0;
  tcp_connect_us = 0;
  total_rx_bytes = 0;
  total_tx_bytes = 0;
}

-- A CONNACK in two segments.
abbrev two_segments : Peer
two_segments = record { segments = (32 ∷ 2 ∷ []) ∷ (0 ∷ 0 ∷ []) ∷ []; taken = []; clock = 7 }

fresh-HasRoom : HasRoom network network_laws fresh two_segments
unfolding joined empty_ring
fresh-HasRoom = record {
  valid = empty_ring-IsValid.0;
  room = omega (arith, ap length empty_ring-IsValid.1);
}

tls_read-Receives_example :
    Receives network network_laws
      (record { conn = some fresh; net = two_segments })
      4
      (tls_read network (record { conn = some fresh; net = two_segments }) 4)
tls_read-Receives_example =
    tls_read-Receives network network_laws (some fresh) two_segments 4 fresh-HasRoom

read_rounds_total_example :
    (r : List ℕ × TlsConn × Peer) × (read_rounds network
        (read_fuel network)
        4
        (wrap32 (wrap32 7 + 15000))
        fresh
        two_segments
      ≡ some r)
read_rounds_total_example =
    read_rounds_total network network_laws 4 fresh two_segments (omega arith)

mqtt_publish_qos0_succeeds_example :
    (mqtt_publish_qos0
      (plain_transport network)
      (record { conn = some fresh; net = two_segments })
      (b't' ∷ [])
      (1 ∷ [])
      true).0
    ≡ true
mqtt_publish_qos0_succeeds_example =
    mqtt_publish_qos0_succeeds network (λ n xs. refl) fresh two_segments (b't' ∷ []) (1 ∷ []) true
      (record { there = refl; unbroken = refl }) (omega arith)
