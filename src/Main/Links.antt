-- ===== src/Main/Links.antt =====
-- The two transports that the firmware of mqtt_client/main.c is built with: `bench_connect`.
use assessing_pq_mqtt_m_tls.Common.{ℕ, List, Option, some, none, sym, arith}
use assessing_pq_mqtt_m_tls.Memory.{Stage}
use assessing_pq_mqtt_m_tls.Transport.{no_timings, no_bandwidth, AttemptResult}
use assessing_pq_mqtt_m_tls.Plain
use assessing_pq_mqtt_m_tls.Plain.{Lwip}
use assessing_pq_mqtt_m_tls.Plain.Stream.{plain_transport}
use assessing_pq_mqtt_m_tls.Plain.Connect
use assessing_pq_mqtt_m_tls.Plain.Connect.{Dialer, tls_connect_plain_attempt}
use assessing_pq_mqtt_m_tls.Plain.Connect.Outcome as PlainOutcome
use assessing_pq_mqtt_m_tls.Plain.Connect.Outcome.{tls_connect_plain_attempt-Reported}
use assessing_pq_mqtt_m_tls.Tls
use assessing_pq_mqtt_m_tls.Tls.{Wolfssl, tls_transport}
use assessing_pq_mqtt_m_tls.Tls.Waiting.{Timer}
use assessing_pq_mqtt_m_tls.Tls.Connect.{Credentials, tls_connect_attempt}
use assessing_pq_mqtt_m_tls.Tls.Connect.Outcome as TlsOutcome
use assessing_pq_mqtt_m_tls.Tls.Connect.Outcome.{Splits, is_connecting}
use assessing_pq_mqtt_m_tls.Tls.Connect.Outcome.Phases.{tls_connect_attempt-Reported}
use assessing_pq_mqtt_m_tls.Main.{Link, Reports}

module _ (lwip : Lwip) (dialer : Dialer lwip) (host : List ℕ) (port : ℕ) where
  -- The connection with the network that it runs in.
  unfoldable pub plain_world :
      Option Plain.TlsConn × AttemptResult × lwip.Net
      → Option (Plain.World lwip) × AttemptResult × lwip.Net
  plain_world (none, a, net) = (none, a, net)
  plain_world (some c, a, net) = (some (record { conn = some c; net = net }), a, net)

  abbrev pub plain_link : Link (plain_transport lwip)
  plain_link = record {
    Net = lwip.Net;
    connect = λ net. plain_world (tls_connect_plain_attempt lwip dialer host port net);
    net_of = λ w. w.net;
    enter_mqtt = λ w. record w { net = lwip.set_stage Stage.mqtt w.net };
    tls_get_timings =
        λ w. elim w.conn [ none ↦ no_timings | some c ↦ Plain.Connect.tls_get_timings c ];
    tls_get_bandwidth =
        λ w. elim w.conn [ none ↦ no_bandwidth | some c ↦ Plain.Connect.tls_get_bandwidth c ];
    tls_io_timed_out = λ w. Plain.tls_io_timed_out lwip w;
  }

  plain_world-Reports :
      (why : AttemptResult → Type 0) (r : Option Plain.TlsConn × AttemptResult × lwip.Net)
      → PlainOutcome.Reported lwip dialer why r
      → Reports (plain_transport lwip) plain_link (plain_world r)
  unfolding plain_world
  plain_world-Reports why (none, a, net) f =
      (λ e. ground (arith, e, f.phase), λ e. ground (arith, e, f.phase), f.late_code)
  plain_world-Reports why (some c, a, net) o = (o.clean, o.code, o.in_time, sym o.timings)

  pub plain_link-Reports :
      (net : lwip.Net) → Reports (plain_transport lwip) plain_link (plain_link.connect net)
  plain_link-Reports net =
      plain_world-Reports _ _ (tls_connect_plain_attempt-Reported lwip dialer host port net).1

  module _ (tls : Wolfssl lwip) (cred : Credentials) where
    unfoldable pub tls_world :
        Option (Tls.TlsConn lwip tls) × AttemptResult × lwip.Net
        → Option (Tls.World lwip tls) × AttemptResult × lwip.Net
    tls_world (none, a, net) = (none, a, net)
    tls_world (some c, a, net) = (some (record { conn = some c; net = net }), a, net)

    abbrev pub tls_link : Link (tls_transport lwip tls)
    tls_link = record {
      Net = lwip.Net;
      connect = λ net. tls_world (tls_connect_attempt lwip dialer tls host port cred net);
      net_of = λ w. w.net;
      enter_mqtt = λ w. record w { net = lwip.set_stage Stage.mqtt w.net };
      tls_get_timings =
          λ w. elim w.conn [ none ↦ no_timings | some c ↦ Tls.tls_get_timings lwip tls c ];
      tls_get_bandwidth =
          λ w. elim w.conn [ none ↦ no_bandwidth | some c ↦ Tls.tls_get_bandwidth lwip tls c ];
      tls_io_timed_out = λ w. Tls.tls_io_timed_out lwip tls w;
    }

    module _ (timer : Timer lwip tls) where
      tls_world-Reports :
          (why : AttemptResult → Type 0) (good : Tls.TlsConn lwip tls → Type 0)
          (r : Option (Tls.TlsConn lwip tls) × AttemptResult × lwip.Net)
          → TlsOutcome.Reported lwip dialer tls timer why good r
          → Reports (tls_transport lwip tls) tls_link (tls_world r)
      unfolding tls_world is_connecting
      tls_world-Reports why good (none, a, net) f = (
        λ e. absurd (ground (arith, rw e at f.phase)),
        λ e. absurd (ground (arith, rw e at f.phase)),
        f.late_code,
      )
      tls_world-Reports why good (some c, a, net) (o, g) =
          (o.clean, o.code, o.in_time, sym o.timings)

      tls_world-Splits :
          (why : AttemptResult → Type 0) (good : Tls.TlsConn lwip tls → Type 0)
          (r : Option (Tls.TlsConn lwip tls) × AttemptResult × lwip.Net)
          → TlsOutcome.Reported lwip dialer tls timer why good r
          → Splits (tls_world r).1.timings
      unfolding tls_world
      tls_world-Splits why good (none, a, net) f = f.splits
      tls_world-Splits why good (some c, a, net) (o, g) = o.splits

      pub tls_link-Reports :
          (net : lwip.Net) → Reports (tls_transport lwip tls) tls_link (tls_link.connect net)
      tls_link-Reports net =
          tls_world-Reports _ _ _
            (tls_connect_attempt-Reported lwip dialer tls timer host port cred net)

      pub tls_link-Splits : (net : lwip.Net) → Splits (tls_link.connect net).1.timings
      tls_link-Splits net =
          tls_world-Splits _ _ _
            (tls_connect_attempt-Reported lwip dialer tls timer host port cred net)
