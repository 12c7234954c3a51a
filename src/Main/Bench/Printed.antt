-- ===== src/Main/Bench/Printed.antt =====
-- The lines of statistics that `run_handshake_benchmark` of mqtt_client/main.c prints at its end.
use assessing_pq_mqtt_m_tls.Common.{Option, take}
use assessing_pq_mqtt_m_tls.Transport.{Transport}
use assessing_pq_mqtt_m_tls.Double.{Double}
use assessing_pq_mqtt_m_tls.Main.{Link, Device, Config}
use assessing_pq_mqtt_m_tls.Main.Bench.{Metric, Tally}
use assessing_pq_mqtt_m_tls.Main.Bench.Stats.{StatRow, print_stat_row}

module _ (t : Transport) (l : Link t) (d : Device l.Net) (cfg : Config) (f : Double) where
  -- `print_stat_row` of an array and the number of successes.
  unfoldable pub summary : Tally t l d cfg f → Metric t l d cfg f → Option (StatRow f)
  summary s m = print_stat_row f (take s.successes (s.samples m)) s.successes
