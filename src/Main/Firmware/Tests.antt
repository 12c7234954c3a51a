-- ===== src/Main/Firmware/Tests.antt =====
-- The theorem on the start of `main` of mqtt_client/main.c at a concrete board.
use assessing_pq_mqtt_m_tls.Common.{pos, true, false}
use assessing_pq_mqtt_m_tls.Main.Start.Sample.{Sky, board, dawn}
use assessing_pq_mqtt_m_tls.Main.Firmware.{Build, Chip, prepare}
use assessing_pq_mqtt_m_tls.Main.Firmware.Ready.{Prepared, prepare-Prepared}

abbrev chip : Chip Sky
chip = record { init_with_country = λ n. (pos 0, n); enable_sta_mode = λ n. n; deinit = λ n. n }

abbrev build : Build
build = record {
  bench = true;
  plain = false;
  ca_cert_len = 3980;
  client_cert_len = 4021;
  client_key_len = 2590;
}

prepare-Prepared_example : Prepared Sky board chip build dawn (prepare Sky board chip build dawn)
prepare-Prepared_example = prepare-Prepared Sky board chip build dawn
