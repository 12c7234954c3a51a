-- ===== src/Main/Start/Tests.antt =====
-- The theorems on the start of the firmware of mqtt_client/main.c at a concrete board.
use assessing_pq_mqtt_m_tls.Common.{◌+◌, ◌≤◌, ◌≡◌, refl, some, Bool, true, false}
use assessing_pq_mqtt_m_tls.Main.Start.{
  Clock, timeout_ms, wifi_rounds, wifi_fuel, sntp_rounds, sntp_fuel, wifi_connect,
  sync_time_with_sntp, wifi_attempts, wifi_attempt, is_up, is_refused, has_valid_ip, restart_sntp,
  set_servers, answer_all, mqtt_sntp_set_system_time, current_time_is_sane,
}
use assessing_pq_mqtt_m_tls.Main.Start.Ready.{
  IsOnline, IsOnTime, start-Succeeds, start_rounds_total,
}
use assessing_pq_mqtt_m_tls.Main.Start.Sample.{Sky, board, board_ticks, dawn, unset}

wifi_connect_test : (wifi_connect Sky board dawn).0 ≡ true
unfolding wifi_connect wifi_attempts wifi_attempt wifi_rounds is_up is_refused has_valid_ip
wifi_connect_test = refl

sync_time_with_sntp_test : (sync_time_with_sntp Sky board unset).0 ≡ true
unfolding sync_time_with_sntp restart_sntp set_servers sntp_rounds answer_all
    mqtt_sntp_set_system_time current_time_is_sane
sync_time_with_sntp_test = refl

start-Succeeds_example :
    let r = wifi_connect Sky board dawn in
    let q = sync_time_with_sntp Sky board unset in
    (r.0 ≡ true → IsOnline Sky board r.1)
    × (IsOnTime Sky board unset.net → q ≡ (true, unset))
    × (q.0 ≡ true → IsOnTime Sky board q.1.net)
    × (q.0 ≡ false
        → board.time_us (restart_sntp Sky board unset.net) + 60000000 ≤ board.time_us q.1.net)
start-Succeeds_example = start-Succeeds Sky board board_ticks dawn unset

start_rounds_total_example :
    ((r : Bool × Sky) × (wifi_rounds Sky board
          (wifi_fuel Sky board)
          (timeout_ms Sky board 60000 dawn)
          dawn
        ≡ some r))
    × ((r : Bool × Clock Sky board) × (sntp_rounds Sky board
            (sntp_fuel Sky board)
            (timeout_ms Sky board 60000 dawn)
            unset
          ≡ some r))
start_rounds_total_example = start_rounds_total Sky board board_ticks dawn unset
