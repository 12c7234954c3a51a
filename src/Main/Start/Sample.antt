-- ===== src/Main/Start/Sample.antt =====
-- A concrete board for the tests of mqtt_client/main.c.
use assessing_pq_mqtt_m_tls.Common.{
  ℕ, ◌+◌, ◌*◌, refl, [], ◌∷◌, some, false, arith, pos, ltb, if◌then◌else◌,
}
use assessing_pq_mqtt_m_tls.Main.Start.{Board, link_join, link_up, Clock}
use assessing_pq_mqtt_m_tls.Main.Start.Ready.{Ticks}

-- The microseconds since boot, with the seconds of the time of day.
pub record Sky : Type 0 where
  pub us : ℕ
  pub day : ℕ

-- The link is up after two seconds; a time server answers in every rest.
abbrev pub board : Board Sky
board = record {
  time_us = λ n. n.us;
  sleep_ms = λ k n. record n { us = n.us + k * 1000 };
  wifi_connect_async = λ n. (pos 0, n);
  link_status = λ n. if ltb n.us 2000000 then link_join else link_up;
  ip = λ n. some 3232235777;
  gettimeofday = λ n. some (n.day, 0);
  settimeofday = λ sec n. record n { day = sec };
  answers = λ k n. 1764166325 ∷ [];
  sntp_enabled = λ n. false;
  sntp_stop = λ n. n;
  sntp_setoperatingmode_poll = λ n. n;
  sntp_setservername = λ i name n. n;
  sntp_init = λ n. n;
}

abbrev pub board_ticks : Ticks Sky board
board_ticks = record { sleeps = λ k n. omega arith; sets = λ sec n. refl }

abbrev pub dawn : Sky
dawn = record { us = 7; day = 0 }

abbrev pub unset : Clock Sky board
unset = record { sntp_time_set = false; net = dawn }
