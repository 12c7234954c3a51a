-- ===== src/Main/Start.antt =====
-- The start of the firmware in mqtt_client/main.c: `wifi_connect` and `sync_time_with_sntp`. What is
-- printed is left out.
pub mod Ready
pub mod Sample
mod Tests
use Prim.Native.String.{String}
use assessing_pq_mqtt_m_tls.Common.{
  ℕ, zero, suc, ◌+◌, ◌*◌, ◌^◌, ◌%◌, ℤ, pos, negsuc, List, [], ◌∷◌, Option, some, none, Bool, true,
  false, not, ◌&&◌, ◌||◌, leb, ◌!=◌, if◌then◌else◌,
}
use assessing_pq_mqtt_m_tls.Plain.{is_ok}

-- What `cyw43_tcpip_link_status` gives.
pub data LinkStatus : Type 0 where
  link_down link_join link_noip link_up link_fail link_nonet link_badauth unknown : LinkStatus

unfoldable pub is_up : LinkStatus → Bool
is_up link_up = true
is_up link_down = false
is_up link_join = false
is_up link_noip = false
is_up link_fail = false
is_up link_nonet = false
is_up link_badauth = false
is_up unknown = false

-- Where the attempt is given up.
unfoldable pub is_refused : LinkStatus → Bool
is_refused link_badauth = true
is_refused link_fail = true
is_refused link_nonet = true
is_refused link_up = false
is_refused link_down = false
is_refused link_join = false
is_refused link_noip = false
is_refused unknown = false

-- The board, with its Wi-Fi and its clock. `wifi_connect_async` gives 0 or an error; `ip` is the address
-- of `netif_default`, `none` for NULL; `sleep_ms` goes on with it that many milliseconds; `answers` are
-- the seconds of the calls of `mqtt_sntp_set_system_time` in the next so many milliseconds.
pub record Board (Net : Type 0) : Type 0 where
  pub time_us : Net → ℕ
  pub sleep_ms : ℕ → Net → Net
  pub wifi_connect_async : Net → ℤ × Net
  pub link_status : Net → LinkStatus
  pub ip : Net → Option ℕ
  pub gettimeofday : Net → Option (ℕ × ℕ)
  pub settimeofday : ℕ → Net → Net
  pub answers : ℕ → Net → List ℕ
  pub sntp_enabled : Net → Bool
  pub sntp_stop : Net → Net
  pub sntp_setoperatingmode_poll : Net → Net
  pub sntp_setservername : ℕ → String → Net → Net
  pub sntp_init : Net → Net

-- NTP_SERVER_NAMES
abbrev pub ntp_server_names : List String
ntp_server_names = "time.cloudflare.com" ∷ "time.google.com" ∷ "pool.ntp.org" ∷ []

-- MIN_VALID_UNIX_TIME
abbrev pub min_valid_unix_time : ℕ
min_valid_unix_time = 1735689600

module _ (Net : Type 0) (b : Board Net) where
  open b use {
    time_us, sleep_ms, wifi_connect_async, link_status, ip, gettimeofday, settimeofday, answers,
    sntp_enabled, sntp_stop, sntp_setoperatingmode_poll, sntp_setservername, sntp_init,
  }

  unfoldable pub has_valid_ip : Net → Bool
  has_valid_ip net = elim (ip net) [ none ↦ false | some addr ↦ addr != 0 ]

  -- `make_timeout_time_ms`
  abbrev pub timeout_ms : ℕ → Net → ℕ
  timeout_ms ms net = time_us net + ms * 1000

  -- The loop of an attempt: whether the board is connected; `none` where the fuel runs out.
  unfoldable pub wifi_rounds : ℕ → ℕ → Net → Option (Bool × Net)
  wifi_rounds zero deadline net = none
  wifi_rounds (suc fuel) deadline net =
      let rest = wifi_rounds fuel deadline (sleep_ms 500 net) in
      if leb deadline (time_us net)
      then some (false, net)
      else if is_up (link_status net) && has_valid_ip net
      then some (true, net)
      else if is_refused (link_status net)
      then some (false, net)
      else rest

  -- A round for each half second of the minute, and two more.
  abbrev pub wifi_fuel : ℕ
  wifi_fuel = 122

  -- An attempt, up to the wait before the next one.
  unfoldable pub wifi_attempt : Net → Bool × Net
  wifi_attempt net =
      let (err, net₁) = wifi_connect_async net in
      if not (is_ok err)
      then (false, net₁)
      else elim (wifi_rounds wifi_fuel (timeout_ms 60000 net₁) net₁) [
        | none ↦ (false, net₁)
        | some r ↦ r
      ]

  -- With the attempts to go.
  unfoldable pub wifi_attempts : ℕ → Net → Bool × Net
  wifi_attempts zero net = (false, net)
  wifi_attempts (suc n) net =
      let (connected, net₁) = wifi_attempt net in
      let again = wifi_attempts n (sleep_ms 3000 net₁) in if connected then (true, net₁) else again

  unfoldable pub wifi_connect : Net → Bool × Net
  wifi_connect net = wifi_attempts 5 net

  unfoldable pub current_time_is_sane : Net → Bool
  current_time_is_sane net = elim (gettimeofday net) [
    | none ↦ false
    | some (sec, usec) ↦ leb min_valid_unix_time sec
  ]

  -- The static variable `sntp_time_set`, with the board.
  pub record Clock : Type 0 where
    pub sntp_time_set : Bool
    pub net : Net

  unfoldable pub mqtt_sntp_set_system_time : ℕ → Clock → Clock
  mqtt_sntp_set_system_time sec w = record { sntp_time_set = true; net = settimeofday sec w.net }

  unfoldable pub answer_all : List ℕ → Clock → Clock
  answer_all [] w = w
  answer_all (sec ∷ secs) w = answer_all secs (mqtt_sntp_set_system_time sec w)

  -- `sleep_ms(250)`, with lwIP in the background.
  abbrev pub rest_250 : Clock → Clock
  rest_250 w = answer_all (answers 250 w.net) (record w { net = sleep_ms 250 w.net })

  unfoldable pub sntp_rounds : ℕ → ℕ → Clock → Option (Bool × Clock)
  sntp_rounds zero deadline w = none
  sntp_rounds (suc fuel) deadline w =
      let rest = sntp_rounds fuel deadline (rest_250 w) in
      if leb deadline (time_us w.net)
      then some (false, w)
      else if w.sntp_time_set && current_time_is_sane w.net
      then some (true, w)
      else rest

  -- A round for each quarter of a second of the minute, and two more.
  abbrev pub sntp_fuel : ℕ
  sntp_fuel = 242

  -- The servers from an index on.
  unfoldable pub set_servers : ℕ → List String → Net → Net
  set_servers i [] net = net
  set_servers i (name ∷ names) net = set_servers (i + 1) names (sntp_setservername i name net)

  -- What is done under lwIP's lock.
  unfoldable pub restart_sntp : Net → Net
  restart_sntp net =
      let stopped = if sntp_enabled net then sntp_stop net else net in
      sntp_init (set_servers 0 ntp_server_names (sntp_setoperatingmode_poll stopped))

  unfoldable pub sync_time_with_sntp : Clock → Bool × Clock
  sync_time_with_sntp w =
      if current_time_is_sane w.net
      then (true, w)
      else let w₁ : Clock = record { sntp_time_set = false; net = restart_sntp w.net } in
        elim (sntp_rounds sntp_fuel (timeout_ms 60000 w₁.net) w₁) [
          | none ↦ (false, w₁)
          | some r ↦ r
        ]
