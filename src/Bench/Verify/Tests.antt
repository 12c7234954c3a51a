-- ===== src/Bench/Verify/Tests.antt =====
-- The theorem on snova_verify_main.c at a concrete library.
use assessing_pq_mqtt_m_tls.Common.{
  ℕ, ◌+◌, ◌-◌, ◌/◌, ◌%◌, ◌^◌, ◌<◌, ◌≡◌, refl, ◌↔◌, ℤ, pos, negsuc, List, [], ◌∷◌, true, ◌==◌,
  if◌then◌else◌,
}
use assessing_pq_mqtt_m_tls.Double.Sample.{whole}
use assessing_pq_mqtt_m_tls.Bench.{systick_reload, Cpu}
use assessing_pq_mqtt_m_tls.Bench.Driver.{flip_first}
use assessing_pq_mqtt_m_tls.Bench.Verify.{Kat, plain, is_done, Monitoring, verify_main}
use assessing_pq_mqtt_m_tls.Bench.Verify.Outcome.{Accepts, verify_main-done}

-- A processor that is its ticks.
abbrev clock : Cpu
clock = record {
  Net = ℕ;
  exceptions = λ n. n / 2 ^ 24;
  cvr = λ n. systick_reload - n % 2 ^ 24;
  time_us = λ n. n / 133;
  next = λ n. n + 5;
}

abbrev no_monitor : Monitoring clock
no_monitor = record {
  runtime_memory_begin = λ n. n;
  set_stage = λ stage n. n;
  runtime_memory_end = λ n. n;
}

-- Its signatures are the one byte 90.
abbrev open_toy : List ℕ → ℤ × List ℕ
open_toy [] = (negsuc 0, [])
open_toy (b ∷ msg) = if b == 90 then (pos 0, msg) else (negsuc 3, [])

abbrev toy_kat : Kat
toy_kat = record { static_sig = 90 ∷ []; static_msg = 1 ∷ 2 ∷ 3 ∷ []; crypto_bytes = 1 }

verify_main-done_example :
    (is_done (verify_main clock whole no_monitor (plain open_toy) toy_kat (λ n. n + 900) 20 2 7)
      ≡ true)
    ↔ (Accepts (plain open_toy) toy_kat (90 ∷ 1 ∷ 2 ∷ 3 ∷ [])
        × (0 < 20)
        × ¬ Accepts (plain open_toy) toy_kat (flip_first (90 ∷ 1 ∷ 2 ∷ 3 ∷ [])))
verify_main-done_example =
    verify_main-done clock whole no_monitor (plain open_toy) toy_kat (λ n. n + 900) 20 2 7

-- The right side holds there.
toy-Accepts :
    Accepts (plain open_toy) toy_kat (90 ∷ 1 ∷ 2 ∷ 3 ∷ [])
    × (¬ Accepts (plain open_toy) toy_kat (flip_first (90 ∷ 1 ∷ 2 ∷ 3 ∷ [])))
unfolding flip_first
toy-Accepts = ((refl, refl), λ a. cc (a.0))
