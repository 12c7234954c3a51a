-- ===== src/Bench/Driver.antt =====
-- benchmark_main.c: the order of its steps, up to its last line or the message before it stops. What is
-- printed is left out; the scheme is the interface scheme.h.
pub mod Passing
use assessing_pq_mqtt_m_tls.Common.{
  ℕ, zero, suc, ◌+◌, ◌-◌, ◌%◌, ℤ, pos, List, [], ◌∷◌, Option, some, none, Bool, true, false, not,
  ltb, ◌==◌, ◌&&◌, is_zero, if◌then◌else◌,
}
use assessing_pq_mqtt_m_tls.Memory.{Stage, primitive_sign, primitive_verify}
use assessing_pq_mqtt_m_tls.Double.{Double}
use assessing_pq_mqtt_m_tls.Bench.{Cpu, bench_run}

-- scheme.h, with the memory monitor's `runtime_memory_begin`, `runtime_memory_set_stage` and
-- `runtime_memory_end`. `scheme_do_sign` gives its code and what it leaves in `g_sig`, with its length.
pub record Scheme (cpu : Cpu) : Type 0 where
  pub scheme_init : cpu.Net → ℤ × cpu.Net
  pub scheme_sig_max_bytes : ℕ
  pub scheme_do_sign : List ℕ → cpu.Net → ℤ × List ℕ × cpu.Net
  pub scheme_do_verify : List ℕ → List ℕ → cpu.Net → ℤ × cpu.Net
  pub runtime_memory_begin : cpu.Net → cpu.Net
  pub set_stage : Stage → cpu.Net → cpu.Net
  pub runtime_memory_end : cpu.Net → cpu.Net

-- Where `main` ends.
pub data Ending : Type 0 where
  init_failed : Ending
  sig_buf_too_small : Ending
  signing_failed : (rc : ℤ) → Ending
  no_reference : Ending
  verification_failed : (rc : ℤ) → Ending
  finished : (ok bad : ℤ) → Ending

-- The test that is printed as PASS.
unfoldable pub passes : Ending → Bool
passes (finished ok bad) = is_zero ok && not (is_zero bad)
passes init_failed = false
passes sig_buf_too_small = false
passes (signing_failed rc) = false
passes no_reference = false
passes (verification_failed rc) = false

-- `g_sig[0] ^= 0x01`
unfoldable pub flip_first : List ℕ → List ℕ
flip_first [] = []
flip_first (b ∷ bs) = (if b % 2 == 0 then b + 1 else b - 1) ∷ bs

-- `g_msg` from an index on.
unfoldable pub g_msg_from : ℕ → ℕ → List ℕ
g_msg_from zero i = []
g_msg_from (suc n) i = i % 256 ∷ g_msg_from n (i + 1)

module _ (cpu : Cpu) where
  -- `g_sig`, up to `g_siglen`, with the rest of the board.
  pub record World : Type 0 where
    pub g_sig : List ℕ
    pub net : cpu.Net

  abbrev pub world_cpu : Cpu
  world_cpu = record {
    Net = World;
    exceptions = λ w. cpu.exceptions w.net;
    cvr = λ w. cpu.cvr w.net;
    time_us = λ w. cpu.time_us w.net;
    next = λ w. record w { net = cpu.next w.net };
  }

  module _ (d : Double) (scheme : Scheme cpu) (msg_len sig_buf iters warmup : ℕ) where
    open scheme use {
      scheme_init, scheme_sig_max_bytes, scheme_do_sign, scheme_do_verify, runtime_memory_begin,
      set_stage, runtime_memory_end,
    }

    abbrev pub g_msg : List ℕ
    g_msg = g_msg_from msg_len 0

    unfoldable pub sign_iter : World → ℤ × World
    sign_iter w =
        let (rc, sig, net) = scheme_do_sign g_msg w.net in (rc, record { g_sig = sig; net = net })

    unfoldable pub verify_iter : World → ℤ × World
    verify_iter w =
        let (rc, net) = scheme_do_verify w.g_sig g_msg w.net in (rc, record w { net = net })

    -- A benchmark in the brackets of the memory monitor.
    unfoldable pub run_measured : Stage → (World → ℤ × World) → World → ℤ × World
    run_measured stage fn w =
        let w₁ = record w { net = set_stage stage (runtime_memory_begin w.net) } in
        let (rc, stats, w₂) = bench_run world_cpu d fn iters warmup w₁ in
        (rc, record w₂ { net = runtime_memory_end w₂.net })

    unfoldable pub sanity_check : World → Ending
    sanity_check w =
        let (ok, w₁) = verify_iter w in
        let (bad, w₂) = verify_iter (record w₁ { g_sig = flip_first w₁.g_sig }) in finished ok bad

    unfoldable pub run_verify : World → Ending
    run_verify w =
        let (rc, w₁) = run_measured primitive_verify verify_iter w in
        if not (is_zero rc) then verification_failed rc else sanity_check w₁

    unfoldable pub run_sign : World → Ending
    run_sign w =
        let (rc, w₁) = run_measured primitive_sign sign_iter w in
        let (rc', w₂) = sign_iter w₁ in
        if not (is_zero rc)
        then signing_failed rc
        else if not (is_zero rc')
        then no_reference
        else run_verify w₂

    -- From `scheme_init` on.
    unfoldable pub benchmark_main : cpu.Net → Ending
    benchmark_main net =
        let (rc, net₁) = scheme_init net in
        if not (is_zero rc)
        then init_failed
        else if ltb sig_buf scheme_sig_max_bytes
        then sig_buf_too_small
        else run_sign (record { g_sig = []; net = net₁ })
