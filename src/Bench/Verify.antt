-- ===== src/Bench/Verify.antt =====
-- snova_verify_main.c with primitive_memory_report.h: the known answer, the benchmark of its
-- verification, and the check of a tampered one. What is printed is left out.
pub mod Outcome
mod Tests
use assessing_pq_mqtt_m_tls.Common.{
  ℕ, ◌+◌, ℤ, pos, negsuc, List, [], ◌∷◌, ◌++◌, Option, Bool, true, false, not, ◌||◌, ◌==◌, ◌!=◌,
  is_zero, length, take, drop, codes, if◌then◌else◌,
}
use assessing_pq_mqtt_m_tls.Memory.{Stage, primitive_sign, primitive_verify}
use assessing_pq_mqtt_m_tls.Double.{Double}
use assessing_pq_mqtt_m_tls.Keys.Snova2454.{equal}
use assessing_pq_mqtt_m_tls.Bench.{Cpu, bench_run}
use assessing_pq_mqtt_m_tls.Bench.Adapter.{code_or_minus_one}
use assessing_pq_mqtt_m_tls.Bench.Driver.{flip_first}

-- STATIC_SIG, STATIC_MSG and CRYPTO_BYTES.
pub record Kat : Type 0 where
  pub static_sig : List ℕ
  pub static_msg : List ℕ
  pub crypto_bytes : ℕ

-- SNOVA's library with the static public key: in a build without STATIC_EXPANDED_PK_HEADER
-- `crypto_sign_open`, which gives its code and the message, and in one with it `shake256` and SNOVA's
-- `verify` on the signed message and the digest.
pub data Library : Type 0 where
  plain : (crypto_sign_open : List ℕ → ℤ × List ℕ) → Library
  expanded : (shake256 : List ℕ → List ℕ) (snova_verify : List ℕ → List ℕ → ℤ) → Library

-- `memcmp(g_recovered, STATIC_MSG, sizeof(STATIC_MSG)) == 0 ? 0 : -1`
abbrev pub compared : List ℕ → List ℕ → ℤ
compared recovered msg = if equal recovered msg then pos 0 else negsuc 0

unfoldable pub verify_once : Library → Kat → List ℕ → ℤ
verify_once (plain crypto_sign_open) k signed_message =
    let (rc, recovered) = crypto_sign_open signed_message in
    if not (is_zero rc) || length recovered != length k.static_msg
    then code_or_minus_one rc
    else compared recovered k.static_msg
verify_once (expanded shake256 snova_verify) k signed_message =
    let message = drop k.crypto_bytes signed_message in
    let rc = snova_verify signed_message (shake256 message) in
    if not (is_zero rc) then rc else compared (take (length k.static_msg) message) k.static_msg

-- Where `main` ends.
pub data Ending : Type 0 where
  kat_failed : (rc : ℤ) → Ending
  bench_failed : (rc : ℤ) → Ending
  tampered_accepted : Ending
  done : (tampered : ℤ) → Ending

unfoldable pub is_done : Ending → Bool
is_done (done tampered) = true
is_done (kat_failed rc) = false
is_done (bench_failed rc) = false
is_done tampered_accepted = false

-- `g_sm` with the rest of the board.
pub record Buffers (cpu : Cpu) : Type 0 where
  pub g_sm : List ℕ
  pub net : cpu.Net

abbrev pub bench_cpu : Cpu → Cpu
bench_cpu cpu = record {
  Net = Buffers cpu;
  exceptions = λ w. cpu.exceptions w.net;
  cvr = λ w. cpu.cvr w.net;
  time_us = λ w. cpu.time_us w.net;
  next = λ w. record w { net = cpu.next w.net };
}

-- The calls of the memory monitor, on the rest of the board.
pub record Monitoring (cpu : Cpu) : Type 0 where
  pub runtime_memory_begin : cpu.Net → cpu.Net
  pub set_stage : Stage → cpu.Net → cpu.Net
  pub runtime_memory_end : cpu.Net → cpu.Net

-- `operation[0] == 's'`
abbrev pub stage_of : List ℕ → Stage
stage_of [] = primitive_verify
stage_of (c ∷ operation) = if c == b's' then primitive_sign else primitive_verify

unfoldable pub primitive_memory_start : (cpu : Cpu) → Monitoring cpu → List ℕ → cpu.Net → cpu.Net
primitive_memory_start cpu monitor operation net =
    monitor.set_stage (stage_of operation) (monitor.runtime_memory_begin net)

-- `busy` is the time that a verification takes.
module _ (cpu : Cpu) (d : Double) (monitor : Monitoring cpu) (library : Library) (k : Kat)
    (busy : cpu.Net → cpu.Net) (iters warmup : ℕ) where
  unfoldable pub verify_iter : Buffers cpu → ℤ × Buffers cpu
  verify_iter w = (verify_once library k w.g_sm, record w { net = busy w.net })

  -- The end of `main`, from the tampering on.
  unfoldable pub check_tampered : Buffers cpu → Ending
  check_tampered w =
      let (rc, w') = verify_iter (record w { g_sm = flip_first w.g_sm }) in
      if is_zero rc then tampered_accepted else done rc

  unfoldable pub run_benchmark : Buffers cpu → Ending
  run_benchmark w =
      let started = primitive_memory_start cpu monitor (codes "verify") w.net in
      let (rc, stats, w') =
        bench_run (bench_cpu cpu) d verify_iter iters warmup (record w { net = started }) in
      if not (is_zero rc)
      then bench_failed rc
      else check_tampered (record w' { net = monitor.runtime_memory_end w'.net })

  -- From the two calls of `memcpy` on.
  unfoldable pub verify_main : cpu.Net → Ending
  verify_main net =
      let w : Buffers cpu = record { g_sm = k.static_sig ++ k.static_msg; net = net } in
      let (rc, w') = verify_iter w in if not (is_zero rc) then kat_failed rc else run_benchmark w'
