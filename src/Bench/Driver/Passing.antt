-- ===== src/Bench/Driver/Passing.antt =====
-- When benchmark_main.c reaches its last line with PASS.
use assessing_pq_mqtt_m_tls.Common.{
  ℕ, zero, suc, ◌<◌, ◌≤◌, ◌≡◌, refl, ℤ, List, Option, some, none, true, false, ltb, ◌==◌, is_zero,
  arith, Bool-cases, inl, inr, ◌!=◌, subst, some-injective, none-ne-some,
}
use assessing_pq_mqtt_m_tls.Memory.{primitive_sign, primitive_verify}
use assessing_pq_mqtt_m_tls.Double.{Double}
use assessing_pq_mqtt_m_tls.Bench.{
  Cpu, wraps_after, found_or, cycle_rounds, bench_cycles, warm_up, measure_call, measure_calls,
  capped, report, bench_run,
}
use assessing_pq_mqtt_m_tls.Bench.Driver.{
  Scheme, passes, flip_first, World, world_cpu, g_msg, sign_iter, verify_iter, run_measured,
  sanity_check, run_verify, run_sign, benchmark_main,
}

module _ (cpu : Cpu) (d : Double) (fn : cpu.Net → ℤ × cpu.Net) (Holds : cpu.Net → Type 0) where
  -- An operation that succeeds and keeps something that time does not change.
  pub record Keeps : Type 0 where
    pub waits : (n : cpu.Net) → Holds n → Holds (cpu.next n)
    pub works : (n : cpu.Net) → Holds n → is_zero (fn n).0 ≡ true
    pub keeps : (n : cpu.Net) → Holds n → Holds (fn n).1

  cycle_rounds-Holds :
      Keeps
      → (fuel : ℕ) (n : cpu.Net) (r : ℕ × cpu.Net) → Holds n
      → cycle_rounds cpu fuel n ≡ some r
      → Holds r.1
  unfolding cycle_rounds
  cycle_rounds-Holds k zero n r h e = absurd (none-ne-some _ e)
  cycle_rounds-Holds k (suc fuel) n r h e =
      let n₁ = cpu.next n in
      let n₂ = cpu.next n₁ in
      let h₂ = k.waits n₁ (k.waits n h) in
      elim (Bool-cases (wraps_after (cpu.exceptions n) != wraps_after (cpu.exceptions n₂))) [
        | inl again ↦ cycle_rounds-Holds k fuel _ r (k.waits n₂ h₂) (rw again at e)
        | inr steady ↦ subst (λ q. Holds q.1) (some-injective _ _ (rw steady at e)) h₂
      ]

  found_or-Holds :
      (n : cpu.Net) (o : Option (ℕ × cpu.Net))
      → Holds n
      → ((r : ℕ × cpu.Net) → o ≡ some r → Holds r.1)
      → Holds (found_or cpu n o).1
  unfolding found_or
  found_or-Holds n none h g = h
  found_or-Holds n (some r) h g = g r refl

  bench_cycles-Holds : Keeps → (n : cpu.Net) → Holds n → Holds (bench_cycles cpu n).1
  unfolding bench_cycles
  bench_cycles-Holds k n h = found_or-Holds n _ h (λ r e. cycle_rounds-Holds k 2 n r h e)

  warm_up-Holds :
      Keeps
      → (n : ℕ) (net : cpu.Net) → Holds net
      → (is_zero (warm_up cpu d fn n net).0 ≡ true) × Holds (warm_up cpu d fn n net).1
  unfolding warm_up
  warm_up-Holds k zero net h = (refl, h)
  warm_up-Holds k (suc n) net h = simp (k.works net h) (warm_up-Holds k n _ (k.keeps net h))

  measure_call-Holds :
      Keeps
      → (net : cpu.Net) → Holds net
      → (is_zero (measure_call cpu d fn net).0 ≡ true) × Holds (measure_call cpu d fn net).3
  unfolding measure_call
  measure_call-Holds k net h =
      let h₂ = k.waits _ (bench_cycles-Holds k net h) in
      (k.works _ h₂, bench_cycles-Holds k _ (k.waits _ (k.keeps _ h₂)))

  measure_calls-Holds :
      Keeps
      → (n : ℕ) (net : cpu.Net) → Holds net
      → let r = measure_calls cpu d fn n net in (is_zero r.0 ≡ true) × Holds r.3
  unfolding measure_calls
  measure_calls-Holds k zero net h = (refl, h)
  measure_calls-Holds k (suc n) net h =
      let c = measure_call-Holds k net h in simp c.0 (measure_calls-Holds k n _ c.1)

  pub bench_run-Holds :
      Keeps
      → (iters warmup : ℕ) (net : cpu.Net) → 0 < iters
      → Holds net
      → let r = bench_run cpu d fn iters warmup net in (is_zero r.0 ≡ true) × Holds r.2
  unfolding bench_run report
  bench_run-Holds k iters warmup net p h =
      let asked : (iters == 0) ≡ false = ground (arith, p) in
      let w = warm_up-Holds k warmup net h in
      let m = measure_calls-Holds k (capped cpu d fn iters) _ w.1 in
      simp (asked, w.0, m.0) (refl, m.1)

-- A scheme that works: it starts, its signatures fit the buffer, it signs, it accepts its signatures, and
-- it rejects them with their first bit flipped. `IsSig` says what it signed.
pub record Works (cpu : Cpu) (scheme : Scheme cpu) (msg : List ℕ) (sig_buf : ℕ) : Type 1 where
  pub IsSig : List ℕ → Type 0
  pub starts : (n : cpu.Net) → is_zero (scheme.scheme_init n).0 ≡ true
  pub fits : scheme.scheme_sig_max_bytes ≤ sig_buf
  pub signs : (n : cpu.Net) → is_zero (scheme.scheme_do_sign msg n).0 ≡ true
  pub signs-IsSig : (n : cpu.Net) → IsSig (scheme.scheme_do_sign msg n).1
  pub accepts :
      (sig : List ℕ) (n : cpu.Net)
      → IsSig sig
      → is_zero (scheme.scheme_do_verify sig msg n).0 ≡ true
  pub rejects :
      (sig : List ℕ) (n : cpu.Net)
      → IsSig sig
      → is_zero (scheme.scheme_do_verify (flip_first sig) msg n).0 ≡ false

module _ (cpu : Cpu) (d : Double) (scheme : Scheme cpu) (msg_len sig_buf iters warmup : ℕ) where
  open scheme use {scheme_do_sign}

  abbrev message : List ℕ
  message = g_msg cpu d scheme msg_len sig_buf iters warmup

  module _ (works : Works cpu scheme message sig_buf) where
    open works use {IsSig}

    Signed : World cpu → Type 0
    Signed w = IsSig w.g_sig

    verify_iter-Keeps :
        Keeps (world_cpu cpu) d (verify_iter cpu d scheme msg_len sig_buf iters warmup) Signed
    unfolding verify_iter Signed
    verify_iter-Keeps = record {
      waits = λ w h. h;
      works = λ w h. works.accepts w.g_sig w.net h;
      keeps = λ w h. h;
    }

    sign_iter-Keeps :
        Keeps
          (world_cpu cpu)
          d
          (sign_iter cpu d scheme msg_len sig_buf iters warmup)
          (λ w. zero ≡ zero)
    unfolding sign_iter
    sign_iter-Keeps = record {
      waits = λ w h. h;
      works = λ w h. works.signs w.net;
      keeps = λ w h. h;
    }

    sanity_check-passes :
        (w : World cpu)
        → Signed w
        → passes (sanity_check cpu d scheme msg_len sig_buf iters warmup w) ≡ true
    unfolding sanity_check verify_iter passes Signed
    sanity_check-passes w h = simp (works.accepts w.g_sig w.net h, works.rejects w.g_sig _ h) refl

    run_verify-passes :
        (w : World cpu)
        → 0 < iters
        → Signed w
        → passes (run_verify cpu d scheme msg_len sig_buf iters warmup w) ≡ true
    unfolding run_verify run_measured Signed
    run_verify-passes w p h =
        let r =
          bench_run-Holds (world_cpu cpu) d _ Signed verify_iter-Keeps iters warmup
            (record w {
              net = scheme.set_stage primitive_verify (scheme.runtime_memory_begin w.net);
            })
            p h in
        simp r.0 (sanity_check-passes _ r.1)

    run_sign-passes :
        (w : World cpu)
        → 0 < iters
        → passes (run_sign cpu d scheme msg_len sig_buf iters warmup w) ≡ true
    unfolding run_sign run_measured sign_iter Signed
    run_sign-passes w p =
        let r =
          bench_run-Holds (world_cpu cpu) d _ (λ w. zero ≡ zero) sign_iter-Keeps iters warmup
            (record w { net = scheme.set_stage primitive_sign (scheme.runtime_memory_begin w.net) })
            p refl in
        simp (r.0, works.signs _) (run_verify-passes _ p (works.signs-IsSig _))

    -- With a scheme that works, the signature benchmark neither fails nor stops on the way: it comes to its
    -- last line, and its check of a valid and of a tampered signature says PASS. There is a run to
    -- measure.
    pub benchmark_main-passes :
        (net : cpu.Net)
        → 0 < iters
        → passes (benchmark_main cpu d scheme msg_len sig_buf iters warmup net) ≡ true
    unfolding benchmark_main
    benchmark_main-passes net p =
        let fits : ltb sig_buf scheme.scheme_sig_max_bytes ≡ false = ground (arith, works.fits) in
        simp (works.starts net, fits) (run_sign-passes _ p)
