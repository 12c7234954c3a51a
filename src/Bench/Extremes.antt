-- ===== src/Bench/Extremes.antt =====
-- What `bench_run` of bench.c returns and writes.
use assessing_pq_mqtt_m_tls.Common.{
  ℕ, zero, suc, ◌<◌, ◌≡◌, refl, ap, ℤ, pos, List, Option, some, none, true, false, not, ◌==◌,
  length, All, is_zero, arith, Bool-cases, inl, inr,
}
use assessing_pq_mqtt_m_tls.Double.{Double, IsOrdered, least, greatest}
use assessing_pq_mqtt_m_tls.Double.Extremes.{First, column-First}
use assessing_pq_mqtt_m_tls.Bench.{
  Cpu, BenchStats, warm_up, measure_call, measure_calls, first_of, stats_of, capped, report,
  bench_run,
}

module _ (cpu : Cpu) (d : Double) (fn : cpu.Net → ℤ × cpu.Net) where
  lengths-measure_calls :
      (n : ℕ) (net : cpu.Net)
      → let r = measure_calls cpu d fn n net in
        is_zero r.0 ≡ true → (length r.1 ≡ n) × (length r.2 ≡ n)
  unfolding measure_calls
  lengths-measure_calls zero net h = (refl, refl)
  lengths-measure_calls (suc n) net h =
      let c = measure_call cpu d fn net in
      elim (Bool-cases (not (is_zero c.0))) [
        | inl bad ↦ absurd (ground (arith, bad, rw bad at h))
        | inr good ↦
            simp good
              (let k = lengths-measure_calls n c.3 (rw good at h) in (ap suc k.0, ap suc k.1))
      ]

  -- The least and the greatest of a column, and the number of its values.
  pub record Summarises (n : ℕ) (lo hi : d.Value) (vs : List d.Value) : Type 0 where
    pub size : length vs ≡ n
    pub lowest : First d d.lt lo vs
    pub highest : First d (λ v w. d.lt w v) hi vs

  -- A code that is not 0 and no statistics; or 0 and the statistics of the two columns.
  abbrev pub Reports :
      ℕ → ℤ × List d.Value × List d.Value × cpu.Net → ℤ × Option (BenchStats d) × cpu.Net → Type 0
  Reports n m (rc, none, net) = is_zero rc ≡ false
  Reports n m (rc, some s, net) =
      (rc ≡ pos 0)
      × (s.n ≡ n)
      × Summarises n s.min_ms s.max_ms m.1
      × Summarises n s.min_cyc s.max_cyc m.2

  module _ (ordered : IsOrdered d) where
    open ordered use {IsNumber, of_nat-IsNumber, div-IsNumber}

    measure_calls-IsNumber :
        (n : ℕ) (net : cpu.Net)
        → let r = measure_calls cpu d fn n net in All IsNumber r.1 × All IsNumber r.2
    unfolding measure_calls
    measure_calls-IsNumber zero net = (tt, tt)
    measure_calls-IsNumber (suc n) net =
        let c = measure_call cpu d fn net in
        let k = measure_calls-IsNumber n c.3 in
        elim (Bool-cases (not (is_zero c.0))) [
          | inl bad ↦ simp bad (tt, tt)
          | inr good ↦
              simp good ((div-IsNumber c.1 1000 (omega arith), k.0), (of_nat-IsNumber c.2, k.1))
        ]

    column-Summarises :
        (n : ℕ) (vs : List d.Value)
        → length vs ≡ n
        → All IsNumber vs
        → 0 < n
        → Summarises n (least d (first_of cpu d fn vs) vs) (greatest d (first_of cpu d fn vs) vs) vs
    column-Summarises n vs h numbers p =
        let k = column-First d ordered vs numbers (omega (arith, h, p)) in
        record { size = h; lowest = k.0; highest = k.1 }

    report-Reports :
        (n : ℕ) (m : ℤ × List d.Value × List d.Value × cpu.Net)
        → 0 < n
        → (is_zero m.0 ≡ true → (length m.1 ≡ n) × (length m.2 ≡ n))
        → All IsNumber m.1 × All IsNumber m.2
        → Reports n m (report cpu d fn n m)
    unfolding report stats_of
    report-Reports n m p h numbers = elim (Bool-cases (is_zero m.0)) [
      | inl good ↦ simp good (
        refl,
        refl,
        column-Summarises n m.1 (h good).0 numbers.0 p,
        column-Summarises n m.2 (h good).1 numbers.1 p,
      )
      | inr bad ↦ simp bad refl
    ]

    -- `bench_run` returns 0 and fills its statistics, or another code and leaves them; it never returns 0
    -- for a run of no calls. With 0, each column has one value for each measured call, at most 256, and
    -- its least and greatest value are values of the column that no other value is below or above.
    -- Comparisons are those of IEEE 754.
    pub bench_run-Reports :
        (iters warmup : ℕ) (net : cpu.Net)
        → Reports
            (capped cpu d fn iters)
            (measure_calls cpu d fn (capped cpu d fn iters) (warm_up cpu d fn warmup net).1)
            (bench_run cpu d fn iters warmup net)
    unfolding bench_run
    bench_run-Reports iters warmup net =
        let n = capped cpu d fn iters in
        let r = warm_up cpu d fn warmup net in
        elim (Bool-cases (iters == 0)) [
          | inl none_asked ↦ simp none_asked refl
          | inr some_asked ↦ simp some_asked (elim (Bool-cases (is_zero r.0)) [
            | inr bad ↦ simp bad refl
            | inl good ↦ simp good (
                report-Reports n _ (ground (arith, some_asked)) (lengths-measure_calls n r.1)
                  (measure_calls-IsNumber n r.1))
          ])
        ]
