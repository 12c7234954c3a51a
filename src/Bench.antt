-- ===== src/Bench.antt =====
-- bench.c, in a build with SysTick: the cycle counter and the measuring of an operation.
pub mod Cycles
pub mod Extremes
pub mod Driver
pub mod Adapter
pub mod Verify
mod Tests
use assessing_pq_mqtt_m_tls.Common.{
  ℕ, zero, suc, ◌+◌, ◌-◌, ◌*◌, ◌/◌, ◌%◌, ◌^◌, ℤ, pos, negsuc, List, [], ◌∷◌, ◌++◌, Option, some,
  none, Bool, true, false, not, ltb, ◌==◌, ◌!=◌, get_or, length, is_zero, if◌then◌else◌,
}
use assessing_pq_mqtt_m_tls.Double.{Double, cmp_double, sum_of, least, greatest, squares}

-- SYSTICK_RELOAD
abbrev pub systick_reload : ℕ
systick_reload = 16777215

unfoldable pub isr_systick : ℕ → ℕ
isr_systick g_wraps = (g_wraps + 1) % 2 ^ 32

-- `g_wraps`, which `bench_init` sets to 0, after so many exceptions.
unfoldable pub wraps_after : ℕ → ℕ
wraps_after zero = 0
wraps_after (suc n) = isr_systick (wraps_after n)

-- The processor: the exceptions of SysTick since `bench_init`, the register of its current value, the
-- microsecond timer, and the time that goes by up to the next read.
pub record Cpu : Type 1 where
  pub Net : Type 0
  pub exceptions : Net → ℕ
  pub cvr : Net → ℕ
  pub time_us : Net → ℕ
  pub next : Net → Net

-- What `bench_run` writes to `*out`.
pub record BenchStats (d : Double) : Type 0 where
  pub n : ℕ
  pub mean_ms : d.Value
  pub std_ms : d.Value
  pub min_ms : d.Value
  pub max_ms : d.Value
  pub median_ms : d.Value
  pub mean_cyc : d.Value
  pub std_cyc : d.Value
  pub min_cyc : d.Value
  pub max_cyc : d.Value
  pub median_cyc : d.Value
  pub ops_per_s : d.Value

module _ (cpu : Cpu) where
  open cpu use {Net, exceptions, cvr, time_us, next}

  -- The loop of `bench_cycles`; `v` is the register's low 24 bits.
  unfoldable pub cycle_rounds : ℕ → Net → Option (ℕ × Net)
  cycle_rounds zero net = none
  cycle_rounds (suc fuel) net =
      let net₁ = next net in
      let net₂ = next net₁ in
      let w₁ = wraps_after (exceptions net) in
      let v = cvr net₁ % 2 ^ 24 in
      let rest = cycle_rounds fuel (next net₂) in
      if w₁ != wraps_after (exceptions net₂)
      then rest
      else some ((w₁ * (systick_reload + 1) + (systick_reload - v)) % 2 ^ 64, net₂)

  unfoldable pub found_or : Net → Option (ℕ × Net) → ℕ × Net
  found_or net none = (0, net)
  found_or net (some r) = r

  -- A second round is enough, since SysTick does not wrap in both.
  unfoldable pub bench_cycles : Net → ℕ × Net
  bench_cycles net = found_or net (cycle_rounds 2 net)

  abbrev pub bench_us : Net → ℕ × Net
  bench_us net = (time_us net, next net)

  module _ (d : Double) (fn : Net → ℤ × Net) where
    open d use {Value, of_nat, add, sub, mul, div, sqrt, lt, qsort}

    -- The warm-up: the code that ended it, or 0.
    unfoldable pub warm_up : ℕ → Net → ℤ × Net
    warm_up zero net = (pos 0, net)
    warm_up (suc n) net =
        let (rc, net₁) = fn net in
        let rest = warm_up n net₁ in if not (is_zero rc) then (rc, net₁) else rest

    -- A measured call: its code, `u1 - u0` and `c1 - c0` on `uint64_t`.
    unfoldable pub measure_call : Net → ℤ × ℕ × ℕ × Net
    measure_call net =
        let (c₀, net₁) = bench_cycles net in
        let (u₀, net₂) = bench_us net₁ in
        let (rc, net₃) = fn net₂ in
        let (u₁, net₄) = bench_us net₃ in
        let (c₁, net₅) = bench_cycles net₄ in
        (rc, (u₁ + 2 ^ 64 - u₀) % 2 ^ 64, (c₁ + 2 ^ 64 - c₀) % 2 ^ 64, net₅)

    -- The measured calls, with what is stored in `ms` and `cyc`, or the code that ended them.
    unfoldable pub measure_calls : ℕ → Net → ℤ × List Value × List Value × Net
    measure_calls zero net = (pos 0, [], [], net)
    measure_calls (suc n) net =
        let (rc, us, cycles, net₁) = measure_call net in
        let (rc', ms, cyc, net₂) = measure_calls n net₁ in
        if not (is_zero rc)
        then (rc, [], [], net₁)
        else (rc', div (of_nat us) (of_nat 1000) ∷ ms, of_nat cycles ∷ cyc, net₂)

    -- The median of an array that is sorted.
    unfoldable pub median_of : ℕ → List Value → Value
    median_of n vs =
        if n % 2 == 1
        then get_or vs (n / 2) (of_nat 0)
        else mul (div (of_nat 1) (of_nat 2))
            (add (get_or vs (n / 2 - 1) (of_nat 0)) (get_or vs (n / 2) (of_nat 0)))

    abbrev pub first_of : List Value → Value
    first_of vs = get_or vs 0 (of_nat 0)

    -- `*out` from the two columns.
    unfoldable pub stats_of : ℕ → List Value → List Value → BenchStats d
    stats_of n ms cyc =
        let mean_ms = div (sum_of d (of_nat 0) ms) (of_nat n) in
        let mean_cyc = div (sum_of d (of_nat 0) cyc) (of_nat n) in
        let denom = if ltb 1 n then of_nat (n - 1) else of_nat 1 in
        record {
          n = n;
          mean_ms = mean_ms;
          std_ms = sqrt (div (squares d mean_ms (of_nat 0) ms) denom);
          min_ms = least d (first_of ms) ms;
          max_ms = greatest d (first_of ms) ms;
          median_ms = median_of n (qsort (cmp_double d) ms);
          mean_cyc = mean_cyc;
          std_cyc = sqrt (div (squares d mean_cyc (of_nat 0) cyc) denom);
          min_cyc = least d (first_of cyc) cyc;
          max_cyc = greatest d (first_of cyc) cyc;
          median_cyc = median_of n (qsort (cmp_double d) cyc);
          ops_per_s = if lt (of_nat 0) mean_ms then div (of_nat 1000) mean_ms else of_nat 0;
        }

    -- BENCH_MAX_ITERS
    abbrev pub bench_max_iters : ℕ
    bench_max_iters = 256

    -- `iters` from the caller's.
    abbrev pub capped : ℕ → ℕ
    capped iters = if ltb bench_max_iters iters then bench_max_iters else iters

    -- After the measured calls: the code, and what is written to `*out`.
    unfoldable pub report : ℕ → ℤ × List Value × List Value × Net → ℤ × Option (BenchStats d) × Net
    report n (rc, ms, cyc, net) =
        if not (is_zero rc) then (rc, none, net) else (pos 0, some (stats_of n ms cyc), net)

    -- `fn` and `out` are not NULL.
    unfoldable pub bench_run : ℕ → ℕ → Net → ℤ × Option (BenchStats d) × Net
    bench_run iters warmup net =
        if iters == 0
        then (negsuc 0, none, net)
        else let (rc, net₁) = warm_up warmup net in
          if not (is_zero rc)
          then (rc, none, net₁)
          else report (capped iters) (measure_calls (capped iters) net₁)
