-- ===== src/Bench/Cycles.antt =====
-- The cycle counter of bench.c.
use assessing_pq_mqtt_m_tls.Common.{
  ℕ, zero, suc, ◌+◌, ◌-◌, ◌*◌, ◌/◌, ◌%◌, ◌^◌, ◌≤◌, ◌<◌, ◌≡◌, refl, sym, ap, subst, ◌∙◌, some, true,
  false, ◌!=◌, arith, Bool-cases, inl, inr,
}
use assessing_pq_mqtt_m_tls.Bench.{
  systick_reload, isr_systick, wraps_after, Cpu, cycle_rounds, found_or, bench_cycles,
}

-- SysTick: it counts the processor's ticks down from the reload value in periods of 2²⁴, with an
-- exception at each end of a period, and two reads are less than 2²⁰ ticks apart.
pub record Systick (cpu : Cpu) : Type 0 where
  pub ticks : cpu.Net → ℕ
  pub forward : (n : cpu.Net) → ticks n ≤ ticks (cpu.next n)
  pub soon : (n : cpu.Net) → ticks (cpu.next n) < ticks n + 2 ^ 20
  pub counts_down : (n : cpu.Net) → cpu.cvr n % 2 ^ 24 ≡ systick_reload - ticks n % 2 ^ 24
  pub wraps : (n : cpu.Net) → cpu.exceptions n ≡ ticks n / 2 ^ 24

wraps_after_lem : (n : ℕ) → wraps_after n ≡ n % 2 ^ 32
unfolding wraps_after isr_systick
wraps_after_lem zero = omega arith
wraps_after_lem (suc n) = omega (arith, wraps_after_lem n)

module _ (cpu : Cpu) (systick : Systick cpu) where
  open systick use {ticks, forward, soon, counts_down, wraps}

  period-wraps_after :
      (n : cpu.Net) → ticks n < 2 ^ 56 → wraps_after (cpu.exceptions n) ≡ ticks n / 2 ^ 24
  period-wraps_after n h = omega (arith, wraps_after_lem (cpu.exceptions n), wraps n, h)

  -- A round in which SysTick does not wrap gives the ticks at its middle read.
  steady_round :
      (fuel : ℕ) (n : cpu.Net)
      → ticks n < 2 ^ 55 + 2 ^ 24
      → ticks n / 2 ^ 24 ≡ ticks (cpu.next (cpu.next n)) / 2 ^ 24
      → cycle_rounds cpu (suc fuel) n ≡ some (ticks (cpu.next n), cpu.next (cpu.next n))
  unfolding cycle_rounds
  steady_round fuel n h same =
      let n₁ = cpu.next n in
      let n₂ = cpu.next n₁ in
      let before = period-wraps_after n (omega (arith, h)) in
      let after = period-wraps_after n₂ (omega (arith, h, soon n, soon n₁)) in
      let steady : (wraps_after (cpu.exceptions n) != wraps_after (cpu.exceptions n₂)) ≡ false =
        ground (arith, before, after, same) in
      let value : (wraps_after (cpu.exceptions n) * (systick_reload + 1)
              + (systick_reload - cpu.cvr n₁ % 2 ^ 24))
            % 2 ^ 64
          ≡ ticks n₁ =
        omega (arith, h, before, same, counts_down n₁, forward n, forward n₁, soon n) in
      simp (steady, value) refl

  -- A round in which it wraps is done again.
  wrapped_round :
      (fuel : ℕ) (n : cpu.Net)
      → ticks n < 2 ^ 55 + 2 ^ 24
      → ticks n / 2 ^ 24 < ticks (cpu.next (cpu.next n)) / 2 ^ 24
      → cycle_rounds cpu (suc fuel) n ≡ cycle_rounds cpu fuel (cpu.next (cpu.next (cpu.next n)))
  unfolding cycle_rounds
  wrapped_round fuel n h more =
      let n₁ = cpu.next n in
      let n₂ = cpu.next n₁ in
      let before = period-wraps_after n (omega (arith, h)) in
      let after = period-wraps_after n₂ (omega (arith, h, soon n, soon n₁)) in
      let again : (wraps_after (cpu.exceptions n) != wraps_after (cpu.exceptions n₂)) ≡ true =
        ground (arith, before, after, more) in
      simp again refl

  bench_cycles-some :
      (n : cpu.Net) (r : ℕ × cpu.Net) → cycle_rounds cpu 2 n ≡ some r → r ≡ bench_cycles cpu n
  unfolding bench_cycles found_or
  bench_cycles-some n r e = ap (found_or cpu n) (sym e)

  -- A count of ticks from between two moments, which are less than 2²³ ticks apart.
  abbrev pub Between : cpu.Net → ℕ × cpu.Net → Type 0
  Between n r = (ticks n ≤ r.0) × (r.0 ≤ ticks r.1) × (ticks r.1 < ticks n + 2 ^ 23)

  -- `bench_cycles` returns, after two rounds at most, the ticks of the processor at a moment between
  -- the call and the return, as one number without the wraps of SysTick and of its counter. The processor
  -- has run for fewer than 2⁵⁵ ticks.
  pub bench_cycles_lem : (n : cpu.Net) → ticks n < 2 ^ 55 → Between n (bench_cycles cpu n)
  bench_cycles_lem n h =
      let n₁ = cpu.next n in
      let n₂ = cpu.next n₁ in
      let n₃ = cpu.next n₂ in
      let n₄ = cpu.next n₃ in
      elim (Bool-cases (ticks n / 2 ^ 24 != ticks n₂ / 2 ^ 24)) [
        | inr same ↦
            subst (Between n)
              (bench_cycles-some n _ (steady_round 1 n (omega (arith, h)) (ground (arith, same))))
              (omega (arith, forward n), omega (arith, forward n₁), omega (arith, soon n, soon n₁))
        | inl wrapped ↦
            let more : ticks n / 2 ^ 24 < ticks n₂ / 2 ^ 24 =
              ground (arith, wrapped, forward n, forward n₁) in
            let found : cycle_rounds cpu 2 n ≡ some (ticks n₄, cpu.next n₄) =
              wrapped_round 1 n (omega (arith, h)) more
              ∙ steady_round 0 n₃ (omega (arith, h, soon n, soon n₁, soon n₂)) (
                  omega (
                    arith,
                    more,
                    soon n,
                    soon n₁,
                    soon n₂,
                    soon n₃,
                    soon n₄,
                    forward n₃,
                    forward n₄,
                    forward n₂,
                  )) in
            subst (Between n) (bench_cycles-some n _ found) (
              omega (arith, forward n, forward n₁, forward n₂, forward n₃),
              omega (arith, forward n₄),
              omega (arith, soon n, soon n₁, soon n₂, soon n₃, soon n₄),
            )
      ]
