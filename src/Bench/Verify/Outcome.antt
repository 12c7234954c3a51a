-- ===== src/Bench/Verify/Outcome.antt =====
-- When the verification benchmark of snova_verify_main.c reaches its last line.
use assessing_pq_mqtt_m_tls.Common.{
  codes, ℕ, ◌<◌, ◌≡◌, refl, ap, ◌↔◌, ℤ, List, ◌++◌, Bool, true, false, not, ◌&&◌, ◌==◌, ◌!=◌,
  is_zero, length, take, drop, arith, Bool-cases, inl, inr,
}
use assessing_pq_mqtt_m_tls.Double.{Double}
use assessing_pq_mqtt_m_tls.Keys.Snova2454.{equal, equal_refl, equal_sound}
use assessing_pq_mqtt_m_tls.Bench.{Cpu, bench_run}
use assessing_pq_mqtt_m_tls.Bench.Adapter.{code_or_minus_one}
use assessing_pq_mqtt_m_tls.Bench.Driver.{flip_first}
use assessing_pq_mqtt_m_tls.Bench.Driver.Passing.{Keeps, bench_run-Holds}
use assessing_pq_mqtt_m_tls.Bench.Verify.{
  Kat, Library, plain, expanded, compared, verify_once, is_done, Buffers, bench_cpu, Monitoring,
  primitive_memory_start, verify_iter, check_tampered, run_benchmark, verify_main,
}

-- What SNOVA's library says of a signed message: it opens to the known message.
abbrev pub Accepts : Library → Kat → List ℕ → Type 0
Accepts (plain crypto_sign_open) k sm =
    (is_zero (crypto_sign_open sm).0 ≡ true) × ((crypto_sign_open sm).1 ≡ k.static_msg)
Accepts (expanded shake256 snova_verify) k sm =
    (is_zero (snova_verify sm (shake256 (drop k.crypto_bytes sm))) ≡ true)
    × (take (length k.static_msg) (drop k.crypto_bytes sm) ≡ k.static_msg)

compared-zero :
    (recovered msg : List ℕ) → (is_zero (compared recovered msg) ≡ true) ↔ (recovered ≡ msg)
compared-zero recovered msg = (
  λ h. elim (Bool-cases (equal recovered msg)) [
    | inl e ↦ equal_sound recovered msg e
    | inr e ↦ cc (rw e at h)
  ],
  λ e. rw (e, equal_refl msg) refl,
)

code_or_minus_one-ne-zero : (rc : ℤ) → is_zero (code_or_minus_one rc) ≡ false
code_or_minus_one-ne-zero rc = elim (Bool-cases (is_zero rc)) [ inl e ↦ rw e refl | inr e ↦ rw e e ]

-- `verify_once` returns 0 for what the library accepts, and for nothing else.
verify_once-Accepts :
    (library : Library) (k : Kat) (sm : List ℕ)
    → (is_zero (verify_once library k sm) ≡ true) ↔ Accepts library k sm
unfolding verify_once
verify_once-Accepts (plain open_signed) k sm =
    let (rc, recovered) = open_signed sm in
    let (there, back) = compared-zero recovered k.static_msg in
    (
      λ h. elim (Bool-cases (is_zero rc)) [
        | inl e ↦ elim (Bool-cases (length recovered != length k.static_msg)) [
          | inl f ↦ cc (rw (e, f) at h)
          | inr f ↦ (e, there (rw (e, f) at h))
        ]
        | inr e ↦ cc (rw e at h)
      ],
      λ (e, m).
          let l : (length recovered != length k.static_msg) ≡ false = ground (arith, ap length m) in
          rw (e, l) (back m),
    )
verify_once-Accepts (expanded shake256 snova_verify) k sm =
    let message = drop k.crypto_bytes sm in
    let rc = snova_verify sm (shake256 message) in
    let (there, back) = compared-zero (take (length k.static_msg) message) k.static_msg in
    (
      λ h. elim (Bool-cases (is_zero rc)) [
        | inl e ↦ (e, there (rw e at h))
        | inr e ↦ cc (rw e at h, e)
      ],
      λ (e, m). rw e (back m),
    )

module _ (cpu : Cpu) (d : Double) (monitor : Monitoring cpu) (library : Library) (k : Kat)
    (busy : cpu.Net → cpu.Net) (iters warmup : ℕ) where
  abbrev known : List ℕ
  known = k.static_sig ++ k.static_msg

  abbrev Intact : Buffers cpu → Type 0
  Intact w = w.g_sm ≡ known

  verify_iter-Keeps :
      is_zero (verify_once library k known) ≡ true
      → Keeps (bench_cpu cpu) d (verify_iter cpu d monitor library k busy iters warmup) Intact
  unfolding verify_iter
  verify_iter-Keeps good = record { waits = λ w h. h; works = λ w h. rw h good; keeps = λ w h. h }

  -- The benchmark runs to its end, with the known answer still in its place.
  run_benchmark-done :
      (w : Buffers cpu)
      → is_zero (verify_once library k known) ≡ true
      → 0 < iters
      → Intact w
      → is_done (run_benchmark cpu d monitor library k busy iters warmup w)
        ≡ not (is_zero (verify_once library k (flip_first known)))
  unfolding run_benchmark check_tampered verify_iter is_done
  run_benchmark-done w good p h =
      let r =
        bench_run-Holds (bench_cpu cpu) d _ Intact (verify_iter-Keeps good) iters warmup
          (record w { net = primitive_memory_start cpu monitor (codes "verify") w.net }) p h in
      simp (r.0, r.1)
        (elim (Bool-cases (is_zero (verify_once library k (flip_first known)))) [
          | inl e ↦ rw e refl
          | inr e ↦ rw e refl
        ])

  run_benchmark-none :
      (w : Buffers cpu)
      → iters ≡ 0
      → is_done (run_benchmark cpu d monitor library k busy iters warmup w) ≡ false
  unfolding run_benchmark bench_run is_done
  run_benchmark-none w e = rw e refl

  abbrev accepted : List ℕ → Bool
  accepted sm = is_zero (verify_once library k sm)

  verify_main_lem :
      (net : cpu.Net)
      → is_done (verify_main cpu d monitor library k busy iters warmup net)
        ≡ (accepted known && (not (iters == 0) && not (accepted (flip_first known))))
  unfolding verify_main verify_iter is_done
  verify_main_lem net =
      let w : Buffers cpu = record { g_sm = known; net = busy net } in
      elim (Bool-cases (accepted known)) [
        | inl good ↦ elim (Bool-cases (iters == 0)) [
          | inl z ↦ rw (good, z) (run_benchmark-none w (ground (arith, z)))
          | inr p ↦ rw (good, p) (run_benchmark-done w good (ground (arith, p)) refl)
        ]
        | inr bad ↦ rw bad refl
      ]

  -- The verification benchmark comes to its last line exactly where the library accepts the known answer,
  -- there is a run to measure, and the library does not accept the known answer with a bit of its
  -- signature flipped.
  pub verify_main-done :
      (net : cpu.Net)
      → (is_done (verify_main cpu d monitor library k busy iters warmup net) ≡ true)
        ↔ (Accepts library k known × (0 < iters) × ¬ Accepts library k (flip_first known))
  verify_main-done net =
      let (there, back) = verify_once-Accepts library k known in
      let (there', back') = verify_once-Accepts library k (flip_first known) in
      let e = verify_main_lem net in
      (
        λ h. (
          there (ground (arith, e, h)),
          ground (arith, e, h),
          λ a. ground (arith, e, h, back' a),
        ),
        λ (a, p, n). elim (Bool-cases (accepted (flip_first known))) [
          | inl t ↦ absurd (n (there' t))
          | inr t ↦ ground (arith, e, back a, t, p)
        ],
      )
