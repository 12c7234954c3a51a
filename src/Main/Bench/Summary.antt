-- ===== src/Main/Bench/Summary.antt =====
-- What `run_handshake_benchmark` of mqtt_client/main.c has counted and kept at its end.
use assessing_pq_mqtt_m_tls.Common.{
  ℕ, zero, suc, ◌+◌, ◌^◌, ◌<◌, ◌≤◌, ◌≡◌, refl, sym, ap, ap₂, ◌∙◌, List, [], ◌∷◌, ◌++◌, append-nil,
  append_assoc, true, false, arith, Bool-cases, inl, inr, length, take, set, replicate, length-set,
  length-append, subst,
}
use assessing_pq_mqtt_m_tls.Transport.{Bandwidth, no_bandwidth, Transport}
use assessing_pq_mqtt_m_tls.Double.{Double}
use assessing_pq_mqtt_m_tls.Main.{Link, Device, Config}
use assessing_pq_mqtt_m_tls.Main.Bench.{
  Attempted, Line, csv_hs_start, csv_hs, run_benchmark_attempt, cool_down, warm_up, Metric, value,
  Tally, new_tally, tally_result, measure, run_handshake_benchmark,
}
use assessing_pq_mqtt_m_tls.Main.Bench.Rows.{attempts}

-- The attempts that have succeeded, in their order.
unfoldable pub succeeded : List Attempted → List Attempted
succeeded [] = []
succeeded (a ∷ rows) = elim a.success [ true ↦ a ∷ succeeded rows | false ↦ succeeded rows ]

unfoldable pub last_of : List Attempted → Bandwidth
last_of [] = no_bandwidth
last_of (a ∷ []) = a.result.bandwidth
last_of (a ∷ b ∷ rows) = last_of (b ∷ rows)

-- A start marker and a row for each.
unfoldable pub lines_of : List Attempted → List Line
lines_of [] = []
lines_of (a ∷ rows) = csv_hs_start a.run a.start_epoch_ms ∷ csv_hs a ∷ lines_of rows

length-succeeded : (rows : List Attempted) → length (succeeded rows) ≤ length rows
unfolding succeeded
length-succeeded [] = omega arith
length-succeeded (a ∷ rows) = elim (Bool-cases a.success) [
  | inl e ↦ rw e (omega (arith, length-succeeded rows))
  | inr e ↦ rw e (omega (arith, length-succeeded rows))
]

last_of-append :
    (rows : List Attempted) (a : Attempted) → last_of (rows ++ a ∷ []) ≡ a.result.bandwidth
unfolding last_of
last_of-append [] a = refl
last_of-append (b ∷ []) a = refl
last_of-append (b ∷ c ∷ rows) a = last_of-append (c ∷ rows) a

take-set {ℓ} :
    {A : Type ℓ} (xs : List A) (j : ℕ) (x : A)
    → j < length xs
    → take (suc j) (set xs j x) ≡ take j xs ++ x ∷ []
take-set [] j x h = absurd (omega (arith, h))
take-set (y ∷ ys) zero x h = refl
take-set (y ∷ ys) (suc j) x h = ap (λ zs. y ∷ zs) (take-set ys j x (omega (arith, h)))

length-replicate {ℓ} : {A : Type ℓ} (n : ℕ) (x : A) → length (replicate n x) ≡ n
length-replicate zero x = refl
length-replicate (suc n) x = ap suc (length-replicate n x)

module _ (t : Transport) (l : Link t) (d : Device l.Net) (cfg : Config) (f : Double) where
  unfoldable pub values : Metric t l d cfg f → List Attempted → List f.Value
  values m [] = []
  values m (a ∷ rows) = value t l d cfg f m a ∷ values m rows

  values-append :
      (m : Metric t l d cfg f) (rows : List Attempted) (a : Attempted)
      → values m (rows ++ a ∷ []) ≡ values m rows ++ value t l d cfg f m a ∷ []
  unfolding values
  values-append m [] a = refl
  values-append m (b ∷ rows) a = ap (λ zs. value t l d cfg f m b ∷ zs) (values-append m rows a)

  -- The successful attempts are counted and their values stored from the start of each array; the others
  -- are counted.
  pub record Tallies (done : List Attempted) (runs : ℕ) (s : Tally t l d cfg f) : Type 0 where
    pub successes : s.successes ≡ length done
    pub failures : s.failures + length done ≡ runs
    pub stored : (m : Metric t l d cfg f) → take (length done) (s.samples m) ≡ values m done
    pub sizes : (m : Metric t l d cfg f) → length (s.samples m) ≡ cfg.iters
    pub traffic : s.last_bandwidth ≡ last_of done

  success-Tallies :
      (done : List Attempted) (runs : ℕ) (a : Attempted) (s : Tally t l d cfg f)
      → Tallies done runs s
      → runs < cfg.iters
      → cfg.iters < 2 ^ 31
      → Tallies (done ++ a ∷ []) (suc runs) (tally_result t l d cfg f true a s)
  unfolding tally_result
  success-Tallies done runs a s h room small =
      let n : length (done ++ a ∷ []) ≡ suc (length done) =
        length-append done (a ∷ []) ∙ omega arith in
      record {
        successes = omega (arith, h.successes, h.failures, n, room, small);
        failures = omega (arith, h.failures, n);
        stored = λ m.
            rw (n, h.successes)
              (take-set (s.samples m) (length done) (value t l d cfg f m a)
                  (omega (arith, h.sizes m, h.failures, room))
                ∙ ap (λ zs. zs ++ value t l d cfg f m a ∷ []) (h.stored m)
                ∙ sym (values-append m done a));
        sizes = λ m. length-set (s.samples m) s.successes (value t l d cfg f m a) ∙ h.sizes m;
        traffic = sym (last_of-append done a);
      }

  failure-Tallies :
      (done : List Attempted) (runs : ℕ) (a : Attempted) (s : Tally t l d cfg f)
      → Tallies done runs s
      → runs < cfg.iters
      → cfg.iters < 2 ^ 31
      → Tallies done (suc runs) (tally_result t l d cfg f false a s)
  unfolding tally_result
  failure-Tallies done runs a s h room small = record {
    successes = h.successes;
    failures = omega (arith, h.failures, room, small);
    stored = h.stored;
    sizes = h.sizes;
    traffic = h.traffic;
  }

  unfoldable tally_all : List Attempted → Tally t l d cfg f → Tally t l d cfg f
  tally_all [] s = s
  tally_all (a ∷ rows) s = tally_all rows (tally_result t l d cfg f a.success a s)

  Tallies-same :
      (done done' : List Attempted) (runs runs' : ℕ) (s : Tally t l d cfg f)
      → done ≡ done'
      → runs ≡ runs'
      → Tallies done runs s
      → Tallies done' runs' s
  Tallies-same done done' runs runs' s p q h =
      subst (λ zs. Tallies zs runs' s) p (subst (λ k. Tallies done k s) q h)

  tally_all-Tallies :
      (rows done : List Attempted) (runs : ℕ) (s : Tally t l d cfg f)
      → Tallies done runs s
      → runs + length rows ≤ cfg.iters
      → cfg.iters < 2 ^ 31
      → Tallies (done ++ succeeded rows) (runs + length rows) (tally_all rows s)
  unfolding tally_all succeeded
  tally_all-Tallies [] done runs s h room small =
      Tallies-same done (done ++ []) runs (runs + 0) s (sym (append-nil done)) (omega arith) h
  tally_all-Tallies (a ∷ rows) done runs s h room small =
      let n : suc runs + length rows ≡ runs + suc (length rows) = omega arith in
      elim (Bool-cases a.success) [
        | inl e ↦ simp e (
            Tallies-same _ _ _ _ _ (append_assoc done (a ∷ []) (succeeded rows)) n (
              tally_all-Tallies rows (done ++ a ∷ []) (suc runs) _
                (success-Tallies done runs a s h (omega (arith, room)) small) (omega (arith, room))
                small))
        | inr e ↦ simp e (
            Tallies-same _ _ _ _ _ refl n (
              tally_all-Tallies rows done (suc runs) _
                (failure-Tallies done runs a s h (omega (arith, room)) small) (omega (arith, room))
                small))
      ]

  run_benchmark_attempt-lines :
      (i : ℕ) (net : l.Net)
      → let r = run_benchmark_attempt t l d cfg i false net in r.1 ≡ lines_of (r.0 ∷ [])
  unfolding run_benchmark_attempt lines_of
  run_benchmark_attempt-lines i net = refl

  lines_of-cons :
      (a : Attempted) (rows : List Attempted)
      → lines_of (a ∷ []) ++ lines_of rows ≡ lines_of (a ∷ rows)
  unfolding lines_of
  lines_of-cons a rows = refl

  measure-tally_all :
      (n i : ℕ) (s : Tally t l d cfg f) (net : l.Net)
      → let rows = attempts t l d cfg n i net in
        ((measure t l d cfg f n i s net).0 ≡ tally_all rows s)
        × ((measure t l d cfg f n i s net).1 ≡ lines_of rows)
        × (length rows ≡ n)
  unfolding measure tally_all attempts lines_of
  measure-tally_all zero i s net = (refl, refl, refl)
  measure-tally_all (suc n) i s net =
      let r = run_benchmark_attempt t l d cfg i false net in
      let (tallied, printed, many) =
        measure-tally_all n (i + 1) (tally_result t l d cfg f r.0.success r.0 s)
          (cool_down t l d cfg r.2) in
      (
        tallied,
        ap₂ (λ (xs ys : List Line). xs ++ ys) (run_benchmark_attempt-lines i net) printed
            ∙ lines_of-cons r.0 _,
        ap suc many,
      )

  -- After the benchmark, each of its runs is counted as a success or as a failure; each of the six
  -- arrays begins with the values of the successful runs, in their order, and has kept its size; the
  -- traffic is that of the last successful run; and the lines printed are the start marker and the row of
  -- every measured run, in order. There are fewer than 2³¹ runs.
  pub run_handshake_benchmark-Tallies :
      (net : l.Net)
      → cfg.iters < 2 ^ 31
      → let rows = attempts t l d cfg cfg.iters 0 (warm_up t l d cfg cfg.warmup 0 0 net).1 in
        let r = run_handshake_benchmark t l d cfg f net in
        Tallies (succeeded rows) cfg.iters r.0 × (r.1 ≡ lines_of rows)
  unfolding run_handshake_benchmark last_of values
  run_handshake_benchmark-Tallies net small =
      let start = (warm_up t l d cfg cfg.warmup 0 0 net).1 in
      let rows = attempts t l d cfg cfg.iters 0 start in
      let m = measure-tally_all cfg.iters 0 (new_tally t l d cfg f) start in
      let k =
        tally_all-Tallies rows [] 0 (new_tally t l d cfg f)
          (record {
            successes = refl;
            failures = refl;
            stored = λ m. refl;
            sizes = λ m. length-replicate cfg.iters (f.of_nat 0);
            traffic = refl;
          })
          (omega (arith, m.2)) small in
      let n : 0 + length rows ≡ cfg.iters = omega (arith, m.2) in
      (rw m.0 (Tallies-same _ _ _ _ _ refl n k), m.1)
