-- ===== src/Main/Bench/Stats.antt =====
-- `print_stat_row` of mqtt_client/main.c: the line `csv_hs_summary`. The same figures are printed once
-- more in words where the output is not compact.
use Prim.Native.Nat.{max}
use mathlib.Core.List.{foldl}
use assessing_pq_mqtt_m_tls.Common.{
  ℕ, ℤ, ◌+◌, ◌-◌, ◌^◌, ◌≤◌, ◌<◌, ◌≡◌, ◌⊎◌, ◌∙◌, refl, ap, ap₂, List, [], ◌∷◌, Option, some, none,
  ltb, ◌==◌, get_or, get_elem?, get_elem?-get_or, length, All, if◌then◌else◌, arith, Bool-cases,
  inl, inr,
}
use assessing_pq_mqtt_m_tls.Double.{Double, IsOrdered, cmp_double, sum_of, least, greatest, squares}
use assessing_pq_mqtt_m_tls.Double.Extremes.{First, column-First}

module _ (f : Double) where
  open f use {Value, of_nat, add, sub, mul, div, sqrt, to_nat, qsort}

  -- The figures of `csv_hs_summary`.
  pub record StatRow : Type 0 where
    pub n : ℕ
    pub mean : Value
    pub stddev : Value
    pub mn : Value
    pub mx : Value
    pub median : Value
    pub p90 : Value
    pub p99 : Value

  -- The two indexes that `quantile_sorted` reads at.
  abbrev pub lower_index : ℕ → Value → ℕ
  lower_index n p = to_nat (mul p (of_nat (n - 1)))

  abbrev pub upper_index : ℕ → Value → ℕ
  upper_index n p = if ltb (lower_index n p + 1) n then lower_index n p + 1 else lower_index n p

  unfoldable pub quantile_sorted : List Value → ℕ → Value → Value
  quantile_sorted v n p =
      let pos = mul p (of_nat (n - 1)) in
      let frac = sub pos (of_nat (lower_index n p)) in
      let low = get_or v (lower_index n p) (of_nat 0) in
      let high = get_or v (upper_index n p) (of_nat 0) in
      if n == 1 then get_or v 0 (of_nat 0) else add low (mul frac (sub high low))

  -- A number of hundredths: the quotient is the `double` that is nearest, as the literal is.
  abbrev pub hundredths : ℕ → Value
  hundredths k = div (of_nat k) (of_nat 100)

  -- Of the first `n` values of an array, which are `v`; `none` is the line without observations.
  unfoldable pub print_stat_row : List Value → ℕ → Option StatRow
  print_stat_row v n =
      let mean = div (sum_of f (of_nat 0) v) (of_nat n) in
      let sorted = qsort (cmp_double f) v in
      if n == 0
      then none
      else some (record {
        n = n;
        mean = mean;
        stddev =
            sqrt (div (squares f mean (of_nat 0) v) (if ltb 1 n then of_nat (n - 1) else of_nat 1));
        mn = least f (get_or v 0 (of_nat 0)) v;
        mx = greatest f (get_or v 0 (of_nat 0)) v;
        median = quantile_sorted sorted n (hundredths 50);
        p90 = quantile_sorted sorted n (hundredths 90);
        p99 = quantile_sorted sorted n (hundredths 99);
      })

  -- A product with a fraction is cut off at or below the factor: a number below 2³² is exact as a
  -- `double`, and rounding keeps the order.
  pub record CutsOff : Type 0 where
    pub below : (k n : ℕ) → k ≤ 100 → n < 2 ^ 32 → to_nat (mul (hundredths k) (of_nat n)) ≤ n

  -- `qsort` keeps the number of the values.
  pub record KeepsLength : Type 0 where
    pub sorted_length : (cmp : Value → Value → ℤ) (v : List Value) → length (qsort cmp v) ≡ length v

  -- The value of the sorted values `s` at the place `p * (n - 1)`, between its two neighbours there; the
  -- upper one is the last value again where there is no next one.
  pub record Interpolates (s : List Value) (n : ℕ) (p x : Value) : Type 0 where
    pub lower : ℕ
    pub upper : ℕ
    pub low : Value
    pub high : Value
    pub cut_off : lower ≡ to_nat (mul p (of_nat (n - 1)))
    pub next : (upper ≡ lower + 1) ⊎ ((upper ≡ lower) × (lower + 1 ≡ n))
    pub low_at : get_elem? s lower ≡ some low
    pub high_at : get_elem? s upper ≡ some high
    pub between : x ≡ add low (mul (sub (mul p (of_nat (n - 1))) (of_nat lower)) (sub high low))

  abbrev pub IsQuantile : List Value → ℕ → Value → Value → Type 0
  IsQuantile s n p x = ((n ≡ 1) × (get_elem? s 0 ≡ some x)) ⊎ ((1 < n) × Interpolates s n p x)

  -- What the line says of the observations `v`, with the folds of the library for the sums.
  pub Describes : List Value → ℕ → Option StatRow → Type 0
  Describes v n none = n ≡ 0
  Describes v n (some r) =
      let s = qsort (cmp_double f) v in
      (0 < n)
      × (r.n ≡ n)
      × (r.mean ≡ div (foldl add (of_nat 0) v) (of_nat n))
      × (r.stddev
          ≡ sqrt (
              div (foldl (λ q x. add q (mul (sub x r.mean) (sub x r.mean))) (of_nat 0) v)
                (of_nat (max 1 (n - 1)))))
      × First f f.lt r.mn v
      × First f (λ x y. f.lt y x) r.mx v
      × IsQuantile s n (hundredths 50) r.median
      × IsQuantile s n (hundredths 90) r.p90
      × IsQuantile s n (hundredths 99) r.p99

  sum_of-foldl : (q : Value) (v : List Value) → sum_of f q v ≡ foldl add q v
  unfolding sum_of
  sum_of-foldl q [] = refl
  sum_of-foldl q (x ∷ v) = sum_of-foldl (add q x) v

  squares-foldl :
      (mean q : Value) (v : List Value)
      → squares f mean q v ≡ foldl (λ r x. add r (mul (sub x mean) (sub x mean))) q v
  unfolding squares
  squares-foldl mean q [] = refl
  squares-foldl mean q (x ∷ v) = squares-foldl mean (add q (mul (sub x mean) (sub x mean))) v

  divisor :
      (n : ℕ) → 0 < n → (if ltb 1 n then of_nat (n - 1) else of_nat 1) ≡ of_nat (max 1 (n - 1))
  divisor n h = elim (Bool-cases (ltb 1 n)) [
    | inl more ↦ rw more (ap of_nat (ground (arith, more)))
    | inr one ↦ rw one (ap of_nat (ground (arith, one, h)))
  ]

  quantile_sorted-IsQuantile :
      (s : List Value) (n : ℕ) (p : Value)
      → length s ≡ n
      → 0 < n
      → lower_index n p ≤ n - 1
      → IsQuantile s n p (quantile_sorted s n p)
  unfolding quantile_sorted
  quantile_sorted-IsQuantile s n p e h k = elim (Bool-cases (n == 1)) [
    | inl one ↦
        rw one (inl (ground (arith, one), get_elem?-get_or s 0 (of_nat 0) (omega (arith, e))))
    | inr more ↦ rw more (
        inr (
          ground (arith, more),
          record {
            lower = lower_index n p;
            upper = upper_index n p;
            low = get_or s (lower_index n p) (of_nat 0);
            high = get_or s (upper_index n p) (of_nat 0);
            cut_off = refl;
            next = elim (Bool-cases (ltb (lower_index n p + 1) n)) [
              | inl inside ↦ inl (rw inside)
              | inr last ↦ inr (rw last, ground (arith, last, k))
            ];
            low_at = get_elem?-get_or s (lower_index n p) (of_nat 0) (omega (arith, e, k));
            high_at = get_elem?-get_or s (upper_index n p) (of_nat 0) (ground (arith, e, k));
            between = refl;
          },
        ))
  ]

  -- Without observations there is no line of statistics. With some, fewer than 2³², it has their number;
  -- their mean, and the standard deviation about it; a least and a greatest value that are observations
  -- with none below or above; and for the median and the 90th and 99th hundredths, the value of the sorted
  -- observations at that place, between two neighbours that are read inside the array. Comparisons are
  -- those of IEEE 754, a product with a fraction that is cut off to a whole number is at most the factor,
  -- and `qsort` keeps the number of the values.
  pub print_stat_row-Describes :
      (ordered : IsOrdered f) (cuts : CutsOff) (keeps : KeepsLength) (v : List Value) (n : ℕ)
      → length v ≡ n
      → n < 2 ^ 32
      → All ordered.IsNumber v
      → Describes v n (print_stat_row v n)
  unfolding print_stat_row Describes
  print_stat_row-Describes ordered cuts keeps v n h small numbers = elim (Bool-cases (n == 0)) [
    | inl empty ↦ simp empty (ground (arith, empty))
    | inr more ↦ simp more (
        let k = column-First f ordered v numbers (ground (arith, more, h)) in
        let pos : 0 < n = ground (arith, more) in
        let quantile = λ (j : ℕ) (q : j ≤ 100).
          quantile_sorted-IsQuantile (qsort (cmp_double f) v) n (hundredths j)
            (keeps.sorted_length _ v ∙ h) pos (cuts.below j (n - 1) q (omega (arith, small))) in
        (
          pos,
          refl,
          ap (λ (x : Value). div x (of_nat n)) (sum_of-foldl (of_nat 0) v),
          ap₂ (λ (x y : Value). sqrt (div x y))
              (squares-foldl (div (sum_of f (of_nat 0) v) (of_nat n)) (of_nat 0) v) (divisor n pos),
          k.0,
          k.1,
          quantile 50 (omega arith),
          quantile 90 (omega arith),
          quantile 99 (omega arith),
        ))
  ]
