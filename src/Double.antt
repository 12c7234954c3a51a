-- ===== src/Double.antt =====
-- What the benchmarks, bench.c and mqtt_client/main.c, do with a `double`; `to_nat` is the cast to `unsigned`. `qsort` is that of the C
-- library, for an array of doubles with its comparison.
pub mod Extremes
pub mod Sample
use assessing_pq_mqtt_m_tls.Common.{
  ℕ, ℤ, pos, negsuc, Bool, true, false, ◌≡◌, ◌<◌, List, [], ◌∷◌, if◌then◌else◌,
}

pub record Double : Type 1 where
  pub Value : Type 0
  pub of_nat : ℕ → Value
  pub add : Value → Value → Value
  pub sub : Value → Value → Value
  pub mul : Value → Value → Value
  pub div : Value → Value → Value
  pub sqrt : Value → Value
  pub to_nat : Value → ℕ
  pub lt : Value → Value → Bool
  pub qsort : (Value → Value → ℤ) → List Value → List Value

-- The comparison of IEEE 754: `IsNumber` is what is no NaN, which every whole number is, and its quotient by
-- one above 0.
pub record IsOrdered (d : Double) : Type 1 where
  pub IsNumber : d.Value → Type 0
  pub of_nat-IsNumber : (n : ℕ) → IsNumber (d.of_nat n)
  pub div-IsNumber : (n k : ℕ) → 0 < k → IsNumber (d.div (d.of_nat n) (d.of_nat k))
  pub irreflexive : (x : d.Value) → d.lt x x ≡ false
  pub asymmetric : (x y : d.Value) → d.lt x y ≡ true → d.lt y x ≡ false
  pub transitive :
      (x y z : d.Value) → IsNumber y → d.lt x y ≡ false → d.lt y z ≡ false → d.lt x z ≡ false

module _ (d : Double) where
  open d use {Value, add, sub, mul, lt}

  -- `cmp_double`, with `(x > y) - (x < y)`.
  unfoldable pub cmp_double : d.Value → d.Value → ℤ
  cmp_double x y =
      if d.lt y x then (if d.lt x y then pos 0 else pos 1) else if d.lt x y then negsuc 0 else pos 0

  -- The loops over a column, from the values before it.
  unfoldable pub sum_of : Value → List Value → Value
  sum_of s [] = s
  sum_of s (v ∷ vs) = sum_of (add s v) vs

  unfoldable pub extreme : (Value → Value → Bool) → Value → List Value → Value
  extreme before m [] = m
  extreme before m (v ∷ vs) = extreme before (if before v m then v else m) vs

  abbrev pub least : Value → List Value → Value
  least mn vs = extreme lt mn vs

  abbrev pub greatest : Value → List Value → Value
  greatest mx vs = extreme (λ v w. lt w v) mx vs

  unfoldable pub squares : Value → Value → List Value → Value
  squares mean s [] = s
  squares mean s (v ∷ vs) = squares mean (add s (mul (sub v mean) (sub v mean))) vs
