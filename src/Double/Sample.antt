-- ===== src/Double/Sample.antt =====
-- Numbers for the tests of bench.c and mqtt_client/main.c.
use assessing_pq_mqtt_m_tls.Common.{ℕ, ◌+◌, ◌-◌, ◌*◌, ◌/◌, ◌≡◌, refl, true, false, ltb, arith}
use assessing_pq_mqtt_m_tls.Double.{Double, IsOrdered}

-- Whole numbers, with the lists as they are.
abbrev pub whole : Double
whole = record {
  Value = ℕ;
  of_nat = λ n. n;
  add = λ a b. a + b;
  sub = λ a b. a - b;
  mul = λ a b. a * b;
  div = λ a b. a / b;
  sqrt = λ a. a;
  to_nat = λ a. a;
  lt = ltb;
  qsort = λ cmp xs. xs;
}

pub ltb-laws :
    ((x : ℕ) → ltb x x ≡ false)
    × ((x y : ℕ) → ltb x y ≡ true → ltb y x ≡ false)
    × ((x y z : ℕ) → ltb x y ≡ false → ltb y z ≡ false → ltb x z ≡ false)
ltb-laws = (λ x. ground arith, λ x y h. ground (arith, h), λ x y z p q. ground (arith, p, q))

abbrev pub whole_order : IsOrdered whole
whole_order = record {
  IsNumber = λ n. n ≡ n;
  of_nat-IsNumber = λ n. refl;
  div-IsNumber = λ n k h. refl;
  irreflexive = ltb-laws.0;
  asymmetric = ltb-laws.1;
  transitive = λ x y z h p q. ltb-laws.2 x y z p q;
}
