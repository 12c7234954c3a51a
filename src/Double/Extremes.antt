-- ===== src/Double/Extremes.antt =====
-- The least and the greatest value of a column.
use assessing_pq_mqtt_m_tls.Common.{
  zero, suc, ◌<◌, ◌≡◌, ◌⊎◌, refl, List, [], ◌∷◌, Bool, true, false, length, All, get_or, arith,
  Bool-cases, inl, inr,
}
use assessing_pq_mqtt_m_tls.Double.{Double, IsOrdered, extreme, least, greatest}

unfoldable pub Among : {A : Type 0} → A → List A → Type 0
Among x [] = zero ≡ suc zero
Among x (y ∷ ys) = (x ≡ y) ⊎ Among x ys

-- An order in which not coming before is transitive over what satisfies `P`.
record IsStrict {A : Type 0} (P : A → Type 0) (before : A → A → Bool) : Type 0 where
  itself : (x : A) → before x x ≡ false
  through : (x y z : A) → P y → before x y ≡ false → before y z ≡ false → before x z ≡ false
  turned : (x y : A) → before x y ≡ true → before y x ≡ false

module _ (d : Double) where
  -- One of the values, with none before it.
  pub record First (before : d.Value → d.Value → Bool) (x : d.Value) (vs : List d.Value)
      : Type 0 where
    pub among : Among x vs
    pub none_before : All (λ (v : d.Value). before v x ≡ false) vs

  record Found (before : d.Value → d.Value → Bool) (m x : d.Value) (vs : List d.Value)
      : Type 0 where
    start : before m x ≡ false
    where_from : (x ≡ m) ⊎ Among x vs
    others : All (λ (v : d.Value). before v x ≡ false) vs

  extreme-Found :
      (P : d.Value → Type 0) (before : d.Value → d.Value → Bool) (m : d.Value) (vs : List d.Value)
      → IsStrict P before
      → P m
      → All P vs
      → Found before m (extreme d before m vs) vs
  unfolding extreme Among
  extreme-Found P before m [] strict pm ps = record {
    start = strict.itself m;
    where_from = inl refl;
    others = tt;
  }
  extreme-Found P before m (v ∷ vs) strict pm (pv, ps) = elim (Bool-cases (before v m)) [
    | inl e ↦ simp e (
        let k = extreme-Found P before v vs strict pv ps in
        record {
          start = strict.through m v _ pv (strict.turned v m e) k.start;
          where_from = inr k.where_from;
          others = (k.start, k.others);
        })
    | inr e ↦ simp e (
        let k = extreme-Found P before m vs strict pm ps in
        record {
          start = k.start;
          where_from = elim k.where_from [ inl q ↦ inl q | inr q ↦ inr (inr q) ];
          others = (strict.through v m _ pm e k.start, k.others);
        })
  ]

  extreme-First :
      (P : d.Value → Type 0) (before : d.Value → d.Value → Bool) (vs : List d.Value)
      → IsStrict P before
      → All P vs
      → 0 < length vs
      → First before (extreme d before (get_or vs 0 (d.of_nat 0)) vs) vs
  unfolding extreme Among
  extreme-First P before [] strict ps h = absurd (omega (arith, h))
  extreme-First P before (v ∷ vs) strict (pv, ps) h =
      let k = extreme-Found P before v (v ∷ vs) strict pv (pv, ps) in
      record { among = elim k.where_from [ inl q ↦ inl q | inr q ↦ q ]; none_before = k.others }

  module _ (ordered : IsOrdered d) where
    open ordered use {IsNumber}

    lt-IsStrict : IsStrict IsNumber d.lt
    lt-IsStrict = record {
      itself = ordered.irreflexive;
      through = ordered.transitive;
      turned = ordered.asymmetric;
    }

    gt-IsStrict : IsStrict IsNumber (λ v w. d.lt w v)
    gt-IsStrict = record {
      itself = ordered.irreflexive;
      through = λ x y z h p q. ordered.transitive z y x h q p;
      turned = λ x y p. ordered.asymmetric y x p;
    }

    -- The loops from the first value of a column on.
    pub column-First :
        (vs : List d.Value)
        → All IsNumber vs
        → 0 < length vs
        → First d.lt (least d (get_or vs 0 (d.of_nat 0)) vs) vs
          × First (λ v w. d.lt w v) (greatest d (get_or vs 0 (d.of_nat 0)) vs) vs
    column-First vs numbers h = (
      extreme-First IsNumber d.lt vs lt-IsStrict numbers h,
      extreme-First IsNumber (λ v w. d.lt w v) vs gt-IsStrict numbers h,
    )
