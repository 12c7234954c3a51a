-- ===== src/Mqtt/RemLen/RoundTrip.antt =====
-- `encode_remlen` against the format of the remaining-length field.
use assessing_pq_mqtt_m_tls.Common.{
  ℕ, zero, suc, ◌*◌, ◌/◌, ◌%◌, ◌^◌, ◌≤◌, ◌<◌, ◌≡◌, ◌∙◌, ◌⊎◌, inl, inr, List, [], ◌∷◌, ◌++◌, some,
  arith, length, All, bit_and-0x7f, bit_or-0x80, Option-cases, Bool-cases, none-ne-some, ◌==◌,
}
use assessing_pq_mqtt_m_tls.Mqtt.RemLen.{
  remlen_rounds, encode_remlen, decode_groups, decode_remlen, overlong_groups, decode_overlong,
  decode_either,
}

-- The groups that are left, for the values below `m` that they can carry.
Decodes : ℕ → ℕ → Type 0
Decodes more m =
    (val : ℕ) (rest : List ℕ)
    → val < m
    → decode_groups more (remlen_rounds more val ++ rest) ≡ some (val, rest)

last_group : Decodes 0 128
unfolding Decodes decode_groups remlen_rounds
last_group val rest h = ground (arith, bit_and-0x7f val)

next_group : (more m : ℕ) → Decodes more m → Decodes (suc more) (128 * m)
unfolding Decodes decode_groups remlen_rounds
next_group more m ih val rest h =
    let rest_lt : val / 128 < m = omega arith in
    ground (arith, bit_and-0x7f val, bit_or-0x80 (val % 128), ih (val / 128) rest rest_lt)

-- Decoding the field that `encode_remlen` writes for a length below 2 ^ 28 gives the length, and
-- leaves what follows the field.
pub decode_remlen-encode_remlen :
    (val : ℕ) (rest : List ℕ)
    → val < 2 ^ 28
    → decode_remlen (encode_remlen val ++ rest) ≡ some (val, rest)
unfolding decode_remlen encode_remlen Decodes
decode_remlen-encode_remlen =
    next_group 2 (2 ^ 21) (next_group 1 (2 ^ 14) (next_group 0 (2 ^ 7) last_group))

-- What the groups that are left can stand for.
Below : ℕ → ℕ → Type 0
Below more m =
    (bs : List ℕ) (v : ℕ) (rest : List ℕ)
    → ((decode_groups more bs ≡ some (v, rest)) ⊎ (overlong_groups more bs ≡ some (v, rest)))
    → v < m

last-Below : Below 0 128
unfolding Below decode_groups overlong_groups
last-Below [] v rest (inl e) = absurd (none-ne-some _ e)
last-Below [] v rest (inr e) = absurd (none-ne-some _ e)
last-Below (b ∷ bs) v rest (inl e) = ground arith
last-Below (b ∷ bs) v rest (inr e) = ground arith

next-Below : (more m : ℕ) → 1 ≤ m → Below more m → Below (suc more) (128 * m)
unfolding Below decode_groups overlong_groups
next-Below more m p ih [] v rest (inl e) = absurd (none-ne-some _ e)
next-Below more m p ih [] v rest (inr e) = absurd (none-ne-some _ e)
next-Below more m p ih (b ∷ bs) v rest (inl e) = elim (Option-cases (decode_groups more bs)) [
  | inl f ↦ ground (arith, f, e)
  | inr ((w, r), f) ↦ ground (arith, f, e, ih bs w r (inl f))
]
next-Below more m p ih (b ∷ bs) v rest (inr e) = elim (Option-cases (overlong_groups more bs)) [
  | inl f ↦ absurd (ground (arith, f, e))
  | inr ((w, r), f) ↦ ground (arith, f, e, ih bs w r (inr f))
]

-- A field stands for a number below 2 ^ 28, the forbidden one included.
pub decode_either-lt :
    (bs : List ℕ) (v : ℕ) (rest : List ℕ) → decode_either bs ≡ some (v, rest) → v < 2 ^ 28
unfolding decode_either decode_remlen decode_overlong Below
decode_either-lt bs v rest e =
    let below : Below 3 (2 ^ 28) =
      next-Below 2 (2 ^ 21) (omega arith)
        (next-Below 1 (2 ^ 14) (omega arith) (next-Below 0 (2 ^ 7) (omega arith) last-Below)) in
    elim (Option-cases (decode_groups 3 bs)) [
      | inl f ↦ below bs v rest (inr (rw (f, decode_either) at e))
      | inr (r, f) ↦ below bs v rest (inl (f ∙ (rw (f, decode_either) at e)))
    ]

-- What is left after the groups is a part of what they were read from.
groups-Suffix :
    (more : ℕ) (bs : List ℕ) (v : ℕ) (rest : List ℕ)
    → ((decode_groups more bs ≡ some (v, rest)) ⊎ (overlong_groups more bs ≡ some (v, rest)))
    → (xs : List ℕ) × (bs ≡ xs ++ rest)
unfolding decode_groups overlong_groups
groups-Suffix zero [] v rest (inl e) = absurd (none-ne-some _ e)
groups-Suffix zero [] v rest (inr e) = absurd (none-ne-some _ e)
groups-Suffix (suc more) [] v rest (inl e) = absurd (none-ne-some _ e)
groups-Suffix (suc more) [] v rest (inr e) = absurd (none-ne-some _ e)
groups-Suffix zero (b ∷ bs) v rest (inl e) = (b ∷ [], ground arith)
groups-Suffix zero (b ∷ bs) v rest (inr e) = (b ∷ [], ground arith)
groups-Suffix (suc more) (b ∷ bs) v rest (inl e) = elim (Bool-cases (b / 128 % 2 == 0)) [
  | inl last ↦ (b ∷ [], ground arith)
  | inr marked ↦ elim (Option-cases (decode_groups more bs)) [
    | inl f ↦ absurd (ground (arith, f))
    | inr ((w, r), f) ↦
        let (xs, g) = groups-Suffix more bs w r (inl f) in (b ∷ xs, ground (arith, f, g))
  ]
]
groups-Suffix (suc more) (b ∷ bs) v rest (inr e) = elim (Option-cases (overlong_groups more bs)) [
  | inl f ↦ absurd (ground (arith, f))
  | inr ((w, r), f) ↦
      let (xs, g) = groups-Suffix more bs w r (inr f) in (b ∷ xs, ground (arith, f, g))
]

pub decode_either-Suffix :
    (bs : List ℕ) (v : ℕ) (rest : List ℕ)
    → decode_either bs ≡ some (v, rest)
    → (xs : List ℕ) × (bs ≡ xs ++ rest)
unfolding decode_either decode_remlen decode_overlong
decode_either-Suffix bs v rest e = elim (Option-cases (decode_groups 3 bs)) [
  | inl f ↦ groups-Suffix 3 bs v rest (inr (rw (f, decode_either) at e))
  | inr (r, f) ↦ groups-Suffix 3 bs v rest (inl (f ∙ (rw (f, decode_either) at e)))
]

remlen_rounds_shape :
    (more val : ℕ)
    → All (λ b. b < 256) (remlen_rounds more val)
      × (1 ≤ length (remlen_rounds more val))
      × (length (remlen_rounds more val) ≤ suc more)
unfolding remlen_rounds
remlen_rounds_shape zero val = ground (arith, bit_and-0x7f val, bit_or-0x80 (val % 128))
remlen_rounds_shape (suc more) val =
    ground (arith, bit_and-0x7f val, bit_or-0x80 (val % 128), remlen_rounds_shape more (val / 128))

-- Whatever the value, `encode_remlen` writes one to four bytes.
pub encode_remlen_shape :
    (val : ℕ)
    → All (λ b. b < 256) (encode_remlen val)
      × (1 ≤ length (encode_remlen val))
      × (length (encode_remlen val) ≤ 4)
unfolding encode_remlen
encode_remlen_shape val = remlen_rounds_shape 3 val

-- A length below 2 ^ 14 takes at most two bytes.
pub length-encode_remlen_small : (val : ℕ) → val < 2 ^ 14 → length (encode_remlen val) ≤ 2
unfolding encode_remlen remlen_rounds
length-encode_remlen_small val h = ground arith
