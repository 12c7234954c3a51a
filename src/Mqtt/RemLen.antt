-- ===== src/Mqtt/RemLen.antt =====
-- The remaining-length field: `encode_remlen` of mqtt_client/mqtt.c, and the format that MQTT 3.1.1
-- gives it, as a decoder of its own.
pub mod RoundTrip
use assessing_pq_mqtt_m_tls.Common.{
  ℕ, zero, suc, ◌+◌, ◌*◌, ◌/◌, ◌%◌, ◌^◌, List, [], ◌∷◌, Option, none, some, ltb, ◌==◌, bit_and,
  bit_or, if◌then◌else◌,
}

-- `buf[i] = (uint8_t)(val & 0x7F)`
abbrev pub low_group : ℕ → ℕ
low_group val = bit_and val 0x7f % 256

-- The rounds of the loop, `more` of them at most after this one; the result is what is written.
unfoldable pub remlen_rounds : ℕ → ℕ → List ℕ
remlen_rounds zero val =
    (if val / 2 ^ 7 == 0 then low_group val else bit_or (low_group val) 0x80) ∷ []
remlen_rounds (suc more) val =
    let rest = remlen_rounds more (val / 2 ^ 7) in
    if val / 2 ^ 7 == 0 then low_group val ∷ [] else bit_or (low_group val) 0x80 ∷ rest

-- `i < 4`, so there are three rounds at most after the first.
unfoldable pub encode_remlen : ℕ → List ℕ
unfolding remlen_rounds
encode_remlen val = remlen_rounds 3 val

-- The format: groups of seven bits, lowest first, each but the last marked by 128.
unfoldable pub decode_groups : ℕ → List ℕ → Option (ℕ × List ℕ)
decode_groups more [] = none
decode_groups zero (b ∷ bs) = if b / 128 % 2 == 0 then some (b % 128, bs) else none
decode_groups (suc more) (b ∷ bs) =
    if b / 128 % 2 == 0 then some (b % 128, bs) else elim (decode_groups more bs) [
      | none ↦ none
      | some (v, rest) ↦ some (b % 128 + 128 * v, rest)
    ]

-- Four groups at most, so the fourth one has no mark.
unfoldable pub decode_remlen : List ℕ → Option (ℕ × List ℕ)
unfolding decode_groups
decode_remlen bs = decode_groups 3 bs

-- What the format forbids: all groups up to the last one that fits are marked; with the number that
-- they would stand for.
unfoldable pub overlong_groups : ℕ → List ℕ → Option (ℕ × List ℕ)
overlong_groups more [] = none
overlong_groups zero (b ∷ bs) = if b / 128 % 2 == 0 then none else some (b % 128, bs)
overlong_groups (suc more) (b ∷ bs) =
    if b / 128 % 2 == 0 then none else elim (overlong_groups more bs) [
      | none ↦ none
      | some (v, rest) ↦ some (b % 128 + 128 * v, rest)
    ]

-- Four marked groups.
unfoldable pub decode_overlong : List ℕ → Option (ℕ × List ℕ)
unfolding overlong_groups
decode_overlong bs = overlong_groups 3 bs

-- The field of the format, or the forbidden one of four marked groups.
unfoldable pub decode_either : List ℕ → Option (ℕ × List ℕ)
decode_either bs = elim (decode_remlen bs) [ none ↦ decode_overlong bs | some r ↦ some r ]
