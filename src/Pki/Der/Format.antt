-- ===== src/Pki/Der/Format.antt =====
-- Tag, length and value in the distinguished encoding (X.690), as a reader: one byte of tag, and a
-- length in its shortest form.
use assessing_pq_mqtt_m_tls.Common.{
  ◌>>=◌, ℕ, ◌+◌, ◌*◌, List, [], ◌∷◌, Option, some, none, length, take, drop, ltb, ◌==◌,
  if◌then◌else◌,
}

-- Lengths of up to two bytes, which is more than the buffers hold.
unfoldable pub read_len : List ℕ → Option (ℕ × List ℕ)
read_len [] = none
read_len (b ∷ bs) =
    if ltb b 0x80
    then some (b, bs)
    else if b == 0x81
    then long_one bs
    else if b == 0x82
    then long_two bs
    else none
  where
    long_one : List ℕ → Option (ℕ × List ℕ)
    long_one [] = none
    long_one (x ∷ xs) = if ltb x 0x80 then none else some (x, xs)

    long_two : List ℕ → Option (ℕ × List ℕ)
    long_two (x ∷ y ∷ xs) = if x == 0 then none else some (x * 256 + y, xs)
    long_two (x ∷ []) = none
    long_two [] = none

-- Tag, value, and what follows.
unfoldable pub read_tlv : List ℕ → Option (ℕ × List ℕ × List ℕ)
read_tlv [] = none
read_tlv (tag ∷ bs) = read_len bs >>= λ (n, rest).
    if ltb (length rest) n then none else some (tag, take n rest, drop n rest)
