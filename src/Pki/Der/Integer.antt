-- ===== src/Pki/Der/Integer.antt =====
-- `integer_small` of tools/gen_hawk_pki.c against the encoding of an INTEGER.
use assessing_pq_mqtt_m_tls.Common.{
  ℕ, ◌+◌, ◌*◌, ◌/◌, ◌%◌, ◌^◌, ◌<◌, ◌≡◌, List, [], ◌∷◌, Option, some, none, ltb, ◌==◌, ◌&&◌, arith,
  bit_and-0x80, if◌then◌else◌,
}
use assessing_pq_mqtt_m_tls.Pki.Der.{integer_bytes}

-- A number that is not negative, most significant byte first, in two's complement: the top bit is
-- clear, and a zero byte leads only where the next byte's top bit is set.
unfoldable pub read_bytes : ℕ → List ℕ → ℕ
read_bytes acc [] = acc
read_bytes acc (b ∷ bs) = read_bytes (acc * 256 + b) bs

unfoldable pub read_natural : List ℕ → Option ℕ
read_natural [] = none
read_natural (b ∷ []) = if ltb b 128 then some b else none
read_natural (b ∷ b' ∷ bs) =
    if ltb b 128 then if b == 0 && ltb b' 128 then none else some (read_bytes b (b' ∷ bs)) else none

-- Up to 65535 the content that `integer_small` writes is the encoding of the number as an INTEGER, in
-- its shortest form.
pub read_natural-integer_bytes : (v : ℕ) → (v < 2 ^ 16 → read_natural (integer_bytes v) ≡ some v)
unfolding read_natural read_bytes integer_bytes
read_natural-integer_bytes v h = ground (arith, bit_and-0x80 (v / 2 ^ 8 % 2 ^ 8))
