-- ===== src/Pki/Der.antt =====
-- The DER writer of tools/gen_hawk_pki.c. A `derbuf` is the list of the bytes that it holds; `none`
-- is `die("DER buffer overflow")`, which ends the program.
pub mod Format
pub mod Written
pub mod Integer
pub mod Fits
use assessing_pq_mqtt_m_tls.Common.{
  ◌>>=◌, ℕ, ◌+◌, ◌/◌, ◌%◌, ◌^◌, List, [], ◌∷◌, ◌++◌, Option, some, none, length, ltb, leb, ◌!=◌,
  bit_and, Bool, true, false, if◌then◌else◌,
}

-- BUF_CAP
abbrev pub buf_cap : ℕ
buf_cap = 32768

unfoldable pub put : List ℕ → List ℕ → Option (List ℕ)
put d src = if ltb buf_cap (length d + length src) then none else some (d ++ src)

unfoldable pub put_u8 : List ℕ → ℕ → Option (List ℕ)
put_u8 d v = put d (v ∷ [])

-- The bytes that `enc_len` writes to `out`.
unfoldable pub enc_len : ℕ → List ℕ
enc_len n =
    if ltb n 0x80
    then n % 2 ^ 8 ∷ []
    else if ltb n 0x100
    then 0x81 ∷ n % 2 ^ 8 ∷ []
    else 0x82 ∷ n / 2 ^ 8 % 2 ^ 8 ∷ n % 2 ^ 8 ∷ []

unfoldable pub tlv : List ℕ → ℕ → List ℕ → Option (List ℕ)
tlv out tag val = do out₁ ← put_u8 out tag; out₂ ← put out₁ (enc_len (length val)); put out₂ val

unfoldable pub seq : List ℕ → List ℕ → Option (List ℕ)
seq out inner = tlv out 0x30 inner

unfoldable pub set : List ℕ → List ℕ → Option (List ℕ)
set out inner = tlv out 0x31 inner

unfoldable pub oid : List ℕ → List ℕ → Option (List ℕ)
oid out val = tlv out 0x06 val

unfoldable pub nullv : List ℕ → Option (List ℕ)
nullv out = put out (0x05 ∷ 0x00 ∷ [])

-- `b` after the branches of `integer_small`; v is an `unsigned`.
unfoldable pub integer_bytes : ℕ → List ℕ
integer_bytes v =
    if leb v 0x7f
    then v % 2 ^ 8 ∷ []
    else if leb v 0xff
    then 0x00 ∷ v % 2 ^ 8 ∷ []
    else if bit_and (v / 2 ^ 8 % 2 ^ 8) 0x80 != 0
    then 0x00 ∷ v / 2 ^ 8 % 2 ^ 8 ∷ v % 2 ^ 8 ∷ []
    else v / 2 ^ 8 % 2 ^ 8 ∷ v % 2 ^ 8 ∷ []

unfoldable pub integer_small : List ℕ → ℕ → Option (List ℕ)
integer_small out v = tlv out 0x02 (integer_bytes v)

unfoldable pub boolean : List ℕ → Bool → Option (List ℕ)
boolean out v = tlv out 0x01 ((if v then 0xff else 0x00) ∷ [])

unfoldable pub octet_string : List ℕ → List ℕ → Option (List ℕ)
octet_string out val = tlv out 0x04 val

unfoldable pub bit_string_raw : List ℕ → ℕ → List ℕ → Option (List ℕ)
bit_string_raw out unused val = do tmp ← put_u8 [] unused; tmp' ← put tmp val; tlv out 0x03 tmp'

unfoldable pub bit_string : List ℕ → List ℕ → Option (List ℕ)
bit_string out val = do tmp ← put_u8 [] 0x00; tmp' ← put tmp val; tlv out 0x03 tmp'
