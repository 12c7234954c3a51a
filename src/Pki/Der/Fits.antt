-- ===== src/Pki/Der/Fits.antt =====
-- The DER writer of tools/gen_hawk_pki.c where its buffers have room: what each call appends.
use assessing_pq_mqtt_m_tls.Common.{
  ℕ, ◌+◌, ◌≤◌, ◌≡◌, ap, ◌∙◌, List, [], ◌∷◌, ◌++◌, some, length, arith, length-append, append_assoc,
}
use assessing_pq_mqtt_m_tls.Pki.Der.{put, put_u8, enc_len, tlv, integer_bytes, bit_string, buf_cap}
use assessing_pq_mqtt_m_tls.Pki.Der.Written.{element}

pub put_fits : (d src : List ℕ) → length d + length src ≤ buf_cap → put d src ≡ some (d ++ src)
unfolding put
put_fits d src h = ground arith

pub length-enc_len : (n : ℕ) → length (enc_len n) ≤ 3
unfolding enc_len
length-enc_len n = ground arith

-- Tag and length take at most four bytes.
pub length-element :
    (tag : ℕ) (val : List ℕ)
    → (length (element tag val) ≤ length val + 4) × (length val ≤ length (element tag val))
length-element tag val =
    let l = length-enc_len (length val) in
    let a = length-append (enc_len (length val)) val in (omega arith, omega arith)

pub tlv_fits :
    (out : List ℕ) (tag : ℕ) (val : List ℕ)
    → length out + length val + 4 ≤ buf_cap
    → tlv out tag val ≡ some (out ++ element tag val)
unfolding tlv put_u8
tlv_fits out tag val h =
    let l = length-enc_len (length val) in
    let a = length-append out (tag ∷ []) in
    let b = length-append (out ++ (tag ∷ [])) (enc_len (length val)) in
    rw
      (
        put_fits out (tag ∷ []) (omega arith),
        put_fits (out ++ (tag ∷ [])) (enc_len (length val)) (omega arith),
        put_fits ((out ++ (tag ∷ [])) ++ enc_len (length val)) val (omega arith),
      )
      (ap some (
        append_assoc (out ++ (tag ∷ [])) (enc_len (length val)) val
        ∙ append_assoc out (tag ∷ []) (enc_len (length val) ++ val)))

pub bit_string_fits :
    (out val : List ℕ)
    → length out + length val + 5 ≤ buf_cap
    → bit_string out val ≡ some (out ++ element 0x03 (0x00 ∷ val))
unfolding bit_string put_u8
bit_string_fits out val h =
    rw (put_fits [] (0x00 ∷ []) (omega arith), put_fits (0x00 ∷ []) val (omega arith))
      (tlv_fits out 0x03 (0x00 ∷ val) (omega arith))

pub length-integer_bytes : (v : ℕ) → length (integer_bytes v) ≤ 3
unfolding integer_bytes
length-integer_bytes v = ground arith
