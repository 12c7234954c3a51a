-- ===== src/Pki/Certificate/Bytes.antt =====
-- The ranges of what stands in the certificates of tools/gen_hawk_pki.c.
use assessing_pq_mqtt_m_tls.Common.{
  ℕ, ◌+◌, ◌/◌, ◌%◌, ◌^◌, ◌<◌, List, [], ◌∷◌, ◌++◌, Option, Bool, true, false, length, All-append,
  ltb, leb, bit_and, ◌!=◌, arith, if◌then◌else◌,
}
use assessing_pq_mqtt_m_tls.Pki.Der.{enc_len, integer_bytes}
use assessing_pq_mqtt_m_tls.Pki.Der.Written.{element}
use assessing_pq_mqtt_m_tls.Pki.Pem.RoundTrip.{IsBytes}
use assessing_pq_mqtt_m_tls.Pki.Certificate.{HawkKeypair, Tm, time_text, oid_cn}
use assessing_pq_mqtt_m_tls.Pki.Certificate.Encoded.{
  attribute, name, moment, period, key_info, extensions,
}
use assessing_pq_mqtt_m_tls.Pki.Certificate.Fields.{version_field}
use assessing_pq_mqtt_m_tls.Pki.Certificate.Writers.{algorithm_field, serial_field}
use assessing_pq_mqtt_m_tls.Pki.Certificate.Body.{ten_years, signed_body, signed_cert}

pub append-IsBytes : (xs ys : List ℕ) → IsBytes xs → IsBytes ys → IsBytes (xs ++ ys)
append-IsBytes xs ys p q = All-append (λ (b : ℕ). b < 256) xs ys p q

if-IsBytes : (b : Bool) (xs ys : List ℕ) → IsBytes xs → IsBytes ys → IsBytes (if b then xs else ys)
if-IsBytes true xs ys p q = p
if-IsBytes false xs ys p q = q

enc_len-IsBytes : (n : ℕ) → IsBytes (enc_len n)
unfolding enc_len
enc_len-IsBytes n =
    if-IsBytes (ltb n 0x80) _ _ (omega arith)
      (if-IsBytes (ltb n 0x100) _ _ (omega arith) (omega arith))

pub element-IsBytes : (tag : ℕ) (val : List ℕ) → tag < 256 → IsBytes val → IsBytes (element tag val)
element-IsBytes tag val t v =
    (t, append-IsBytes (enc_len (length val)) val (enc_len-IsBytes (length val)) v)

integer_bytes-IsBytes : (v : ℕ) → IsBytes (integer_bytes v)
unfolding integer_bytes
integer_bytes-IsBytes v = if-IsBytes (leb v 0x7f) _ _ (omega arith) (
    if-IsBytes (leb v 0xff) _ _ (omega arith)
      (if-IsBytes (bit_and (v / 2 ^ 8 % 2 ^ 8) 0x80 != 0) _ _ (omega arith) (omega arith)))

name-IsBytes : (cn : List ℕ) → IsBytes cn → IsBytes (name cn)
unfolding name enc_len
name-IsBytes cn h =
    element-IsBytes 0x30 (element 0x31 (element 0x30 (attribute cn))) (omega arith) (
      element-IsBytes 0x31 (element 0x30 (attribute cn)) (omega arith) (
        element-IsBytes 0x30 (attribute cn) (omega arith) (
          append-IsBytes (element 0x06 oid_cn) (element 0x13 cn) (omega arith)
            (element-IsBytes 0x13 cn (omega arith) h))))

time_text-IsBytes : (t : Tm) → IsBytes (time_text t)
unfolding time_text
time_text-IsBytes t = omega arith

key_info-IsBytes : (public : List ℕ) → IsBytes public → IsBytes (key_info public)
unfolding key_info enc_len
key_info-IsBytes public h =
    element-IsBytes 0x30 (algorithm_field ++ element 0x03 (0x00 ∷ public)) (omega arith) (
      append-IsBytes algorithm_field (element 0x03 (0x00 ∷ public)) (omega arith)
        (element-IsBytes 0x03 (0x00 ∷ public) (omega arith) (omega arith, h)))

extensions-IsBytes : (is_ca is_server : Bool) → IsBytes (extensions is_ca is_server)
unfolding extensions enc_len
extensions-IsBytes true true = omega arith
extensions-IsBytes true false = omega arith
extensions-IsBytes false true = omega arith
extensions-IsBytes false false = omega arith

module _ (gmtime : ℕ → Tm) (sign : List ℕ → List ℕ → Option (List ℕ)) where
  period-IsBytes : (nb na : ℕ) → IsBytes (period gmtime sign nb na)
  unfolding period
  period-IsBytes nb na =
      element-IsBytes 0x30 (moment gmtime sign nb ++ moment gmtime sign na) (omega arith) (
        append-IsBytes (moment gmtime sign nb) (moment gmtime sign na)
          (element-IsBytes 0x18 (time_text (gmtime nb)) (omega arith)
            (time_text-IsBytes (gmtime nb)))
          (element-IsBytes 0x18 (time_text (gmtime na)) (omega arith)
            (time_text-IsBytes (gmtime na))))

  signed_body-IsBytes :
      (now serial : ℕ) (issuer_cn subject_cn : List ℕ) (subject_key : HawkKeypair)
      (is_ca is_server : Bool)
      → IsBytes issuer_cn
      → IsBytes subject_cn
      → IsBytes subject_key.public
      → IsBytes
          (signed_body gmtime sign now serial issuer_cn subject_cn subject_key is_ca is_server)
  unfolding signed_body
  signed_body-IsBytes now serial issuer_cn subject_cn subject_key is_ca is_server p q r =
      append-IsBytes version_field _ (unfold enc_len in omega arith) (
        append-IsBytes (serial_field serial) _
          (element-IsBytes 0x02 (integer_bytes serial) (omega arith) (integer_bytes-IsBytes serial))
          (append-IsBytes algorithm_field _ (unfold enc_len in omega arith) (
            append-IsBytes (name issuer_cn) _ (name-IsBytes issuer_cn p) (
              append-IsBytes (period gmtime sign now (now + ten_years)) _
                (period-IsBytes now (now + ten_years))
                (append-IsBytes (name subject_cn) _ (name-IsBytes subject_cn q) (
                  append-IsBytes (key_info subject_key.public) _
                    (key_info-IsBytes subject_key.public r)
                    (extensions-IsBytes is_ca is_server)))))))

  pub signed_cert-IsBytes :
      (now serial : ℕ) (issuer_cn subject_cn : List ℕ) (subject_key : HawkKeypair)
      (is_ca is_server : Bool) (sig : List ℕ)
      → IsBytes issuer_cn
      → IsBytes subject_cn
      → IsBytes subject_key.public
      → IsBytes sig
      → IsBytes
          (signed_cert gmtime sign now serial issuer_cn subject_cn subject_key is_ca is_server sig)
  signed_cert-IsBytes now serial issuer_cn subject_cn subject_key is_ca is_server sig p q r s =
      let body =
        signed_body gmtime sign now serial issuer_cn subject_cn subject_key is_ca is_server in
      let bits = element 0x03 (0x00 ∷ sig) in
      element-IsBytes 0x30 (element 0x30 body ++ (algorithm_field ++ bits)) (omega arith) (
        append-IsBytes (element 0x30 body) (algorithm_field ++ bits)
          (element-IsBytes 0x30 body (omega arith)
            (signed_body-IsBytes now serial issuer_cn subject_cn subject_key is_ca is_server p q r))
          (append-IsBytes algorithm_field bits (unfold enc_len in omega arith)
            (element-IsBytes 0x03 (0x00 ∷ sig) (omega arith) (omega arith, s))))

-- The private key in its file.
abbrev pub key_document : HawkKeypair → List ℕ
key_document kp =
    element 0x30
      (element 0x02 (0x00 ∷ []) ++ (algorithm_field ++ element 0x04 (kp.priv ++ kp.public)))

pub key_document-IsBytes :
    (kp : HawkKeypair) → IsBytes kp.priv → IsBytes kp.public → IsBytes (key_document kp)
unfolding enc_len
key_document-IsBytes kp p q =
    let key = element 0x04 (kp.priv ++ kp.public) in
    element-IsBytes 0x30 (element 0x02 (0x00 ∷ []) ++ (algorithm_field ++ key)) (omega arith) (
      append-IsBytes (element 0x02 (0x00 ∷ [])) (algorithm_field ++ key) (omega arith) (
        append-IsBytes algorithm_field key (omega arith) (
          element-IsBytes 0x04 (kp.priv ++ kp.public) (omega arith)
            (append-IsBytes kp.priv kp.public p q))))
