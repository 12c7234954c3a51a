-- ===== src/Pki/Tests.antt =====
-- The theorems on keys and certificates at concrete inputs.
use assessing_pq_mqtt_m_tls.Common.{
  codes, ℕ, ◌+◌, ◌%◌, ◌≡◌, refl, List, [], ◌∷◌, Option, some, none, arith, length, true, false,
  replicate,
}
use assessing_pq_mqtt_m_tls.Pki.Der.{
  put, put_u8, enc_len, tlv, seq, set, oid, nullv, integer_small, integer_bytes, octet_string,
  bit_string, bit_string_raw, boolean,
}
use assessing_pq_mqtt_m_tls.Pki.Der.Written.{element}
use assessing_pq_mqtt_m_tls.Pki.Certificate.{
  HawkKeypair, Tm, broker_dns, alg_id, name_cn, time_text, extension, basic_constraints_value,
  key_usage_value, eku_value, san_value, v3_extensions, pkcs8, spki, generalized_time, validity,
  tbs_fields, make_tbs, sign_cert, make_cert,
}
use assessing_pq_mqtt_m_tls.Pki.Certificate.Fields.{IsShown}
use assessing_pq_mqtt_m_tls.Pki.Certificate.Reader.{read_certificate}
use assessing_pq_mqtt_m_tls.Pki.Certificate.Body.{ten_years, contents}
use assessing_pq_mqtt_m_tls.Pki.Certificate.Complete.{read_certificate-make_cert}
use assessing_pq_mqtt_m_tls.Pki.Pem.File.{read_pem, read_pem-write_pem}
use assessing_pq_mqtt_m_tls.Pki.Pem.{write_pem}

abbrev or_empty : Option (List ℕ) → List ℕ
or_empty none = []
or_empty (some bs) = bs

-- A value of 200 bytes, whose length takes the long form.
abbrev long_value : List ℕ
long_value = replicate 200 7

long_tlv : tlv (1 ∷ []) 0x04 long_value ≡ some (1 ∷ element 0x04 long_value)
unfolding tlv put put_u8 enc_len
long_tlv = refl

abbrev keys : HawkKeypair
keys = record { priv = 1 ∷ 2 ∷ 3 ∷ []; public = 4 ∷ 5 ∷ [] }

abbrev key_file : List ℕ
key_file = or_empty (pkcs8 [] keys)

key_file_whole : pkcs8 [] keys ≡ some key_file
unfolding pkcs8 integer_small integer_bytes alg_id oid nullv octet_string seq tlv put_u8 put enc_len
key_file_whole = refl

abbrev noon : ℕ → Tm
noon t = record {
  tm_year = 125;
  tm_mon = 5;
  tm_mday = 17;
  tm_hour = 12;
  tm_min = 0;
  tm_sec = t % 60;
}

-- A signature that depends on the key and on the length of what is signed.
abbrev toy_sign : List ℕ → List ℕ → Option (List ℕ)
toy_sign tbs priv = some (length tbs % 256 ∷ priv)

abbrev root : List ℕ
root = b'c' ∷ b'a' ∷ []

abbrev server_cert : List ℕ
server_cert = or_empty (make_cert noon toy_sign 30 [] 300 root keys broker_dns keys false true)

server_cert_whole :
    make_cert noon toy_sign 30 [] 300 root keys broker_dns keys false true ≡ some server_cert
unfolding make_cert make_tbs tbs_fields sign_cert validity generalized_time time_text spki
    v3_extensions san_value eku_value key_usage_value basic_constraints_value extension name_cn
    alg_id integer_small integer_bytes oid nullv octet_string bit_string bit_string_raw boolean seq
    set tlv put_u8 put enc_len
server_cert_whole = refl

noon-IsShown : (t : ℕ) → IsShown (noon t)
noon-IsShown t = omega arith

read_certificate-make_cert_example :
    (der tbs sig : List ℕ) × (make_tbs noon toy_sign 30 [] 300 root broker_dns keys false true
      ≡ some tbs)
    × (toy_sign tbs (1 ∷ 2 ∷ 3 ∷ []) ≡ some sig)
    × (make_cert noon toy_sign 30 [] 300 root keys broker_dns keys false true ≡ some der)
    × (read_certificate der
        ≡ some (contents noon toy_sign 30 300 root broker_dns keys false true tbs sig))
read_certificate-make_cert_example =
    read_certificate-make_cert noon toy_sign 30 300 root keys broker_dns keys false true
      (λ tbs. (length tbs % 256 ∷ 1 ∷ 2 ∷ 3 ∷ [], refl, omega arith)) (omega arith) (omega arith)
      (noon-IsShown 30) (noon-IsShown (30 + ten_years))

abbrev four_bytes : List ℕ
four_bytes = 48 ∷ 130 ∷ 255 ∷ 0 ∷ []

read_pem-write_pem_example :
    read_pem (codes "CERTIFICATE") (write_pem (codes "CERTIFICATE") four_bytes) ≡ some four_bytes
read_pem-write_pem_example =
    read_pem-write_pem (codes "CERTIFICATE") four_bytes
      (omega arith, (omega arith, (omega arith, (omega arith, tt))))
