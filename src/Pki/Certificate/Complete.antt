-- ===== src/Pki/Certificate/Complete.antt =====
-- `make_cert` of tools/gen_hawk_pki.c as a whole.
use assessing_pq_mqtt_m_tls.Common.{
  ℕ, ◌+◌, ◌^◌, ◌≤◌, ◌<◌, ◌≡◌, List, [], Option, some, Bool, length, arith,
}
use assessing_pq_mqtt_m_tls.Pki.Der.Written.{element}
use assessing_pq_mqtt_m_tls.Pki.Certificate.{HawkKeypair, Tm, make_tbs, make_cert}
use assessing_pq_mqtt_m_tls.Pki.Certificate.Encoded.{}
use assessing_pq_mqtt_m_tls.Pki.Certificate.Reader.{read_certificate}
use assessing_pq_mqtt_m_tls.Pki.Certificate.Fields.{IsShown}
use assessing_pq_mqtt_m_tls.Pki.Certificate.Writers.{}
use assessing_pq_mqtt_m_tls.Pki.Certificate.Body.{
  ten_years, signed_body, make_tbs_fits, signed_cert, contents, sign_cert_fits,
  read_certificate-signed_cert,
}

pub make_cert_fits :
    (gmtime : ℕ → Tm) (sign : List ℕ → List ℕ → Option (List ℕ)) (now serial : ℕ)
    (issuer_cn : List ℕ) (issuer_key : HawkKeypair) (subject_cn : List ℕ)
    (subject_key : HawkKeypair) (is_ca is_server : Bool) (sig : List ℕ)
    → sign
        (element 0x30
          (signed_body gmtime sign now serial issuer_cn subject_cn subject_key is_ca is_server))
        issuer_key.priv
      ≡ some sig
    → length issuer_cn + length subject_cn + length subject_key.public + length sig ≤ 31000
    → make_cert gmtime sign now [] serial issuer_cn issuer_key subject_cn subject_key is_ca
        is_server
      ≡ some
          (signed_cert gmtime sign now serial issuer_cn subject_cn subject_key is_ca is_server sig)
unfolding make_cert
make_cert_fits gmtime sign now serial issuer_cn issuer_key subject_cn subject_key is_ca is_server
      sig s l =
    rw
      (make_tbs_fits gmtime sign now serial issuer_cn subject_cn subject_key is_ca is_server
        (omega arith))
      (sign_cert_fits gmtime sign now serial issuer_cn subject_cn subject_key is_ca is_server
        issuer_key sig s (omega arith))

-- Where HAWK signs, with at most 1000 bytes, and the names and the key have at most 30000 bytes
-- together, `make_cert` succeeds. A reader of X.509 finds in the certificate: version 3, the serial
-- number, the two names, the ten years that begin now, the subject's key, HAWK as the algorithm of both
-- the key and the signature, and the extensions of an authority, of the broker or of a client; and a
-- signature that HAWK made with the issuer's key over the very bytes that are signed. The serial number
-- is below 2¹⁶ and the years have four digits.
pub read_certificate-make_cert :
    (gmtime : ℕ → Tm) (sign : List ℕ → List ℕ → Option (List ℕ)) (now serial : ℕ)
    (issuer_cn : List ℕ) (issuer_key : HawkKeypair) (subject_cn : List ℕ)
    (subject_key : HawkKeypair) (is_ca is_server : Bool)
    → ((tbs : List ℕ)
        → (sig : List ℕ) × (sign tbs issuer_key.priv ≡ some sig) × (length sig ≤ 1000))
    → length issuer_cn + length subject_cn + length subject_key.public ≤ 30000
    → serial < 2 ^ 16
    → IsShown (gmtime now)
    → IsShown (gmtime (now + ten_years))
    → (der tbs sig : List ℕ) × (make_tbs gmtime sign now [] serial issuer_cn subject_cn subject_key
          is_ca is_server
        ≡ some tbs)
      × (sign tbs issuer_key.priv ≡ some sig)
      × (make_cert gmtime sign now [] serial issuer_cn issuer_key subject_cn subject_key is_ca
            is_server
          ≡ some der)
      × (read_certificate der
          ≡ some (
              contents gmtime sign now serial issuer_cn subject_cn subject_key is_ca is_server tbs
                sig))
read_certificate-make_cert gmtime sign now serial issuer_cn issuer_key subject_cn subject_key is_ca
      is_server signs l n b e =
    let body =
      signed_body gmtime sign now serial issuer_cn subject_cn subject_key is_ca is_server in
    let (sig, s, k) = signs (element 0x30 body) in
    (
      signed_cert gmtime sign now serial issuer_cn subject_cn subject_key is_ca is_server sig,
      element 0x30 body,
      sig,
      make_tbs_fits gmtime sign now serial issuer_cn subject_cn subject_key is_ca is_server
          (omega arith),
      s,
      make_cert_fits gmtime sign now serial issuer_cn issuer_key subject_cn subject_key is_ca
          is_server sig s (omega arith),
      read_certificate-signed_cert gmtime sign now serial issuer_cn subject_cn subject_key is_ca
          is_server (omega arith) n b e sig (omega arith),
    )
