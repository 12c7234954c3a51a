-- ===== src/Pki/Certificate/Encoded.antt =====
-- The parts of the certificates of tools/gen_hawk_pki.c as elements in the distinguished encoding, each
-- with the call that writes it.
use assessing_pq_mqtt_m_tls.Common.{
  ℕ, ◌+◌, ◌≤◌, ◌≡◌, refl, List, [], ◌∷◌, ◌++◌, Option, some, Bool, true, false, length, arith,
  length-append, if◌then◌else◌,
}
use assessing_pq_mqtt_m_tls.Pki.Der.{
  put, put_u8, enc_len, tlv, seq, set, oid, nullv, boolean, octet_string, bit_string_raw, buf_cap,
}
use assessing_pq_mqtt_m_tls.Pki.Der.Written.{element}
use assessing_pq_mqtt_m_tls.Pki.Der.Fits.{tlv_fits, bit_string_fits, length-element}
use assessing_pq_mqtt_m_tls.Pki.Certificate.{
  Tm, oid_cn, oid_basic_constraints, oid_key_usage, oid_ext_key_usage, oid_subject_alt_name,
  oid_server_auth, oid_client_auth, broker_dns, alg_id, name_cn, time_text, extension,
  basic_constraints_value, key_usage_value, eku_value, san_value, v3_extensions, generalized_time,
  validity, spki,
}
use assessing_pq_mqtt_m_tls.Pki.Certificate.Key.{hawk_algorithm}

pub alg_id_fits :
    (out : List ℕ)
    → length out + 18 ≤ buf_cap
    → alg_id out ≡ some (out ++ element 0x30 hawk_algorithm)
unfolding alg_id oid nullv tlv put put_u8 enc_len seq
alg_id_fits out h = tlv_fits out 0x30 hawk_algorithm (omega arith)

-- A distinguished name of one attribute, the common name.
abbrev pub attribute : List ℕ → List ℕ
attribute cn = element 0x06 oid_cn ++ element 0x13 cn

unfoldable pub name : List ℕ → List ℕ
name cn = element 0x30 (element 0x31 (element 0x30 (attribute cn)))

pub length-name :
    (cn : List ℕ)
    → (length (attribute cn) ≤ length cn + 9)
      × (length (element 0x30 (attribute cn)) ≤ length cn + 13)
      × (length (element 0x31 (element 0x30 (attribute cn))) ≤ length cn + 17)
      × (length (name cn) ≤ length cn + 21)
unfolding name enc_len
length-name cn =
    let a = length-append (element 0x06 oid_cn) (element 0x13 cn) in
    let b = (length-element 0x13 cn).0 in
    let c = (length-element 0x30 (attribute cn)).0 in
    let d = (length-element 0x31 (element 0x30 (attribute cn))).0 in
    let e = (length-element 0x30 (element 0x31 (element 0x30 (attribute cn)))).0 in
    (omega arith, omega arith, omega arith, omega arith)

pub name_cn_fits :
    (out cn : List ℕ)
    → length out + length cn + 30 ≤ buf_cap
    → name_cn out cn ≡ some (out ++ name cn)
unfolding name_cn name seq set oid
name_cn_fits out cn h =
    let (a, b, c, _) = length-name cn in
    rw
      (
        tlv_fits [] 0x06 oid_cn (omega arith),
        tlv_fits (element 0x06 oid_cn) 0x13 cn (unfold enc_len in omega arith),
        tlv_fits [] 0x30 (attribute cn) (omega arith),
        tlv_fits [] 0x31 (element 0x30 (attribute cn)) (omega arith),
      )
      (tlv_fits out 0x30 (element 0x31 (element 0x30 (attribute cn))) (omega arith))

module _ (gmtime : ℕ → Tm) (sign : List ℕ → List ℕ → Option (List ℕ)) where
  -- GeneralizedTime
  abbrev pub moment : ℕ → List ℕ
  moment t = element 0x18 (time_text (gmtime t))

  unfoldable pub period : ℕ → ℕ → List ℕ
  period nb na = element 0x30 (moment nb ++ moment na)

  pub length-period : (nb na : ℕ) → length (period nb na) ≤ 38
  unfolding period time_text enc_len
  length-period nb na = omega arith

  generalized_time_fits :
      (out : List ℕ) (t : ℕ)
      → length out + 19 ≤ buf_cap
      → generalized_time gmtime sign out t ≡ some (out ++ moment t)
  unfolding generalized_time time_text
  generalized_time_fits out t h = tlv_fits out 0x18 (time_text (gmtime t)) (omega arith)

  length-moment : (t : ℕ) → length (moment t) ≡ 17
  unfolding time_text enc_len
  length-moment t = refl

  pub validity_fits :
      (out : List ℕ) (nb na : ℕ)
      → length out + 40 ≤ buf_cap
      → validity gmtime sign out nb na ≡ some (out ++ period nb na)
  unfolding validity seq period
  validity_fits out nb na h =
      let a = length-moment nb in
      let b = length-moment na in
      let c = length-append (moment nb) (moment na) in
      rw
        (
          generalized_time_fits [] nb (omega arith),
          generalized_time_fits (moment nb) na (omega arith),
        )
        (tlv_fits out 0x30 (moment nb ++ moment na) (omega arith))

-- SubjectPublicKeyInfo
unfoldable pub key_info : List ℕ → List ℕ
key_info public = element 0x30 (element 0x30 hawk_algorithm ++ element 0x03 (0x00 ∷ public))

pub length-key_info :
    (public : List ℕ)
    → (length (element 0x30 hawk_algorithm ++ element 0x03 (0x00 ∷ public)) ≤ length public + 21)
      × (length (key_info public) ≤ length public + 25)
unfolding key_info enc_len
length-key_info public =
    let a = length-append (element 0x30 hawk_algorithm) (element 0x03 (0x00 ∷ public)) in
    let b = (length-element 0x03 (0x00 ∷ public)).0 in
    let c = (length-element 0x30 (element 0x30 hawk_algorithm ++ element 0x03 (0x00 ∷ public))).0 in
    (omega arith, omega arith)

pub spki_fits :
    (out public : List ℕ)
    → length out + length public + 30 ≤ buf_cap
    → spki out public ≡ some (out ++ key_info public)
unfolding spki seq
spki_fits out public h =
    let (a, _) = length-key_info public in
    rw
      (
        alg_id_fits [] (omega arith),
        bit_string_fits (element 0x30 hawk_algorithm) public (unfold enc_len in omega arith),
      )
      (unfold key_info in
        tlv_fits out 0x30 (element 0x30 hawk_algorithm ++ element 0x03 (0x00 ∷ public))
          (omega arith))

-- An extension's criticality is written only where it is critical.
abbrev pub criticality : Bool → List ℕ
criticality critical = if critical then element 0x01 (0xff ∷ []) else []

abbrev pub extension_of : List ℕ → Bool → List ℕ → List ℕ
extension_of id critical value =
    element 0x30 (element 0x06 id ++ (criticality critical ++ element 0x04 value))

abbrev pub no_authority : List ℕ
no_authority = element 0x30 (element 0x01 (0x00 ∷ []))

abbrev pub authority : List ℕ
authority = element 0x30 (element 0x01 (0xff ∷ []))

abbrev pub broker_names : List ℕ
broker_names = element 0x30 (element 0x82 broker_dns ++ element 0x87 (192 ∷ 168 ∷ 1 ∷ 50 ∷ []))

-- Who a certificate is for: an authority, the broker or a client.
abbrev pub extension_list : Bool → Bool → List ℕ
extension_list is_ca is_server =
    extension_of oid_basic_constraints true (if is_ca then authority else no_authority)
    ++ (extension_of oid_key_usage true
          (element 0x03 (if is_ca then 1 ∷ 0x06 ∷ [] else 7 ∷ 0x80 ∷ []))
        ++ ((if is_ca
              then []
              else extension_of oid_ext_key_usage false (
                  element 0x30
                    (element 0x06 (if is_server then oid_server_auth else oid_client_auth))))
            ++ (if is_server then extension_of oid_subject_alt_name false broker_names else [])))

unfoldable pub extensions : Bool → Bool → List ℕ
extensions is_ca is_server = element 0xa3 (element 0x30 (extension_list is_ca is_server))

pub length-extensions : (is_ca is_server : Bool) → length (extensions is_ca is_server) ≤ 140
unfolding extensions enc_len
length-extensions true true = omega arith
length-extensions true false = omega arith
length-extensions false true = omega arith
length-extensions false false = omega arith

pub v3_extensions_fits :
    (out : List ℕ) (is_ca is_server : Bool)
    → length out + 150 ≤ buf_cap
    → v3_extensions out is_ca is_server ≡ some (out ++ extensions is_ca is_server)
unfolding v3_extensions extensions san_value eku_value key_usage_value basic_constraints_value
    extension oid octet_string bit_string_raw boolean seq tlv put_u8 put enc_len
v3_extensions_fits out true true h =
    tlv_fits out 0xa3 (element 0x30 (extension_list true true)) (omega arith)
v3_extensions_fits out true false h =
    tlv_fits out 0xa3 (element 0x30 (extension_list true false)) (omega arith)
v3_extensions_fits out false true h =
    tlv_fits out 0xa3 (element 0x30 (extension_list false true)) (omega arith)
v3_extensions_fits out false false h =
    tlv_fits out 0xa3 (element 0x30 (extension_list false false)) (omega arith)
