-- ===== src/Pki/Certificate/Fields.antt =====
-- The parts of a certificate of tools/gen_hawk_pki.c, read back one by one.
use assessing_pq_mqtt_m_tls.Common.{
  ℕ, ◌+◌, ◌-◌, ◌/◌, ◌%◌, ◌^◌, ◌≤◌, ◌<◌, ◌≡◌, refl, ap, List, [], ◌∷◌, ◌++◌, Option, some, Bool,
  true, false, length, arith, length-append, take-append, if◌then◌else◌,
}
use assessing_pq_mqtt_m_tls.Pki.Der.{enc_len, integer_bytes, buf_cap}
use assessing_pq_mqtt_m_tls.Pki.Der.Format.{read_len, read_tlv}
use assessing_pq_mqtt_m_tls.Pki.Der.Integer.{read_natural, read_natural-integer_bytes}
use assessing_pq_mqtt_m_tls.Pki.Der.Written.{element, read_tlv-element}
use assessing_pq_mqtt_m_tls.Pki.Der.Fits.{length-integer_bytes}
use assessing_pq_mqtt_m_tls.Pki.Certificate.{
  Tm, digit, time_text, oid_cn, oid_basic_constraints, oid_key_usage, oid_ext_key_usage,
  oid_subject_alt_name, oid_server_auth, oid_client_auth,
}
use assessing_pq_mqtt_m_tls.Pki.Certificate.Key.{
  expect, expect-element, expect-element_last, hawk_algorithm,
}
use assessing_pq_mqtt_m_tls.Pki.Certificate.Encoded.{
  attribute, name, length-name, moment, period, key_info, length-key_info, authority, no_authority,
  broker_names, extensions,
}
use assessing_pq_mqtt_m_tls.Pki.Certificate.Reader.{
  Extension, only, raw_element, read_two, read_time, read_name, read_period, read_octet_bits,
  read_key, read_flag, read_extension, read_extension_list, read_extensions, read_version,
  read_number,
}

pub only-element :
    (tag : ℕ) (val : List ℕ) → length val ≤ buf_cap → only tag (element tag val) ≡ some val
unfolding only
only-element tag val h = rw (expect-element_last tag val h)

pub raw_element-element :
    (tag : ℕ) (val rest : List ℕ)
    → length val ≤ buf_cap
    → raw_element (element tag val ++ rest) ≡ some (element tag val)
unfolding raw_element
raw_element-element tag val rest h =
    let e = element tag val in
    let n : length (e ++ rest) - length rest ≡ length e =
      omega (arith, length-append (element tag val) rest) in
    rw (read_tlv-element tag val rest (omega arith))
      (rw n (ap some (take-append (element tag val) rest)))

pub read_two-two_digits : (n : ℕ) → read_two (digit (n / 10)) (digit n) ≡ some (n % 100)
unfolding read_two
read_two-two_digits n = ground arith

-- The ranges in which the text of a time has its width.
pub record IsShown (t : Tm) : Type 0 where
  pub year_fits : t.tm_year + 1900 < 10000
  pub month_fits : t.tm_mon < 12
  pub day_fits : t.tm_mday < 100
  pub hour_fits : t.tm_hour < 100
  pub minute_fits : t.tm_min < 100
  pub second_fits : t.tm_sec < 100

pub read_time-time_text : (t : Tm) → IsShown t → read_time (time_text t) ≡ some t
unfolding read_time time_text
read_time-time_text t s =
    rw
      (
        read_two-two_digits ((t.tm_year + 1900) / 100),
        read_two-two_digits (t.tm_year + 1900),
        read_two-two_digits (t.tm_mon + 1),
        read_two-two_digits t.tm_mday,
        read_two-two_digits t.tm_hour,
        read_two-two_digits t.tm_min,
        read_two-two_digits t.tm_sec,
      )
      (ap some (ground arith))

pub read_name-name :
    (cn rest : List ℕ) → length cn + 30 ≤ buf_cap → read_name (name cn ++ rest) ≡ some (cn, rest)
unfolding read_name name
read_name-name cn rest h =
    let (a, b, c, _) = length-name cn in
    rw (
      expect-element 0x30 (element 0x31 (element 0x30 (attribute cn))) rest (omega arith),
      only-element 0x31 (element 0x30 (attribute cn)) (omega arith),
      only-element 0x30 (attribute cn) (omega arith),
      expect-element 0x06 oid_cn (element 0x13 cn) (omega arith),
      only-element 0x13 cn (omega arith),
    )

pub read_period-period :
    (gmtime : ℕ → Tm) (sign : List ℕ → List ℕ → Option (List ℕ)) (nb na : ℕ) (rest : List ℕ)
    → IsShown (gmtime nb)
    → IsShown (gmtime na)
    → read_period (period gmtime sign nb na ++ rest) ≡ some (gmtime nb, gmtime na, rest)
unfolding read_period period
read_period-period gmtime sign nb na rest sb sa = rw (
  expect-element 0x30 (moment gmtime sign nb ++ moment gmtime sign na) rest
      (unfold time_text enc_len in omega arith),
  expect-element 0x18 (time_text (gmtime nb)) (moment gmtime sign na)
      (unfold time_text in omega arith),
  only-element 0x18 (time_text (gmtime na)) (unfold time_text in omega arith),
  read_time-time_text (gmtime nb) sb,
  read_time-time_text (gmtime na) sa,
)

pub read_key-key_info :
    (public rest : List ℕ)
    → length public + 40 ≤ buf_cap
    → read_key (key_info public ++ rest) ≡ some (hawk_algorithm, public, rest)
unfolding read_key key_info read_octet_bits enc_len
read_key-key_info public rest h =
    let (a, _) = length-key_info public in
    rw (
      expect-element 0x30 (element 0x30 hawk_algorithm ++ element 0x03 (0x00 ∷ public)) rest
          (omega arith),
      expect-element 0x30 hawk_algorithm (element 0x03 (0x00 ∷ public)) (omega arith),
      only-element 0x03 (0x00 ∷ public) (omega arith),
    )

-- The version field [0] of an X.509 v3 certificate.
abbrev pub version_field : List ℕ
version_field = element 0xa0 (element 0x02 (0x02 ∷ []))

pub read_version-version_field :
    (rest : List ℕ) → read_version (version_field ++ rest) ≡ some (2, rest)
unfolding read_version expect only read_tlv read_len read_natural enc_len
read_version-version_field rest =
    rw (expect-element 0xa0 (element 0x02 (0x02 ∷ [])) rest (unfold enc_len in omega arith)) refl

pub read_number-integer_bytes :
    (v : ℕ) (rest : List ℕ)
    → v < 2 ^ 16
    → read_number (element 0x02 (integer_bytes v) ++ rest) ≡ some (v, rest)
unfolding read_number
read_number-integer_bytes v rest h = rw (
  expect-element 0x02 (integer_bytes v) rest (omega (arith, length-integer_bytes v)),
  read_natural-integer_bytes v h,
)

abbrev pub extension_entry : List ℕ → Bool → List ℕ → Extension
extension_entry id critical value = record { id = id; critical = critical; value = value }

-- What a certificate of an authority, of the broker and of a client have as extensions: the first two
-- of them are critical.
abbrev pub profile : Bool → Bool → List Extension
profile is_ca is_server =
    extension_entry oid_basic_constraints true (if is_ca then authority else no_authority)
    ∷ extension_entry oid_key_usage true
        (element 0x03 (if is_ca then 1 ∷ 0x06 ∷ [] else 7 ∷ 0x80 ∷ []))
    ∷ ((if is_ca
          then []
          else extension_entry oid_ext_key_usage false
              (element 0x30 (element 0x06 (if is_server then oid_server_auth else oid_client_auth)))
            ∷ [])
        ++ (if is_server then extension_entry oid_subject_alt_name false broker_names ∷ [] else []))

pub read_extensions-extensions :
    (is_ca is_server : Bool)
    → read_extensions (extensions is_ca is_server) ≡ some (profile is_ca is_server)
unfolding read_extensions extensions read_extension_list read_extension read_flag expect only
    read_tlv read_len enc_len
read_extensions-extensions true true = refl
read_extensions-extensions true false = refl
read_extensions-extensions false true = refl
read_extensions-extensions false false = refl
