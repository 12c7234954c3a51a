-- ===== src/Pki/Certificate.antt =====
-- Certificates and keys of tools/gen_hawk_pki.c. What the program takes from elsewhere is a
-- parameter: `gmtime_r` and `time`, the HAWK sizes, and HAWK signing.
pub mod Key
pub mod Signed
pub mod Encoded
pub mod Reader
pub mod Fields
pub mod Writers
pub mod Body
pub mod Complete
pub mod Chain
pub mod Bytes
use assessing_pq_mqtt_m_tls.Common.{
  ◌>>=◌, ℕ, ◌+◌, ◌*◌, ◌/◌, ◌%◌, List, [], ◌∷◌, ◌++◌, Option, some, none, Bool, true, false, not,
  take, if◌then◌else◌,
}
use assessing_pq_mqtt_m_tls.Pki.Der.{
  put, tlv, seq, set, oid, nullv, integer_small, boolean, octet_string, bit_string, bit_string_raw,
}

abbrev pub oid_hawk : List ℕ
oid_hawk = 0x2b ∷ 0x06 ∷ 0x01 ∷ 0x04 ∷ 0x01 ∷ 0x86 ∷ 0x8d ∷ 0x1f ∷ 0x01 ∷ 0x01 ∷ []

abbrev pub oid_cn : List ℕ
oid_cn = 0x55 ∷ 0x04 ∷ 0x03 ∷ []

abbrev pub oid_basic_constraints : List ℕ
oid_basic_constraints = 0x55 ∷ 0x1d ∷ 0x13 ∷ []

abbrev pub oid_key_usage : List ℕ
oid_key_usage = 0x55 ∷ 0x1d ∷ 0x0f ∷ []

abbrev pub oid_ext_key_usage : List ℕ
oid_ext_key_usage = 0x55 ∷ 0x1d ∷ 0x25 ∷ []

abbrev pub oid_subject_alt_name : List ℕ
oid_subject_alt_name = 0x55 ∷ 0x1d ∷ 0x11 ∷ []

abbrev pub oid_server_auth : List ℕ
oid_server_auth = 0x2b ∷ 0x06 ∷ 0x01 ∷ 0x05 ∷ 0x05 ∷ 0x07 ∷ 0x03 ∷ 0x01 ∷ []

abbrev pub oid_client_auth : List ℕ
oid_client_auth = 0x2b ∷ 0x06 ∷ 0x01 ∷ 0x05 ∷ 0x05 ∷ 0x07 ∷ 0x03 ∷ 0x02 ∷ []

-- `hawk_keypair`
pub record HawkKeypair : Type 0 where
  pub priv : List ℕ
  pub public : List ℕ

-- `struct tm`, in the ranges that `gmtime_r` gives, with a year below 10000.
pub record Tm : Type 0 where
  pub tm_year : ℕ
  pub tm_mon : ℕ
  pub tm_mday : ℕ
  pub tm_hour : ℕ
  pub tm_min : ℕ
  pub tm_sec : ℕ

unfoldable pub alg_id : List ℕ → Option (List ℕ)
alg_id out = do inner ← oid [] oid_hawk; inner' ← nullv inner; seq out inner'

unfoldable pub name_cn : List ℕ → List ℕ → Option (List ℕ)
name_cn out cn = do
  atv ← oid [] oid_cn
  atv' ← tlv atv 0x13 cn
  rdn ← seq [] atv'
  name ← set [] rdn
  seq out name

-- `%02d` and `%04d`
abbrev pub digit : ℕ → ℕ
digit n = b'0' + n % 10

abbrev pub two_digits : ℕ → List ℕ
two_digits n = digit (n / 10) ∷ digit n ∷ []

abbrev pub four_digits : ℕ → List ℕ
four_digits n = two_digits (n / 100) ++ two_digits n

unfoldable pub time_text : Tm → List ℕ
time_text t =
    four_digits (t.tm_year + 1900)
    ++ (two_digits (t.tm_mon + 1)
        ++ (two_digits t.tm_mday
            ++ (two_digits t.tm_hour
                ++ (two_digits t.tm_min ++ (two_digits t.tm_sec ++ (b'Z' ∷ []))))))

unfoldable pub extension : List ℕ → List ℕ → Bool → List ℕ → Option (List ℕ)
extension out oidv critical value = do
  inner ← oid [] oidv
  inner' ← if critical then boolean inner true else some inner
  inner'' ← octet_string inner' value
  seq out inner''

unfoldable pub basic_constraints_value : List ℕ → Bool → Option (List ℕ)
basic_constraints_value out is_ca = do inner ← boolean [] is_ca; seq out inner

unfoldable pub key_usage_value : List ℕ → Bool → Option (List ℕ)
key_usage_value out is_ca =
    if is_ca then bit_string_raw out 1 (0x06 ∷ []) else bit_string_raw out 7 (0x80 ∷ [])

unfoldable pub eku_value : List ℕ → Bool → Option (List ℕ)
eku_value out server_auth = do
  inner ← oid [] (if server_auth then oid_server_auth else oid_client_auth)
  seq out inner

abbrev pub broker_dns : List ℕ
broker_dns =
    b'p' ∷ b'i' ∷ b'c' ∷ b'o' ∷ b'-' ∷ b'm' ∷ b'q' ∷ b't' ∷ b't' ∷ b'-' ∷ b'b' ∷ b'r' ∷ b'o' ∷ b'k'
    ∷ b'e' ∷ b'r' ∷ []

unfoldable pub san_value : List ℕ → Option (List ℕ)
san_value out = do
  inner ← tlv [] 0x82 broker_dns
  inner' ← tlv inner 0x87 (192 ∷ 168 ∷ 1 ∷ 50 ∷ [])
  seq out inner'

-- The two optional extensions.
abbrev pub add_eku : List ℕ → Bool → Bool → Option (List ℕ)
add_eku all is_ca is_server =
    if not is_ca
    then (eku_value [] is_server >>= λ val. extension all oid_ext_key_usage false val)
    else some all

abbrev pub add_san : List ℕ → Bool → Option (List ℕ)
add_san all is_server =
    if is_server
    then (san_value [] >>= λ val. extension all oid_subject_alt_name false val)
    else some all

unfoldable pub v3_extensions : List ℕ → Bool → Bool → Option (List ℕ)
v3_extensions out is_ca is_server = do
  val₁ ← basic_constraints_value [] is_ca
  all₁ ← extension [] oid_basic_constraints true val₁
  val₂ ← key_usage_value [] is_ca
  all₂ ← extension all₁ oid_key_usage true val₂
  all₃ ← add_eku all₂ is_ca is_server
  all₄ ← add_san all₃ is_server
  seqbuf ← seq [] all₄
  tlv out 0xa3 seqbuf

unfoldable pub pkcs8 : List ℕ → HawkKeypair → Option (List ℕ)
pkcs8 out kp = do
  inner₁ ← integer_small [] 0
  inner₂ ← alg_id inner₁
  inner₃ ← octet_string inner₂ (kp.priv ++ kp.public)
  seq out inner₃

unfoldable pub spki : List ℕ → List ℕ → Option (List ℕ)
spki out public = do inner ← alg_id []; inner' ← bit_string inner public; seq out inner'

-- `gmtime` is `gmtime_r`, and `sign` is `sign_tbs` with the randomness that HAWK draws: the signature,
-- or `none` where the program dies.
module _ (gmtime : ℕ → Tm) (sign : List ℕ → List ℕ → Option (List ℕ)) where
  unfoldable pub generalized_time : List ℕ → ℕ → Option (List ℕ)
  generalized_time out t = tlv out 0x18 (take 15 (time_text (gmtime t)))

  unfoldable pub validity : List ℕ → ℕ → ℕ → Option (List ℕ)
  validity out nb na = do
    inner ← generalized_time [] nb
    inner' ← generalized_time inner na
    seq out inner'

  -- What `make_tbs` collects in `inner`; `now` is `time(NULL)`.
  unfoldable pub tbs_fields : ℕ → ℕ → List ℕ → List ℕ → HawkKeypair → Bool → Bool → Option (List ℕ)
  tbs_fields now serial issuer_cn subject_cn subject_key is_ca is_server = do
    ver ← integer_small [] 2
    inner₁ ← tlv [] 0xa0 ver
    inner₂ ← integer_small inner₁ serial
    inner₃ ← alg_id inner₂
    inner₄ ← name_cn inner₃ issuer_cn
    inner₅ ← validity inner₄ now (now + 3650 * 24 * 3600)
    inner₆ ← name_cn inner₅ subject_cn
    inner₇ ← spki inner₆ subject_key.public
    v3_extensions inner₇ is_ca is_server

  -- The certificate's fields but the signature.
  unfoldable pub make_tbs :
      ℕ → List ℕ → ℕ → List ℕ → List ℕ → HawkKeypair → Bool → Bool → Option (List ℕ)
  make_tbs now out serial issuer_cn subject_cn subject_key is_ca is_server = do
    inner ← tbs_fields now serial issuer_cn subject_cn subject_key is_ca is_server
    seq out inner

  -- The part of `make_cert` that comes after `make_tbs`.
  unfoldable pub sign_cert : List ℕ → List ℕ → HawkKeypair → Option (List ℕ)
  sign_cert out tbs issuer_key = do
    sig ← sign tbs issuer_key.priv
    inner₁ ← put [] tbs
    inner₂ ← alg_id inner₁
    inner₃ ← bit_string inner₂ sig
    seq out inner₃

  unfoldable pub make_cert :
      ℕ → List ℕ → ℕ → List ℕ → HawkKeypair → List ℕ → HawkKeypair → Bool → Bool → Option (List ℕ)
  make_cert now out serial issuer_cn issuer_key subject_cn subject_key is_ca is_server = do
    tbs ← make_tbs now [] serial issuer_cn subject_cn subject_key is_ca is_server
    sign_cert out tbs issuer_key
