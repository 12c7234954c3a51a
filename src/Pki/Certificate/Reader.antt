-- ===== src/Pki/Certificate/Reader.antt =====
-- A reader of X.509 certificates (RFC 5280) that is independent of the generator: the fields by their
-- order and tags, and what the extensions allow.
use assessing_pq_mqtt_m_tls.Common.{
  same, ◌>>=◌, ℕ, zero, suc, ◌+◌, ◌-◌, ◌*◌, List, [], ◌∷◌, Option, some, none, Bool, false, length,
  take, leb, ◌==◌, ◌&&◌, ◌!=◌, if◌then◌else◌,
}
use assessing_pq_mqtt_m_tls.Pki.Der.Format.{read_tlv}
use assessing_pq_mqtt_m_tls.Pki.Der.Integer.{read_natural}
use assessing_pq_mqtt_m_tls.Pki.Certificate.{Tm}
use assessing_pq_mqtt_m_tls.Pki.Certificate.Key.{expect}

pub record Extension : Type 0 where
  pub id : List ℕ
  pub critical : Bool
  pub value : List ℕ

-- The fields of a certificate: what is signed as it stands, and what it says.
pub record Certificate : Type 0 where
  pub signed : List ℕ
  pub signature : List ℕ
  pub algorithm : List ℕ
  pub version : ℕ
  pub serial : ℕ
  pub issuer : List ℕ
  pub not_before : Tm
  pub not_after : Tm
  pub subject : List ℕ
  pub key_algorithm : List ℕ
  pub public_key : List ℕ
  pub extensions : List Extension

-- A value that stands where a test holds.
abbrev pub expected : {A : Type 0} → Bool → A → Option A
expected test a = if test then some a else none

-- The value of an element with the given tag that nothing follows.
unfoldable pub only : ℕ → List ℕ → Option (List ℕ)
only tag bs = expect tag bs >>= λ (val, rest). expected (length rest == 0) val

-- The first element as it stands.
unfoldable pub raw_element : List ℕ → Option (List ℕ)
raw_element bs = read_tlv bs >>= λ (_, _, rest). some (take (length bs - length rest) bs)

-- Two decimal digits.
unfoldable pub read_two : ℕ → ℕ → Option ℕ
read_two a b =
    if (leb b'0' a && leb a b'9') && (leb b'0' b && leb b b'9')
    then some ((a - b'0') * 10 + (b - b'0'))
    else none

-- The text YYYYMMDDHHMMSSZ. The months of a `struct tm` are counted from 0, its years from 1900.
unfoldable pub read_time : List ℕ → Option Tm
read_time (c ∷ c' ∷ y ∷ y' ∷ m ∷ m' ∷ d ∷ d' ∷ h ∷ h' ∷ n ∷ n' ∷ s ∷ s' ∷ z ∷ []) = do
  century ← read_two c c'
  year ← read_two y y'
  month ← read_two m m'
  day ← read_two d d'
  hour ← read_two h h'
  minute ← read_two n n'
  second ← read_two s s'
  expected (z == b'Z') (record {
    tm_year = century * 100 + year - 1900;
    tm_mon = month - 1;
    tm_mday = day;
    tm_hour = hour;
    tm_min = minute;
    tm_sec = second;
  })
read_time _ = none

-- A name of one common name.
unfoldable pub read_name : List ℕ → Option (List ℕ × List ℕ)
read_name bs = do
  (sets, rest) ← expect 0x30 bs
  attributes ← only 0x31 sets
  pair ← only 0x30 attributes
  (_, value) ← expect 0x06 pair
  cn ← only 0x13 value
  some (cn, rest)

unfoldable pub read_period : List ℕ → Option (Tm × Tm × List ℕ)
read_period bs = do
  (times, rest) ← expect 0x30 bs
  (nb, times') ← expect 0x18 times
  na ← only 0x18 times'
  not_before ← read_time nb
  not_after ← read_time na
  some (not_before, not_after, rest)

-- A bit string with no unused bits.
unfoldable pub read_octet_bits : List ℕ → Option (List ℕ)
read_octet_bits [] = none
read_octet_bits (unused ∷ bits) = if unused == 0 then some bits else none

-- The algorithm of a key, and the key.
unfoldable pub read_key : List ℕ → Option (List ℕ × List ℕ × List ℕ)
read_key bs = do
  (info, rest) ← expect 0x30 bs
  (algorithm, info') ← expect 0x30 info
  bits ← only 0x03 info'
  key ← read_octet_bits bits
  some (algorithm, key, rest)

-- BOOLEAN DEFAULT FALSE, where it stands.
unfoldable pub read_flag : List ℕ → Bool × List ℕ
read_flag bs = elim (expect 0x01 bs) [
  | none ↦ (false, bs)
  | some (value, rest) ↦ (elim value [ [] ↦ false | v ∷ _ ↦ v != 0 ], rest)
]

unfoldable pub read_extension : List ℕ → Option (Extension × List ℕ)
read_extension bs = do
  (body, rest) ← expect 0x30 bs
  (id, body') ← expect 0x06 body
  let flag = read_flag body'
  value ← only 0x04 flag.1
  some (record { id = id; critical = flag.0; value = value }, rest)

-- At most as many extensions as there are bytes.
unfoldable pub read_extension_list : ℕ → List ℕ → Option (List Extension)
read_extension_list fuel [] = some []
read_extension_list zero (_ ∷ _) = none
read_extension_list (suc fuel) (b ∷ bs) =
    let rest = λ (r : List ℕ). read_extension_list fuel r in
    (read_extension (b ∷ bs) >>= λ (x, r). rest r >>= λ xs. some (x ∷ xs))

unfoldable pub read_extensions : List ℕ → Option (List Extension)
read_extensions bs = do
  wrapped ← only 0xa3 bs
  list ← only 0x30 wrapped
  read_extension_list (length list) list

unfoldable pub read_version : List ℕ → Option (ℕ × List ℕ)
read_version bs = do
  (wrapped, rest) ← expect 0xa0 bs
  content ← only 0x02 wrapped
  n ← read_natural content
  some (n, rest)

unfoldable pub read_number : List ℕ → Option (ℕ × List ℕ)
read_number bs = do (content, rest) ← expect 0x02 bs; n ← read_natural content; some (n, rest)

-- The signed part, from its contents, its bytes, and the two fields that stand behind it.
unfoldable pub read_fields : List ℕ → List ℕ → List ℕ → List ℕ → Option Certificate
read_fields body signed outer_algorithm signature = do
  (version, r₁) ← read_version body
  (serial, r₂) ← read_number r₁
  (algorithm, r₃) ← expect 0x30 r₂
  (issuer, r₄) ← read_name r₃
  (not_before, not_after, r₅) ← read_period r₄
  (subject, r₆) ← read_name r₅
  (key_algorithm, public_key, r₇) ← read_key r₆
  extensions ← read_extensions r₇
  expected (same outer_algorithm algorithm) (record {
    signed = signed;
    signature = signature;
    algorithm = algorithm;
    version = version;
    serial = serial;
    issuer = issuer;
    not_before = not_before;
    not_after = not_after;
    subject = subject;
    key_algorithm = key_algorithm;
    public_key = public_key;
    extensions = extensions;
  })

unfoldable pub read_certificate : List ℕ → Option Certificate
read_certificate bs = do
  whole ← only 0x30 bs
  signed ← raw_element whole
  (body, r₁) ← expect 0x30 whole
  (algorithm, r₂) ← expect 0x30 r₁
  bits ← only 0x03 r₂
  signature ← read_octet_bits bits
  read_fields body signed algorithm signature
