-- ===== src/Pki/Certificate/Chain.antt =====
-- Whether a certificate is to be trusted (RFC 5280), as one who reads it decides it: by its issuer's
-- certificate, by what the extensions of both allow, and by the signature.
use assessing_pq_mqtt_m_tls.Common.{
  same, ◌>>=◌, ℕ, ◌≡◌, refl, List, [], ◌∷◌, Option, some, none, Bool, true, false, ◌&&◌, ◌!=◌,
  bit_and, if◌then◌else◌,
}
use assessing_pq_mqtt_m_tls.Pki.Der.{enc_len}
use assessing_pq_mqtt_m_tls.Pki.Der.Format.{read_tlv, read_len}
use assessing_pq_mqtt_m_tls.Pki.Certificate.{
  oid_basic_constraints, oid_key_usage, oid_ext_key_usage, oid_server_auth, oid_client_auth,
}
use assessing_pq_mqtt_m_tls.Pki.Certificate.Key.{expect}
use assessing_pq_mqtt_m_tls.Pki.Certificate.Reader.{Extension, Certificate, only}
use assessing_pq_mqtt_m_tls.Pki.Certificate.Fields.{profile}

unfoldable pub find_extension : List ℕ → List Extension → Option (List ℕ)
find_extension id [] = none
find_extension id (x ∷ xs) =
    let rest = find_extension id xs in if same id x.id then some x.value else rest

unfoldable pub holds : Option Bool → Bool
holds none = false
holds (some b) = b

-- cA of the basic constraints
unfoldable pub is_authority : List Extension → Bool
is_authority xs = holds do
  value ← find_extension oid_basic_constraints xs
  list ← only 0x30 value
  flag ← only 0x01 list
  some (same flag (0xff ∷ []))

-- The bits of the key usage, which fit one byte: 0x80 for digitalSignature, 0x04 for keyCertSign.
unfoldable pub has_usage : ℕ → List Extension → Bool
has_usage bit xs = holds do
  value ← find_extension oid_key_usage xs
  bits ← only 0x03 value
  some (elim bits [ [] ↦ false | _ ∷ used ↦ elim used [ [] ↦ false | b ∷ _ ↦ bit_and b bit != 0 ] ])

-- One purpose, in the extended key usage.
unfoldable pub has_purpose : List ℕ → List Extension → Bool
has_purpose purpose xs = holds do
  value ← find_extension oid_ext_key_usage xs
  list ← only 0x30 value
  id ← only 0x06 list
  some (same id purpose)

-- `check` verifies a signature: on the public key, what is signed, and the signature.
module _ (check : List ℕ → List ℕ → List ℕ → Bool) where
  -- `issuer` may issue certificates, and has issued this one.
  unfoldable pub issued : Certificate → Certificate → Bool
  issued issuer c =
      (same c.issuer issuer.subject && is_authority issuer.extensions)
      && (has_usage 0x04 issuer.extensions && check issuer.public_key c.signed c.signature)

  -- The certificate is one of `issuer` with which its holder may sign a handshake, for the purpose.
  unfoldable pub accepted : List ℕ → Certificate → Certificate → Bool
  accepted purpose issuer c =
      issued issuer c && (has_usage 0x80 c.extensions && has_purpose purpose c.extensions)

-- What the three kinds of extensions allow: to sign certificates, to sign handshakes, and a purpose.
pub authority_profile :
    (is_authority (profile true false) ≡ true)
    × (has_usage 0x04 (profile true false) ≡ true)
    × (has_usage 0x80 (profile true false) ≡ false)
unfolding is_authority has_usage holds find_extension same only expect read_tlv read_len enc_len
authority_profile = (refl, refl, refl)

pub leaf_profile :
    (is_server : Bool)
    → (is_authority (profile false is_server) ≡ false)
      × (has_usage 0x04 (profile false is_server) ≡ false)
      × (has_usage 0x80 (profile false is_server) ≡ true)
unfolding is_authority has_usage holds find_extension same only expect read_tlv read_len enc_len
leaf_profile true = (refl, refl, refl)
leaf_profile false = (refl, refl, refl)

pub purpose_profile :
    (has_purpose oid_server_auth (profile false true) ≡ true)
    × (has_purpose oid_client_auth (profile false true) ≡ false)
    × (has_purpose oid_client_auth (profile false false) ≡ true)
    × (has_purpose oid_server_auth (profile false false) ≡ false)
unfolding has_purpose holds find_extension same only expect read_tlv read_len enc_len
purpose_profile = (refl, refl, refl, refl)
