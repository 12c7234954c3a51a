-- ===== src/Pki/Certificate/Key.antt =====
-- The private-key file of tools/gen_hawk_pki.c, read back.
use assessing_pq_mqtt_m_tls.Common.{
  ◌>>=◌, >>=-eq-some, ℕ, ◌≡◌, ap, ◌∙◌, List, [], ◌∷◌, ◌++◌, Option, some, none, arith, length,
  append_assoc, append-nil, ◌==◌, ◌&&◌, if◌then◌else◌, ◌≤◌,
}
use assessing_pq_mqtt_m_tls.Pki.Der.{
  put, tlv, seq, oid, nullv, put_u8, enc_len, integer_small, integer_bytes, octet_string, buf_cap,
}
use assessing_pq_mqtt_m_tls.Pki.Der.Format.{read_tlv}
use assessing_pq_mqtt_m_tls.Pki.Der.Written.{element, tlv_lem, read_tlv-element}
use assessing_pq_mqtt_m_tls.Pki.Certificate.{HawkKeypair, oid_hawk, alg_id, pkcs8}

-- The value of an element with the given tag, and what follows it.
unfoldable pub expect : ℕ → List ℕ → Option (List ℕ × List ℕ)
expect tag bs =
    read_tlv bs >>= λ (found, val, rest). if found == tag then some (val, rest) else none

pub expect-element_last :
    (tag : ℕ) (val : List ℕ) → length val ≤ buf_cap → expect tag (element tag val) ≡ some (val, [])
unfolding expect
expect-element_last tag val h =
    rw (rw append-nil at (read_tlv-element tag val [] (omega arith))) (ground arith)

pub expect-element :
    (tag : ℕ) (val rest : List ℕ)
    → length val ≤ buf_cap
    → expect tag (element tag val ++ rest) ≡ some (val, rest)
unfolding expect
expect-element tag val rest h = rw (read_tlv-element tag val rest (omega arith)) (ground arith)

-- The contents of the algorithm identifier.
abbrev pub hawk_algorithm : List ℕ
hawk_algorithm = element 0x06 oid_hawk ++ (0x05 ∷ 0x00 ∷ [])

pub alg_id_lem :
    (out out' : List ℕ) → alg_id out ≡ some out' → out' ≡ out ++ element 0x30 hawk_algorithm
unfolding alg_id oid nullv tlv put put_u8 enc_len seq
alg_id_lem out out' e = (tlv_lem out 0x30 hawk_algorithm out' e).0

-- A PKCS #8 private key with no attributes: version 0, algorithm, key.
unfoldable pub read_pkcs8 : List ℕ → Option (List ℕ × List ℕ × List ℕ)
read_pkcs8 bs = do
  (body, rest) ← expect 0x30 bs
  (version, body₁) ← expect 0x02 body
  (algorithm, body₂) ← expect 0x30 body₁
  (key, body₃) ← expect 0x04 body₂
  if length rest == 0 && length body₃ == 0 then some (version, algorithm, key) else none

-- If `pkcs8` does not overflow its buffers, what it appends to an empty buffer is read back as a
-- private key of version 0 with the HAWK algorithm, whose key is the private key and then the
-- public key.
pub read_pkcs8-pkcs8 :
    (kp : HawkKeypair) (der : List ℕ)
    → pkcs8 [] kp ≡ some der
    → read_pkcs8 der ≡ some (0x00 ∷ [], hawk_algorithm, kp.priv ++ kp.public)
unfolding pkcs8 seq octet_string integer_small integer_bytes read_pkcs8 enc_len
read_pkcs8-pkcs8 kp der e =
    let (a, pa, e₁) = >>=-eq-some (tlv [] 0x02 (0x00 ∷ [])) _ e in
    let (b, pb, e₂) = >>=-eq-some (alg_id a) _ e₁ in
    let (c, pc, e₃) = >>=-eq-some (tlv b 0x04 (kp.priv ++ kp.public)) _ e₂ in
    let (ea, la) = tlv_lem [] 0x02 (0x00 ∷ []) a pa in
    let eb = alg_id_lem a b pb in
    let (ec, lc) = tlv_lem b 0x04 (kp.priv ++ kp.public) c pc in
    let (ed, ld) = tlv_lem [] 0x30 c der e₃ in
    let body : c
        ≡ element 0x02 (0x00 ∷ [])
          ++ (element 0x30 hawk_algorithm ++ element 0x04 (kp.priv ++ kp.public)) =
      ec
      ∙ ap (λ (t : List ℕ). t ++ element 0x04 (kp.priv ++ kp.public))
          (eb ∙ ap (λ (t : List ℕ). t ++ element 0x30 hawk_algorithm) ea)
      ∙ append_assoc (element 0x02 (0x00 ∷ [])) (element 0x30 hawk_algorithm) _ in
    rw (ed, expect-element_last 0x30 c ld)
      (rw body (
        rw (
          expect-element 0x02 (0x00 ∷ [])
              (element 0x30 hawk_algorithm ++ element 0x04 (kp.priv ++ kp.public)) la,
          expect-element 0x30 hawk_algorithm (element 0x04 (kp.priv ++ kp.public)) (omega arith),
          expect-element_last 0x04 (kp.priv ++ kp.public) lc,
        )))
