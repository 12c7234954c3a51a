-- ===== src/Pki/Certificate/Signed.antt =====
-- What `make_cert` of tools/gen_hawk_pki.c signs, read back from the certificate.
use assessing_pq_mqtt_m_tls.Common.{
  ◌>>=◌, >>=-eq-some, ℕ, ◌≡◌, ap, ◌∙◌, List, [], ◌∷◌, ◌++◌, Option, some, none, arith, length,
  append_assoc, ◌==◌, ◌&&◌, if◌then◌else◌, Bool, ◌≤◌,
}
use assessing_pq_mqtt_m_tls.Pki.Der.{put, seq, bit_string, buf_cap, enc_len}
use assessing_pq_mqtt_m_tls.Pki.Der.Written.{element, put_lem, tlv_lem, bit_string_lem}
use assessing_pq_mqtt_m_tls.Pki.Certificate.{
  HawkKeypair, Tm, alg_id, tbs_fields, make_tbs, sign_cert, make_cert,
}
use assessing_pq_mqtt_m_tls.Pki.Certificate.Key.{
  expect, expect-element, expect-element_last, hawk_algorithm, alg_id_lem,
}

-- An X.509 certificate: the contents of its signed part, the algorithm, and the bits of the
-- signature behind their count of unused ones.
unfoldable pub read_cert : List ℕ → Option (List ℕ × List ℕ × List ℕ)
read_cert bs = do
  (body, rest) ← expect 0x30 bs
  (tbs, body₁) ← expect 0x30 body
  (algorithm, body₂) ← expect 0x30 body₁
  (bits, body₃) ← expect 0x03 body₂
  if length rest == 0 && length body₃ == 0 then some (tbs, algorithm, bits) else none

module _ (gmtime : ℕ → Tm) (sign : List ℕ → List ℕ → Option (List ℕ)) where
  make_tbs_lem :
      (now serial : ℕ) (issuer_cn subject_cn : List ℕ) (subject_key : HawkKeypair)
      (is_ca is_server : Bool) (tbs : List ℕ)
      → make_tbs gmtime sign now [] serial issuer_cn subject_cn subject_key is_ca is_server
        ≡ some tbs
      → (c : List ℕ) × (tbs ≡ element 0x30 c) × (length c ≤ buf_cap)
  unfolding make_tbs seq
  make_tbs_lem now serial issuer_cn subject_cn subject_key is_ca is_server tbs e =
      let (inner, _, e₁) =
        >>=-eq-some
          (tbs_fields gmtime sign now serial issuer_cn subject_cn subject_key is_ca is_server) _
          e in
      let (w, l) = tlv_lem [] 0x30 inner tbs e₁ in (inner, w, l)

  sign_cert_lem :
      (c : List ℕ) (issuer_key : HawkKeypair) (der : List ℕ)
      → length c ≤ buf_cap
      → sign_cert gmtime sign [] (element 0x30 c) issuer_key ≡ some der
      → (sig : List ℕ) × (sign (element 0x30 c) issuer_key.priv ≡ some sig)
        × (read_cert der ≡ some (c, hawk_algorithm, 0x00 ∷ sig))
  unfolding sign_cert read_cert seq enc_len
  sign_cert_lem c issuer_key der lt e =
      let (sig, ps, e₁) = >>=-eq-some (sign (element 0x30 c) issuer_key.priv) _ e in
      let (a, pa, e₂) = >>=-eq-some (put [] (element 0x30 c)) _ e₁ in
      let (b, pb, e₃) = >>=-eq-some (alg_id a) _ e₂ in
      let (d, pd, e₄) = >>=-eq-some (bit_string b sig) _ e₃ in
      let (ea, la) = put_lem [] (element 0x30 c) a pa in
      let eb = alg_id_lem a b pb in
      let (ed, ld) = bit_string_lem b sig d pd in
      let (ef, lf) = tlv_lem [] 0x30 d der e₄ in
      let bits = element 0x03 (0x00 ∷ sig) in
      let body : d ≡ element 0x30 c ++ (element 0x30 hawk_algorithm ++ bits) =
        ed
        ∙ ap (λ (t : List ℕ). t ++ bits)
            (eb ∙ ap (λ (t : List ℕ). t ++ element 0x30 hawk_algorithm) ea)
        ∙ append_assoc (element 0x30 c) (element 0x30 hawk_algorithm) bits in
      (
        sig,
        ps,
        rw (ef, expect-element_last 0x30 d lf)
            (rw body (
              rw (
                expect-element 0x30 c (element 0x30 hawk_algorithm ++ bits) lt,
                expect-element 0x30 hawk_algorithm bits (omega arith),
                expect-element_last 0x03 (0x00 ∷ sig) ld,
              ))),
      )

  -- If `make_cert` does not die, its certificate is read back as a signed part, the HAWK algorithm,
  -- and a signature that HAWK made with the issuer's key over the very bytes of that part.
  pub make_cert_lem :
      (now serial : ℕ) (issuer_cn : List ℕ) (issuer_key : HawkKeypair) (subject_cn : List ℕ)
      (subject_key : HawkKeypair) (is_ca is_server : Bool) (der : List ℕ)
      → make_cert gmtime sign now [] serial issuer_cn issuer_key subject_cn subject_key is_ca
          is_server
        ≡ some der
      → (c sig : List ℕ) × (make_tbs gmtime sign now [] serial issuer_cn subject_cn subject_key
            is_ca is_server
          ≡ some (element 0x30 c))
        × (sign (element 0x30 c) issuer_key.priv ≡ some sig)
        × (read_cert der ≡ some (c, hawk_algorithm, 0x00 ∷ sig))
  unfolding make_cert
  make_cert_lem now serial issuer_cn issuer_key subject_cn subject_key is_ca is_server der e =
      let (tbs, pt, e₁) =
        >>=-eq-some
          (make_tbs gmtime sign now [] serial issuer_cn subject_cn subject_key is_ca is_server) _
          e in
      let (c, et, lc) =
        make_tbs_lem now serial issuer_cn subject_cn subject_key is_ca is_server tbs pt in
      let (sig, ps, r) = sign_cert_lem c issuer_key der lc (rw et at e₁) in
      (c, sig, pt ∙ ap some et, ps, r)
