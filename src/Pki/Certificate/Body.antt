-- ===== src/Pki/Certificate/Body.antt =====
-- A certificate of tools/gen_hawk_pki.c around its signature: its two writers, and a reader of it.
use assessing_pq_mqtt_m_tls.Common.{
  same-itself, ◌>>=◌, ℕ, ◌+◌, ◌*◌, ◌^◌, ◌≤◌, ◌<◌, ◌≡◌, refl, List, [], ◌∷◌, ◌++◌, Option, some,
  Bool, length, arith, length-append, append_assoc,
}
use assessing_pq_mqtt_m_tls.Pki.Der.{tlv, seq, enc_len, integer_small, integer_bytes, buf_cap}
use assessing_pq_mqtt_m_tls.Pki.Der.Written.{element}
use assessing_pq_mqtt_m_tls.Pki.Der.Fits.{put_fits, tlv_fits, bit_string_fits, length-element}
use assessing_pq_mqtt_m_tls.Pki.Certificate.{
  HawkKeypair, Tm, alg_id, name_cn, validity, spki, v3_extensions, tbs_fields, make_tbs, sign_cert,
}
use assessing_pq_mqtt_m_tls.Pki.Certificate.Key.{expect-element, hawk_algorithm}
use assessing_pq_mqtt_m_tls.Pki.Certificate.Encoded.{
  alg_id_fits, name, period, key_info, extensions,
}
use assessing_pq_mqtt_m_tls.Pki.Certificate.Reader.{
  Certificate, read_octet_bits, read_fields, read_certificate,
}
use assessing_pq_mqtt_m_tls.Pki.Certificate.Fields.{
  only-element, raw_element-element, IsShown, read_name-name, read_period-period, read_key-key_info,
  version_field, read_version-version_field, read_number-integer_bytes, profile,
  read_extensions-extensions,
}
use assessing_pq_mqtt_m_tls.Pki.Certificate.Writers.{
  Writes, then-Writes, algorithm_field, serial_field, version-Writes, serial-Writes,
  algorithm-Writes, name-Writes, key-Writes, extensions-Writes, period-Writes,
}

-- Ten years in seconds.
abbrev pub ten_years : ℕ
ten_years = 3650 * 24 * 3600

module _ (gmtime : ℕ → Tm) (sign : List ℕ → List ℕ → Option (List ℕ)) (now serial : ℕ)
    (issuer_cn subject_cn : List ℕ) (subject_key : HawkKeypair) (is_ca is_server : Bool) where
  -- The contents of the signed part.
  unfoldable pub signed_body : List ℕ
  signed_body =
      version_field
      ++ (serial_field serial
          ++ (algorithm_field
              ++ (name issuer_cn
                  ++ (period gmtime sign now (now + ten_years)
                      ++ (name subject_cn
                          ++ (key_info subject_key.public ++ extensions is_ca is_server))))))

  abbrev pub room : ℕ
  room =
      9
      + (7
          + (18
              + ((length issuer_cn + 30)
                  + (40 + ((length subject_cn + 30) + ((length subject_key.public + 30) + 150))))))

  fields-Writes :
      Writes
        (λ out. tlv out 0xa0 (element 0x02 (0x02 ∷ [])) >>= λ inner₁.
          integer_small inner₁ serial >>= λ inner₂. alg_id inner₂ >>= λ inner₃.
          name_cn inner₃ issuer_cn >>= λ inner₄.
          validity gmtime sign inner₄ now (now + ten_years) >>= λ inner₅.
          name_cn inner₅ subject_cn >>= λ inner₆.
          spki inner₆ subject_key.public >>= λ inner₇. v3_extensions inner₇ is_ca is_server)
        signed_body
        room
  unfolding signed_body
  fields-Writes = then-Writes version-Writes (
      then-Writes (serial-Writes serial) (
        then-Writes algorithm-Writes (
          then-Writes (name-Writes issuer_cn) (
            then-Writes (period-Writes gmtime sign now (now + ten_years)) (
              then-Writes (name-Writes subject_cn) (
                then-Writes (key-Writes subject_key.public)
                  (extensions-Writes is_ca is_server)))))))

  pub make_tbs_fits :
      room + 4 ≤ buf_cap
      → make_tbs gmtime sign now [] serial issuer_cn subject_cn subject_key is_ca is_server
        ≡ some (element 0x30 signed_body)
  unfolding make_tbs tbs_fields seq integer_small integer_bytes
  make_tbs_fits h =
      rw (tlv_fits [] 0x02 (0x02 ∷ []) (omega arith), fields-Writes.fits [] (omega arith))
        (tlv_fits [] 0x30 signed_body (omega (arith, fields-Writes.small)))

  -- The certificate around a signature.
  abbrev pub signed_cert : List ℕ → List ℕ
  signed_cert sig =
      element 0x30 (element 0x30 signed_body ++ (algorithm_field ++ element 0x03 (0x00 ∷ sig)))

  -- What a reader of X.509 is to find in it.
  abbrev pub contents : List ℕ → List ℕ → Certificate
  contents tbs sig = record {
    signed = tbs;
    signature = sig;
    algorithm = hawk_algorithm;
    version = 2;
    serial = serial;
    issuer = issuer_cn;
    not_before = gmtime now;
    not_after = gmtime (now + ten_years);
    subject = subject_cn;
    key_algorithm = hawk_algorithm;
    public_key = subject_key.public;
    extensions = profile is_ca is_server;
  }

  length-cert :
      (sig : List ℕ)
      → length (element 0x30 signed_body ++ (algorithm_field ++ element 0x03 (0x00 ∷ sig)))
        ≤ room + length sig + 27
  unfolding enc_len
  length-cert sig =
      let a =
        length-append (element 0x30 signed_body) (algorithm_field ++ element 0x03 (0x00 ∷ sig)) in
      let b = length-append algorithm_field (element 0x03 (0x00 ∷ sig)) in
      let c = (length-element 0x03 (0x00 ∷ sig)).0 in
      let d = (length-element 0x30 signed_body).0 in let e = fields-Writes.small in omega arith

  pub sign_cert_fits :
      (issuer_key : HawkKeypair) (sig : List ℕ)
      → sign (element 0x30 signed_body) issuer_key.priv ≡ some sig
      → room + length sig + 40 ≤ buf_cap
      → sign_cert gmtime sign [] (element 0x30 signed_body) issuer_key ≡ some (signed_cert sig)
  unfolding sign_cert seq
  sign_cert_fits issuer_key sig e h =
      let d = (length-element 0x30 signed_body).0 in
      let s = fields-Writes.small in
      let a : length algorithm_field ≡ 16 = unfold enc_len in refl in
      let l = length-append (element 0x30 signed_body) algorithm_field in
      let c = length-cert sig in
      rw
        (
          e,
          put_fits [] (element 0x30 signed_body) (omega arith),
          alg_id_fits (element 0x30 signed_body) (omega arith),
          bit_string_fits (element 0x30 signed_body ++ algorithm_field) sig (omega arith),
          append_assoc (element 0x30 signed_body) algorithm_field (element 0x03 (0x00 ∷ sig)),
        )
        (tlv_fits [] 0x30
          (element 0x30 signed_body ++ (algorithm_field ++ element 0x03 (0x00 ∷ sig)))
          (omega arith))

  module _ (small : room + 4 ≤ buf_cap) (serial_fits : serial < 2 ^ 16)
      (begin_shown : IsShown (gmtime now)) (end_shown : IsShown (gmtime (now + ten_years))) where
    read_fields-signed_body :
        (signed sig : List ℕ)
        → read_fields signed_body signed hawk_algorithm sig ≡ some (contents signed sig)
    unfolding read_fields signed_body enc_len
    read_fields-signed_body signed sig =
        let after_period =
          name subject_cn ++ (key_info subject_key.public ++ extensions is_ca is_server) in
        let after_name = period gmtime sign now (now + ten_years) ++ after_period in
        rw (
          read_version-version_field
              (serial_field serial ++ (algorithm_field ++ (name issuer_cn ++ after_name))),
          read_number-integer_bytes serial (algorithm_field ++ (name issuer_cn ++ after_name))
              serial_fits,
          expect-element 0x30 hawk_algorithm (name issuer_cn ++ after_name) (omega arith),
          read_name-name issuer_cn after_name (omega arith),
          read_period-period gmtime sign now (now + ten_years) after_period begin_shown end_shown,
          read_name-name subject_cn (key_info subject_key.public ++ extensions is_ca is_server)
              (omega arith),
          read_key-key_info subject_key.public (extensions is_ca is_server) (omega arith),
          read_extensions-extensions is_ca is_server,
          same-itself hawk_algorithm,
        )

    pub read_certificate-signed_cert :
        (sig : List ℕ)
        → room + length sig + 40 ≤ buf_cap
        → read_certificate (signed_cert sig) ≡ some (contents (element 0x30 signed_body) sig)
    unfolding read_certificate read_octet_bits enc_len
    read_certificate-signed_cert sig h =
        let rest = algorithm_field ++ element 0x03 (0x00 ∷ sig) in
        let s = fields-Writes.small in
        let c = length-cert sig in
        rw
          (
            only-element 0x30 (element 0x30 signed_body ++ rest) (omega arith),
            raw_element-element 0x30 signed_body rest (omega arith),
            expect-element 0x30 signed_body rest (omega arith),
            expect-element 0x30 hawk_algorithm (element 0x03 (0x00 ∷ sig)) (omega arith),
            only-element 0x03 (0x00 ∷ sig) (omega arith),
          )
          (read_fields-signed_body (element 0x30 signed_body) sig)
