-- ===== src/Pki/Generator/Made.antt =====
-- The run of tools/gen_hawk_pki.c on a host that works: its certificates and its files.
use assessing_pq_mqtt_m_tls.Common.{
  ℕ, ◌+◌, ◌<◌, ◌≤◌, ◌≡◌, List, [], ◌∷◌, ◌++◌, some, Bool, true, false, length, length-append, arith,
  codes,
}
use assessing_pq_mqtt_m_tls.Pki.Der.{integer_small, integer_bytes, octet_string, seq, enc_len}
use assessing_pq_mqtt_m_tls.Pki.Der.Written.{element}
use assessing_pq_mqtt_m_tls.Pki.Der.Fits.{tlv_fits, length-element}
use assessing_pq_mqtt_m_tls.Pki.Certificate.{HawkKeypair, pkcs8, make_cert}
use assessing_pq_mqtt_m_tls.Pki.Certificate.Encoded.{alg_id_fits}
use assessing_pq_mqtt_m_tls.Pki.Certificate.Writers.{algorithm_field}
use assessing_pq_mqtt_m_tls.Pki.Certificate.Bytes.{key_document, signed_cert-IsBytes}
use assessing_pq_mqtt_m_tls.Pki.Certificate.Reader.{Certificate, read_certificate}
use assessing_pq_mqtt_m_tls.Pki.Certificate.Body.{
  contents, signed_body, signed_cert, read_certificate-signed_cert,
}
use assessing_pq_mqtt_m_tls.Pki.Certificate.Complete.{make_cert_fits}
use assessing_pq_mqtt_m_tls.Pki.Pem.{write_pem}
use assessing_pq_mqtt_m_tls.Pki.Pem.RoundTrip.{IsBytes}
use assessing_pq_mqtt_m_tls.Pki.Generator.{
  Host, Pki, root_name, server_name, client_name, gen_key, sign_tbs, make_pki, write_file,
  write_pair, write_pki, main,
}
use assessing_pq_mqtt_m_tls.Pki.Generator.Files.{stored, ShortNames}
use assessing_pq_mqtt_m_tls.Pki.Generator.Deployed.{Works}

pkcs8_fits :
    (kp : HawkKeypair)
    → length kp.priv + length kp.public ≤ 30000
    → pkcs8 [] kp ≡ some (key_document kp)
unfolding pkcs8 integer_small integer_bytes octet_string seq enc_len
pkcs8_fits kp h =
    let l = length-append kp.priv kp.public in
    let version = element 0x02 (0x00 ∷ []) in
    let key = element 0x04 (kp.priv ++ kp.public) in
    let k = (length-element 0x04 (kp.priv ++ kp.public)).0 in
    rw
      (
        tlv_fits [] 0x02 (0x00 ∷ []) (omega arith),
        alg_id_fits version (omega arith),
        tlv_fits (version ++ algorithm_field) 0x04 (kp.priv ++ kp.public) (omega arith),
      )
      (tlv_fits [] 0x30 (version ++ (algorithm_field ++ key)) (omega arith))

module _ {check : List ℕ → List ℕ → List ℕ → Bool} {h : Host} (w : Works check h) where
  sign_tbs_lem : (n : ℕ) (tbs : List ℕ) → sign_tbs h tbs (w.keys n).priv ≡ some (w.signature n tbs)
  unfolding sign_tbs
  sign_tbs_lem n tbs = rw (w.memory, w.signs n tbs)

  gen_key_lem : (n : ℕ) → gen_key h n ≡ some (w.keys n)
  unfolding gen_key
  gen_key_lem n = rw (w.memory, w.keygen n)

  -- The certificate number `n`, from 0, which the root's key has signed.
  module _ (n : ℕ) (subject : List ℕ) (is_ca is_server : Bool) where
    abbrev pub tbs_of : List ℕ
    tbs_of = element 0x30 (
        signed_body h.gmtime (sign_tbs h) (h.time n) (n + 1) root_name subject (w.keys n) is_ca
          is_server)

    abbrev pub cert_of : List ℕ
    cert_of =
        signed_cert h.gmtime (sign_tbs h) (h.time n) (n + 1) root_name subject (w.keys n) is_ca
          is_server (w.signature 0 tbs_of)

    abbrev pub says : Certificate
    says =
        contents h.gmtime (sign_tbs h) (h.time n) (n + 1) root_name subject (w.keys n) is_ca
          is_server tbs_of (w.signature 0 tbs_of)

    module _ (few : n < 100) (short : length subject ≤ 100) (b : IsBytes subject) where
      pub make_cert-cert_of :
          make_cert h.gmtime
            (sign_tbs h)
            (h.time n)
            []
            (n + 1)
            root_name
            (w.keys 0)
            subject
            (w.keys n)
            is_ca
            is_server
          ≡ some cert_of
      make_cert-cert_of =
          let l = w.signature_size 0 tbs_of in
          let k = (w.keys_good n).public_size in
          make_cert_fits h.gmtime (sign_tbs h) (h.time n) (n + 1) root_name (w.keys 0) subject
            (w.keys n) is_ca is_server (w.signature 0 tbs_of) (sign_tbs_lem 0 tbs_of) (omega arith)

      pub read_certificate-cert_of : read_certificate cert_of ≡ some says
      read_certificate-cert_of =
          let l = w.signature_size 0 tbs_of in
          let k = (w.keys_good n).public_size in
          read_certificate-signed_cert h.gmtime (sign_tbs h) (h.time n) (n + 1) root_name subject
            (w.keys n) is_ca is_server (omega arith) (omega arith) (w.begin_shown n) (w.end_shown n)
            (w.signature 0 tbs_of) (omega arith)

      pub cert_of-IsBytes : IsBytes cert_of
      cert_of-IsBytes =
          signed_cert-IsBytes h.gmtime (sign_tbs h) (h.time n) (n + 1) root_name subject (w.keys n)
            is_ca is_server (w.signature 0 tbs_of) (omega arith) b (w.keys_good n).public_bytes
            (w.signature_bytes 0 tbs_of)

  abbrev pki : Pki
  pki = record {
    ca = w.keys 0;
    server = w.keys 1;
    client = w.keys 2;
    ca_cert = cert_of 0 root_name true false;
    server_cert = cert_of 1 server_name false true;
    client_cert = cert_of 2 client_name false false;
  }

  make_pki_lem : make_pki h ≡ some pki
  unfolding make_pki
  make_pki_lem = rw (
    gen_key_lem 0,
    gen_key_lem 1,
    gen_key_lem 2,
    make_cert-cert_of 0 root_name true false (omega arith) (omega arith) (omega arith),
    make_cert-cert_of 1 server_name false true (omega arith) (omega arith) (omega arith),
    make_cert-cert_of 2 client_name false false (omega arith) (omega arith) (omega arith),
  )

  -- The files, with the last one first.
  abbrev pub entries : List (List ℕ × List ℕ)
  entries =
      (codes "/client_hawk512.key.pem", write_pem (codes "PRIVATE KEY") (key_document (w.keys 2)))
      ∷ (
        codes "/client_hawk512.cert.pem",
        write_pem (codes "CERTIFICATE") (cert_of 2 client_name false false),
      )
      ∷ (codes "/server.key.pem", write_pem (codes "PRIVATE KEY") (key_document (w.keys 1)))
      ∷ (
        codes "/server.cert.pem",
        write_pem (codes "CERTIFICATE") (cert_of 1 server_name false true),
      )
      ∷ (codes "/ca.key.pem", write_pem (codes "PRIVATE KEY") (key_document (w.keys 0)))
      ∷ (codes "/ca.cert.pem", write_pem (codes "CERTIFICATE") (cert_of 0 root_name true false))
      ∷ []

  write_file_lem :
      (path type der : List ℕ) (files : List (List ℕ × List ℕ))
      → write_file h path type der files ≡ (true, (path, write_pem type der) ∷ files)
  unfolding write_file
  write_file_lem path type der files = rw (w.file_opened path)

  pub pkcs8_lem : (n : ℕ) → pkcs8 [] (w.keys n) ≡ some (key_document (w.keys n))
  pkcs8_lem n =
      let p = (w.keys_good n).priv_size in
      let q = (w.keys_good n).public_size in pkcs8_fits (w.keys n) (omega arith)

  write_pair_lem :
      (n : ℕ) (cert_path key_path cert : List ℕ) (files : List (List ℕ × List ℕ))
      → write_pair h cert_path key_path cert (w.keys n) files ≡ (
        true,
        (key_path, write_pem (codes "PRIVATE KEY") (key_document (w.keys n)))
            ∷ (cert_path, write_pem (codes "CERTIFICATE") cert)
            ∷ files,
      )
  unfolding write_pair
  write_pair_lem n cert_path key_path cert files =
      rw (pkcs8_lem n, write_pair) (simp write_file_lem)

  pub main_lem : (outdir : List ℕ) → main h outdir ≡ (true, stored outdir entries)
  unfolding main write_pki
  main_lem outdir =
      rw (w.directory_made _, make_pki_lem, pkcs8_lem 0)
        (simp (write_file_lem, write_pair_lem 1, write_pair_lem 2))

  pub entries-ShortNames : ShortNames entries
  entries-ShortNames = omega arith
