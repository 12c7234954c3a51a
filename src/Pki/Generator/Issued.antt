-- ===== src/Pki/Generator/Issued.antt =====
-- The files of tools/gen_hawk_pki.c against those who read them.
use assessing_pq_mqtt_m_tls.Common.{
  same, same-itself, ℕ, ◌<◌, ◌≤◌, ◌≡◌, refl, ◌∙◌, List, ◌++◌, some, Bool, true, false, length,
  arith, codes,
}
use assessing_pq_mqtt_m_tls.Pki.Certificate.{oid_server_auth, oid_client_auth}
use assessing_pq_mqtt_m_tls.Pki.Certificate.Key.{read_pkcs8-pkcs8}
use assessing_pq_mqtt_m_tls.Pki.Certificate.Bytes.{key_document, key_document-IsBytes}
use assessing_pq_mqtt_m_tls.Pki.Certificate.Fields.{profile}
use assessing_pq_mqtt_m_tls.Pki.Certificate.Reader.{Certificate}
use assessing_pq_mqtt_m_tls.Pki.Certificate.Chain.{
  issued, accepted, has_purpose, authority_profile, leaf_profile, purpose_profile,
}
use assessing_pq_mqtt_m_tls.Pki.Pem.{write_pem}
use assessing_pq_mqtt_m_tls.Pki.Pem.RoundTrip.{IsBytes}
use assessing_pq_mqtt_m_tls.Keys.{Key, success}
use assessing_pq_mqtt_m_tls.Keys.Import.{import_pair_lem}
use assessing_pq_mqtt_m_tls.Keys.Hawk512.{hawk512_sizes, wc_hawk512_import_private_key_pair}
use assessing_pq_mqtt_m_tls.Pki.Generator.{Host, root_name, server_name, client_name, main}
use assessing_pq_mqtt_m_tls.Pki.Generator.Files.{
  read_file, certificate_in, key_in, stored, certificate_in-stored, key_in-stored,
}
use assessing_pq_mqtt_m_tls.Pki.Generator.Deployed.{Works, Deployed}
use assessing_pq_mqtt_m_tls.Pki.Generator.Made.{
  tbs_of, cert_of, says, read_certificate-cert_of, cert_of-IsBytes, pkcs8_lem, entries,
  entries-ShortNames, main_lem,
}

module _ {check : List ℕ → List ℕ → List ℕ → Bool} {h : Host} (w : Works check h) where
  abbrev root_says : Certificate
  root_says = says w 0 root_name true false

  issued_by_root :
      (n : ℕ) (subject : List ℕ) (is_ca is_server : Bool)
      → issued check root_says (says w n subject is_ca is_server) ≡ true
  unfolding issued
  issued_by_root n subject is_ca is_server = rw (
    same-itself root_name,
    authority_profile.0,
    authority_profile.1,
    w.verifies 0 (tbs_of w n subject is_ca is_server),
  )

  accepted_by_root :
      (purpose : List ℕ) (n : ℕ) (subject : List ℕ) (is_server : Bool)
      → accepted check purpose root_says (says w n subject false is_server)
        ≡ has_purpose purpose (profile false is_server)
  unfolding accepted
  accepted_by_root purpose n subject is_server =
      rw (issued_by_root n subject false is_server, (leaf_profile is_server).2) refl

  leaf_issues_none :
      (n : ℕ) (subject : List ℕ) (is_server : Bool) (c : Certificate)
      → issued check (says w n subject false is_server) c ≡ false
  unfolding issued
  leaf_issues_none n subject is_server c = rw (leaf_profile is_server).0 (ground arith)

  module _ (outdir : List ℕ) (short : length outdir ≤ 900) where
    key_stored :
        (n : ℕ) (name : List ℕ)
        → read_file name (entries w)
          ≡ some (write_pem (codes "PRIVATE KEY") (key_document (w.keys n)))
        → (priv : List ℕ) × (key_in (outdir ++ name) (stored outdir (entries w))
            ≡ some (priv ++ (w.keys n).public))
          × (length priv ≡ 184)
    key_stored n name e =
        let g = w.keys_good n in
        (
          (w.keys n).priv,
          key_in-stored outdir name (entries w) short (entries-ShortNames w)
              (key_document (w.keys n))
              (key_document-IsBytes (w.keys n) g.priv_bytes g.public_bytes) e
              (read_pkcs8-pkcs8 (w.keys n) (key_document (w.keys n)) (pkcs8_lem w n)),
          g.priv_size,
        )

    cert_stored :
        (n : ℕ) (name subject : List ℕ) (is_ca is_server : Bool)
        → n < 100
        → length subject ≤ 100
        → IsBytes subject
        → read_file name (entries w)
          ≡ some (write_pem (codes "CERTIFICATE") (cert_of w n subject is_ca is_server))
        → certificate_in (outdir ++ name) (stored outdir (entries w))
          ≡ some (says w n subject is_ca is_server)
    cert_stored n name subject is_ca is_server few l b e =
        certificate_in-stored outdir name (entries w) short (entries-ShortNames w)
          (cert_of w n subject is_ca is_server)
          (cert_of-IsBytes w n subject is_ca is_server few l b) e
          (read_certificate-cert_of w n subject is_ca is_server few l b)

    client_stored :
        (key : Key)
        → (priv : List ℕ) × (key_in
              (outdir ++ codes "/client_hawk512.key.pem")
              (stored outdir (entries w))
            ≡ some (priv ++ (w.keys 2).public))
          × (length priv ≡ 184)
          × (wc_hawk512_import_private_key_pair (some (priv ++ (w.keys 2).public)) (some key) ≡ (
            success,
            some (record {
              priv = priv;
              public = (w.keys 2).public;
              has_priv = true;
              has_pub = true;
            }),
          ))
    unfolding read_file same wc_hawk512_import_private_key_pair
    client_stored key =
        let (priv, e, l) = key_stored 2 (codes "/client_hawk512.key.pem") refl in
        (
          priv,
          e,
          l,
          import_pair_lem hawk512_sizes priv (w.keys 2).public key l (w.keys_good 2).public_size,
        )

    deployed :
        Deployed check outdir
          (stored outdir (entries w))
          root_says
          (says w 1 server_name false true)
          (says w 2 client_name false false)
    unfolding read_file same
    deployed = record {
      root_read =
          cert_stored 0 (codes "/ca.cert.pem") root_name true false (omega arith) (omega arith)
            (omega arith) refl;
      server_read =
          cert_stored 1 (codes "/server.cert.pem") server_name false true (omega arith)
            (omega arith) (omega arith) refl;
      client_read =
          cert_stored 2 (codes "/client_hawk512.cert.pem") client_name false false (omega arith)
            (omega arith) (omega arith) refl;
      root_issued = issued_by_root 0 root_name true false;
      server_accepted = accepted_by_root oid_server_auth 1 server_name true ∙ purpose_profile.0;
      client_accepted = accepted_by_root oid_client_auth 2 client_name false ∙ purpose_profile.2;
      server_no_client = accepted_by_root oid_client_auth 1 server_name true ∙ purpose_profile.1;
      client_no_server = accepted_by_root oid_server_auth 2 client_name false ∙ purpose_profile.3;
      server_issues_none = leaf_issues_none 1 server_name true;
      client_issues_none = leaf_issues_none 2 client_name false;
      server_named = refl;
      client_named = refl;
      root_key = key_stored 0 (codes "/ca.key.pem") refl;
      server_key = key_stored 1 (codes "/server.key.pem") refl;
      client_key = client_stored;
    }

-- On a host that works, `main` exits with 0 and leaves six files in its directory, whose name has at
-- most 900 characters. Read back, they are a public-key infrastructure that works: the root's
-- certificate is issued by itself; the broker's is accepted as a server's and the device's as a
-- client's, and neither as the other; neither of them can issue certificates; each certificate has
-- a file with its private key; and the client imports the device's.
pub main-Deployed :
    (check : List ℕ → List ℕ → List ℕ → Bool) (h : Host) (outdir : List ℕ)
    → Works check h
    → length outdir ≤ 900
    → (files : List (List ℕ × List ℕ)) × (root server client : Certificate) × (main h outdir
        ≡ (true, files))
      × Deployed check outdir files root server client
main-Deployed check h outdir w short = (
  stored outdir (entries w),
  root_says w,
  says w 1 server_name false true,
  says w 2 client_name false false,
  main_lem w outdir,
  deployed w outdir short,
)
