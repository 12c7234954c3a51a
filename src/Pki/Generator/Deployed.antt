-- ===== src/Pki/Generator/Deployed.antt =====
-- When the files of tools/gen_hawk_pki.c are a public-key infrastructure that works, and what the host
-- has to do for that.
use assessing_pq_mqtt_m_tls.Common.{ℕ, ◌+◌, ◌≡◌, List, ◌++◌, some, Bool, true, false, length, codes}
use assessing_pq_mqtt_m_tls.Pki.Certificate.{HawkKeypair, oid_server_auth, oid_client_auth}
use assessing_pq_mqtt_m_tls.Pki.Certificate.Fields.{IsShown}
use assessing_pq_mqtt_m_tls.Pki.Certificate.Reader.{Certificate}
use assessing_pq_mqtt_m_tls.Pki.Certificate.Chain.{issued, accepted}
use assessing_pq_mqtt_m_tls.Pki.Certificate.Body.{ten_years}
use assessing_pq_mqtt_m_tls.Pki.Pem.RoundTrip.{IsBytes}
use assessing_pq_mqtt_m_tls.Keys.{Key, success}
use assessing_pq_mqtt_m_tls.Keys.Hawk512.{wc_hawk512_import_private_key_pair}
use assessing_pq_mqtt_m_tls.Pki.Generator.{Host}
use assessing_pq_mqtt_m_tls.Pki.Generator.Files.{certificate_in, key_in}

-- A key pair of HAWK-512.
pub record IsHawkKey (kp : HawkKeypair) : Type 0 where
  pub priv_size : length kp.priv ≡ 184
  pub public_size : length kp.public ≡ 1024
  pub priv_bytes : IsBytes kp.priv
  pub public_bytes : IsBytes kp.public

-- The host as it is documented: `hawk_keygen` makes key pairs, what `hawk_sign_finish` makes verifies
-- under the same pair's public key, times have years of four digits, and files can be written.
pub record Works (check : List ℕ → List ℕ → List ℕ → Bool) (h : Host) : Type 0 where
  pub memory : h.allocated ≡ true
  pub keys : ℕ → HawkKeypair
  pub keygen : (n : ℕ) → h.hawk_keygen n ≡ some (keys n)
  pub keys_good : (n : ℕ) → IsHawkKey (keys n)
  pub signature : ℕ → List ℕ → List ℕ
  pub signs : (n : ℕ) (tbs : List ℕ) → h.hawk_sign_finish tbs (keys n).priv ≡ some (signature n tbs)
  pub signature_size : (n : ℕ) (tbs : List ℕ) → length (signature n tbs) ≡ 555
  pub signature_bytes : (n : ℕ) (tbs : List ℕ) → IsBytes (signature n tbs)
  pub verifies : (n : ℕ) (tbs : List ℕ) → check (keys n).public tbs (signature n tbs) ≡ true
  pub begin_shown : (n : ℕ) → IsShown (h.gmtime (h.time n))
  pub end_shown : (n : ℕ) → IsShown (h.gmtime (h.time n + ten_years))
  pub directory_made : (command : List ℕ) → h.command command ≡ true
  pub file_opened : (path : List ℕ) → h.opens path ≡ true

-- The files of a directory as those who use them read them: the broker is accepted as a server and the
-- device as a client, and neither as the other; the root is its own issuer; the broker and the device
-- cannot issue certificates; next to each certificate stands its private key; and the client imports
-- its own.
pub record Deployed (check : List ℕ → List ℕ → List ℕ → Bool) (outdir : List ℕ)
    (files : List (List ℕ × List ℕ)) (root server client : Certificate) : Type 0 where
  pub root_read : certificate_in (outdir ++ codes "/ca.cert.pem") files ≡ some root
  pub server_read : certificate_in (outdir ++ codes "/server.cert.pem") files ≡ some server
  pub client_read : certificate_in (outdir ++ codes "/client_hawk512.cert.pem") files ≡ some client
  pub root_issued : issued check root root ≡ true
  pub server_accepted : accepted check oid_server_auth root server ≡ true
  pub client_accepted : accepted check oid_client_auth root client ≡ true
  pub server_no_client : accepted check oid_client_auth root server ≡ false
  pub client_no_server : accepted check oid_server_auth root client ≡ false
  pub server_issues_none : (c : Certificate) → issued check server c ≡ false
  pub client_issues_none : (c : Certificate) → issued check client c ≡ false
  pub server_named : server.subject ≡ codes "pico-mqtt-broker"
  pub client_named : client.subject ≡ codes "pico-hawk-client"
  pub root_key :
      (priv : List ℕ) × (key_in (outdir ++ codes "/ca.key.pem") files
        ≡ some (priv ++ root.public_key))
      × (length priv ≡ 184)
  pub server_key :
      (priv : List ℕ) × (key_in (outdir ++ codes "/server.key.pem") files
        ≡ some (priv ++ server.public_key))
      × (length priv ≡ 184)
  pub client_key :
      (key : Key)
      → (priv : List ℕ) × (key_in (outdir ++ codes "/client_hawk512.key.pem") files
          ≡ some (priv ++ client.public_key))
        × (length priv ≡ 184)
        × (wc_hawk512_import_private_key_pair (some (priv ++ client.public_key)) (some key) ≡ (
          success,
          some
              (record { priv = priv; public = client.public_key; has_priv = true; has_pub = true }),
        ))
