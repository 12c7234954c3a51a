-- ===== src/Pki/Generator.antt =====
-- `main` of tools/gen_hawk_pki.c, with the keys, the certificates and the files that it writes. What it
-- takes from HAWK and from the system is a record. What it prints on the way is left out.
pub mod Files
pub mod Deployed
pub mod Made
pub mod Issued
mod Tests
use assessing_pq_mqtt_m_tls.Common.{
  ◌>>=◌, ℕ, List, [], ◌∷◌, ◌++◌, Option, some, none, Bool, true, false, not, take, codes,
  if◌then◌else◌,
}
use assessing_pq_mqtt_m_tls.Pki.Certificate.{HawkKeypair, Tm, pkcs8, make_cert}
use assessing_pq_mqtt_m_tls.Pki.Pem.{write_pem}

-- `allocated` says whether `malloc` gives the memory for HAWK; `hawk_keygen` is on the number of its
-- call, since it draws random bytes, and `hawk_sign_finish` on the bytes that the context was given and
-- on the private key; `time` is on the number of the certificate. `command` says whether `system` gives
-- 0, and `opens` whether `fopen` opens a file to write.
pub record Host : Type 0 where
  pub allocated : Bool
  pub hawk_keygen : ℕ → Option HawkKeypair
  pub hawk_sign_finish : List ℕ → List ℕ → Option (List ℕ)
  pub time : ℕ → ℕ
  pub gmtime : ℕ → Tm
  pub command : List ℕ → Bool
  pub opens : List ℕ → Bool

-- The files that were written, with the last one first.
abbrev pub Files : Type 0
Files = List (List ℕ × List ℕ)

-- Whether the program goes on, and the files.
abbrev pub Run : Type 0
Run = Bool × Files

-- The next step, where the program has not exited.
abbrev pub next : Run → (Files → Run) → Run
next (true, files) k = k files
next (false, files) k = (false, files)

abbrev pub root_name : List ℕ
root_name = codes "hawk512-root-ca"

abbrev pub server_name : List ℕ
server_name = codes "pico-mqtt-broker"

abbrev pub client_name : List ℕ
client_name = codes "pico-hawk-client"

-- `snprintf(path, sizeof(path), "%s/...", outdir)`
abbrev pub path_in : List ℕ → List ℕ → List ℕ
path_in outdir file = take 1023 (outdir ++ file)

-- The keys and the certificates of the three parties.
pub record Pki : Type 0 where
  pub ca : HawkKeypair
  pub server : HawkKeypair
  pub client : HawkKeypair
  pub ca_cert : List ℕ
  pub server_cert : List ℕ
  pub client_cert : List ℕ

module _ (h : Host) where
  unfoldable pub gen_key : ℕ → Option HawkKeypair
  gen_key n = if h.allocated then h.hawk_keygen n else none

  unfoldable pub sign_tbs : List ℕ → List ℕ → Option (List ℕ)
  sign_tbs tbs priv = if h.allocated then h.hawk_sign_finish tbs priv else none

  -- The part of `main` that makes the keys and the certificates.
  unfoldable pub make_pki : Option Pki
  make_pki = do
    ca ← gen_key 0
    server ← gen_key 1
    client ← gen_key 2
    ca_cert ← make_cert h.gmtime sign_tbs (h.time 0) [] 1 root_name ca root_name ca true false
    server_cert ←
        make_cert h.gmtime sign_tbs (h.time 1) [] 2 root_name ca server_name server false true
    client_cert ←
        make_cert h.gmtime sign_tbs (h.time 2) [] 3 root_name ca client_name client false false
    some (record {
      ca = ca;
      server = server;
      client = client;
      ca_cert = ca_cert;
      server_cert = server_cert;
      client_cert = client_cert;
    })

  -- `write_pem` with its file.
  unfoldable pub write_file : List ℕ → List ℕ → List ℕ → Files → Run
  write_file path type der files =
      if h.opens path then (true, (path, write_pem type der) ∷ files) else (false, files)

  -- `write_pem` of a private key, where `pkcs8` has not died.
  abbrev pub write_key : List ℕ → Option (List ℕ) → Files → Run
  write_key path none files = (false, files)
  write_key path (some der) files = write_file path (codes "PRIVATE KEY") der files

  unfoldable pub write_pair : List ℕ → List ℕ → List ℕ → HawkKeypair → Files → Run
  write_pair cert_path key_path cert kp files = elim (pkcs8 [] kp) [
    | none ↦ (false, files)
    | some key ↦
        next (write_file cert_path (codes "CERTIFICATE") cert files)
          (write_file key_path (codes "PRIVATE KEY") key)
  ]

  -- The part of `main` that writes the files.
  unfoldable pub write_pki : List ℕ → Pki → Files → Run
  write_pki outdir p files =
      next
        (write_file (path_in outdir (codes "/ca.cert.pem")) (codes "CERTIFICATE") p.ca_cert files)
        λ files₁.
          next (write_key (path_in outdir (codes "/ca.key.pem")) (pkcs8 [] p.ca) files₁) λ files₂.
            next
              (write_pair (path_in outdir (codes "/server.cert.pem"))
                (path_in outdir (codes "/server.key.pem")) p.server_cert p.server files₂)
              (write_pair (path_in outdir (codes "/client_hawk512.cert.pem"))
                (path_in outdir (codes "/client_hawk512.key.pem")) p.client_cert p.client)

  -- `main` on the directory: the exit status is 0 where it goes on to the end, and 1 else.
  unfoldable pub main : List ℕ → Run
  main outdir =
      if not (h.command (take 1023 (codes "mkdir -p '" ++ (outdir ++ codes "'"))))
      then (false, [])
      else elim make_pki [ none ↦ (false, []) | some p ↦ write_pki outdir p [] ]
