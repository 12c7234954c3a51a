-- ===== src/Pki/Generator/Files.antt =====
-- The files that tools/gen_hawk_pki.c leaves in its directory, by their names.
use assessing_pq_mqtt_m_tls.Common.{
  same, same-append, ◌>>=◌, ℕ, ◌≤◌, ◌≡◌, refl, List, [], ◌∷◌, ◌++◌, Option, some, none, length,
  take, take_all, length-append, All, arith, if◌then◌else◌, codes,
}
use assessing_pq_mqtt_m_tls.Pki.Pem.{write_pem}
use assessing_pq_mqtt_m_tls.Pki.Pem.RoundTrip.{IsBytes}
use assessing_pq_mqtt_m_tls.Pki.Pem.File.{read_pem, read_pem-write_pem}
use assessing_pq_mqtt_m_tls.Pki.Certificate.Key.{read_pkcs8}
use assessing_pq_mqtt_m_tls.Pki.Certificate.Reader.{Certificate, read_certificate}

-- What was written last to a path.
unfoldable pub read_file : List ℕ → List (List ℕ × List ℕ) → Option (List ℕ)
read_file path [] = none
read_file path ((p, content) ∷ files) =
    let rest = read_file path files in if same p path then some content else rest

-- The certificate in a file.
unfoldable pub certificate_in : List ℕ → List (List ℕ × List ℕ) → Option Certificate
certificate_in path files =
    (read_file path files >>= read_pem (codes "CERTIFICATE")) >>= read_certificate

-- The key pair in a file of a private key.
unfoldable pub key_in : List ℕ → List (List ℕ × List ℕ) → Option (List ℕ)
key_in path files = (read_file path files >>= read_pem (codes "PRIVATE KEY")) >>= λ der.
    read_pkcs8 der >>= λ (_, _, octets). some octets

-- Files of a directory, by the names in it.
abbrev pub stored : List ℕ → List (List ℕ × List ℕ) → List (List ℕ × List ℕ)
stored outdir [] = []
stored outdir ((name, content) ∷ entries) =
    (take 1023 (outdir ++ name), content) ∷ stored outdir entries

abbrev pub ShortNames : List (List ℕ × List ℕ) → Type 0
ShortNames entries = All (λ (e : List ℕ × List ℕ). length e.0 ≤ 100) entries

-- A path that is not cut off is found by its name.
pub read_file-stored :
    (outdir name : List ℕ) (entries : List (List ℕ × List ℕ))
    → length outdir ≤ 900
    → ShortNames entries
    → read_file (outdir ++ name) (stored outdir entries) ≡ read_file name entries
unfolding read_file
read_file-stored outdir name [] h s = refl
read_file-stored outdir name ((n, content) ∷ entries) h s =
    let whole : take 1023 (outdir ++ n) ≡ outdir ++ n =
      take_all 1023 (outdir ++ n) (omega (arith, length-append outdir n, s.0)) in
    rw (whole, same-append outdir n name, read_file-stored outdir name entries h s.1)

module _ (outdir name : List ℕ) (entries : List (List ℕ × List ℕ)) (h : length outdir ≤ 900)
    (s : ShortNames entries) (der : List ℕ) (b : IsBytes der) where
  pub certificate_in-stored :
      {c : Certificate}
      → read_file name entries ≡ some (write_pem (codes "CERTIFICATE") der)
      → read_certificate der ≡ some c
      → certificate_in (outdir ++ name) (stored outdir entries) ≡ some c
  unfolding certificate_in
  certificate_in-stored r e =
      rw
        (
          read_file-stored outdir name entries h s,
          r,
          read_pem-write_pem (codes "CERTIFICATE") der b,
        )
        e

  pub key_in-stored :
      {version algorithm octets : List ℕ}
      → read_file name entries ≡ some (write_pem (codes "PRIVATE KEY") der)
      → read_pkcs8 der ≡ some (version, algorithm, octets)
      → key_in (outdir ++ name) (stored outdir entries) ≡ some octets
  unfolding key_in
  key_in-stored r e = rw (
    read_file-stored outdir name entries h s,
    r,
    read_pem-write_pem (codes "PRIVATE KEY") der b,
    e,
  )
