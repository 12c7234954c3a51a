-- ===== src/Pki/Generator/Tests.antt =====
-- The theorem on `main` of tools/gen_hawk_pki.c on a concrete host.
use assessing_pq_mqtt_m_tls.Common.{
  same, same-itself, ℕ, zero, suc, ◌+◌, ◌%◌, ◌<◌, ◌≡◌, refl, List, some, true, Bool, length,
  replicate, length-replicate, arith, codes,
}
use assessing_pq_mqtt_m_tls.Pki.Pem.RoundTrip.{IsBytes}
use assessing_pq_mqtt_m_tls.Pki.Certificate.{HawkKeypair, Tm}
use assessing_pq_mqtt_m_tls.Pki.Certificate.Fields.{IsShown}
use assessing_pq_mqtt_m_tls.Pki.Certificate.Reader.{Certificate}
use assessing_pq_mqtt_m_tls.Pki.Generator.{Host, main}
use assessing_pq_mqtt_m_tls.Pki.Generator.Deployed.{IsHawkKey, Works, Deployed}
use assessing_pq_mqtt_m_tls.Pki.Generator.Issued.{main-Deployed}

replicate-IsBytes : (n b : ℕ) → b < 256 → IsBytes (replicate n b)
replicate-IsBytes zero b h = tt
replicate-IsBytes (suc n) b h = (h, replicate-IsBytes n b h)

-- Keys and signatures of one byte, repeated.
abbrev toy_keys : ℕ → HawkKeypair
toy_keys n = record { priv = replicate 184 (n % 256); public = replicate 1024 (n % 256) }

abbrev toy_signature : List ℕ → List ℕ
toy_signature tbs = replicate 555 (length tbs % 256)

toy_check : List ℕ → List ℕ → List ℕ → Bool
toy_check public tbs sig = same sig (toy_signature tbs)

abbrev evening : Tm
evening = record { tm_year = 126; tm_mon = 10; tm_mday = 26; tm_hour = 20; tm_min = 15; tm_sec = 0 }

abbrev toy_host : Host
toy_host = record {
  allocated = true;
  hawk_keygen = λ n. some (toy_keys n);
  hawk_sign_finish = λ tbs priv. some (toy_signature tbs);
  time = λ n. 1000 + n;
  gmtime = λ t. evening;
  command = λ c. true;
  opens = λ p. true;
}

toy_keys-IsHawkKey : (n : ℕ) → IsHawkKey (toy_keys n)
toy_keys-IsHawkKey n = record {
  priv_size = length-replicate 184 (n % 256);
  public_size = length-replicate 1024 (n % 256);
  priv_bytes = replicate-IsBytes 184 (n % 256) (omega arith);
  public_bytes = replicate-IsBytes 1024 (n % 256) (omega arith);
}

evening-IsShown : IsShown evening
evening-IsShown = omega arith

toy_host-Works : Works toy_check toy_host
unfolding toy_check
toy_host-Works = record {
  memory = refl;
  keys = toy_keys;
  keygen = λ n. refl;
  keys_good = toy_keys-IsHawkKey;
  signature = λ n tbs. toy_signature tbs;
  signs = λ n tbs. refl;
  signature_size = λ n tbs. length-replicate 555 (length tbs % 256);
  signature_bytes = λ n tbs. replicate-IsBytes 555 (length tbs % 256) (omega arith);
  verifies = λ n tbs. same-itself (toy_signature tbs);
  begin_shown = λ n. evening-IsShown;
  end_shown = λ n. evening-IsShown;
  directory_made = λ c. refl;
  file_opened = λ p. refl;
}

main-Deployed_example :
    (files : List (List ℕ × List ℕ)) × (root server client : Certificate) × (main toy_host
        (codes "certlab/hawk512")
      ≡ (true, files))
    × Deployed toy_check (codes "certlab/hawk512") files root server client
main-Deployed_example =
    main-Deployed toy_check toy_host (codes "certlab/hawk512") toy_host-Works (omega arith)
