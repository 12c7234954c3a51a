-- ===== src/Keys/Tests.antt =====
-- The theorems on the schemes' keys at concrete inputs.
use assessing_pq_mqtt_m_tls.Common.{
  ◌>>=◌, ℕ, ◌≡◌, ◌⊎◌, ◌↔◌, refl, List, [], ◌∷◌, ◌++◌, Option, some, none, arith, length, Bool, true,
  replicate, length-replicate, ◌==◌, drop,
}
use assessing_pq_mqtt_m_tls.Keys.{
  Status, success, Sizes, Key, keypair_size, zero_key, read_length, long_length, import_pair,
  unwrap_private_key_data, verify,
}
use assessing_pq_mqtt_m_tls.Keys.Import.{IsValid, Keeps, import_pair-Keeps}
use assessing_pq_mqtt_m_tls.Keys.Unwrap.{
  unwrap_private_key_data-element, unwrap_private_key_data-Suffix,
}
use assessing_pq_mqtt_m_tls.Keys.Accepted.{verify_lem}
use assessing_pq_mqtt_m_tls.Keys.Hawk512.{
  hawk512_sizes, wc_hawk512_import_private_key_pair, import-read_pkcs8-pkcs8,
}
use assessing_pq_mqtt_m_tls.Keys.Mayo1.{mayo1_sizes}
use assessing_pq_mqtt_m_tls.Keys.Snova2454.{wc_snova2454_verify, wc_snova2454_verify_lem}
use assessing_pq_mqtt_m_tls.Pki.Der.Written.{element}
use assessing_pq_mqtt_m_tls.Pki.Certificate.{HawkKeypair, alg_id, pkcs8}
use assessing_pq_mqtt_m_tls.Pki.Der.{
  put, put_u8, enc_len, tlv, seq, oid, nullv, integer_small, integer_bytes, octet_string,
}
use assessing_pq_mqtt_m_tls.Pki.Certificate.Key.{read_pkcs8}

-- A scheme with small keys.
abbrev tiny : Sizes
tiny = record { priv_size = 2; pub_size = 1; sig_size = 2 }

abbrev full_key : Key
full_key = record { priv = 1 ∷ 2 ∷ []; public = 3 ∷ []; has_priv = true; has_pub = true }

full_key-IsValid : IsValid tiny full_key
full_key-IsValid = record { priv_whole = λ _. refl; public_whole = λ _. refl }

import_pair-Keeps_example :
    Keeps tiny full_key (import_pair tiny (some (7 ∷ 8 ∷ [])) (some full_key))
import_pair-Keeps_example = import_pair-Keeps tiny (some (7 ∷ 8 ∷ [])) full_key full_key-IsValid

abbrev mayo_pair : List ℕ
mayo_pair = replicate 1444 5

unwrap_private_key_data-element_example :
    unwrap_private_key_data mayo1_sizes (some (element 0x04 mayo_pair)) ≡ (success, some mayo_pair)
unwrap_private_key_data-element_example =
    unwrap_private_key_data-element mayo1_sizes mayo_pair (length-replicate {A = ℕ} 1444 5)
      (omega (arith, length-replicate {A = ℕ} 1444 5))

abbrev tiny_pair : List ℕ
tiny_pair = 1 ∷ 2 ∷ 3 ∷ []

abbrev tiny_octets : List ℕ
tiny_octets = 0x04 ∷ 3 ∷ tiny_pair

tiny_wrapped : unwrap_private_key_data tiny (some tiny_octets) ≡ (success, some tiny_pair)
unfolding unwrap_private_key_data read_length long_length
tiny_wrapped = refl

unwrap_private_key_data-Suffix_example :
    (length tiny_pair ≡ keypair_size tiny)
    × ((tiny_octets ≡ tiny_pair)
        ⊎ ((wrapping : List ℕ) × (tiny_octets ≡ (0x04 ∷ wrapping) ++ tiny_pair)))
unwrap_private_key_data-Suffix_example =
    unwrap_private_key_data-Suffix tiny tiny_octets tiny_pair tiny_wrapped

abbrev tiny_sig : List ℕ
tiny_sig = 6 ∷ 6 ∷ []

abbrev toy_check : List ℕ → List ℕ → Key → Option Bool
toy_check sig msg key = some (length sig == length msg)

verify_lem_example :
    (((verify tiny toy_check (some tiny_sig) (some (8 ∷ 9 ∷ [])) (some 5) (some full_key)).1
        ≡ some 1)
      ↔ (true ≡ true)
        × (length tiny_sig ≡ 2)
        × (toy_check tiny_sig (8 ∷ 9 ∷ []) full_key ≡ some true))
    × (((verify tiny toy_check (some tiny_sig) (some (8 ∷ 9 ∷ [])) (some 5) (some full_key)).1
          ≡ some 1)
        ⊎ ((verify tiny toy_check (some tiny_sig) (some (8 ∷ 9 ∷ [])) (some 5) (some full_key)).1
            ≡ some 0))
verify_lem_example = verify_lem tiny toy_check tiny_sig (8 ∷ 9 ∷ []) 5 full_key

abbrev toy_finish : List ℕ → Key → Status × List ℕ × Option ℕ
toy_finish msg key = (success, key.priv, some 2)

abbrev hawk_keys : HawkKeypair
hawk_keys = record { priv = replicate 184 1; public = replicate 1024 2 }

abbrev or_empty : Option (List ℕ) → List ℕ
or_empty none = []
or_empty (some bs) = bs

abbrev hawk_key_file : List ℕ
hawk_key_file = or_empty (pkcs8 [] hawk_keys)

hawk_key_file_whole : pkcs8 [] hawk_keys ≡ some hawk_key_file
unfolding pkcs8 integer_small integer_bytes alg_id oid nullv octet_string seq tlv put_u8 put enc_len
hawk_key_file_whole = refl

import-read_pkcs8-pkcs8_example :
    (read_pkcs8 hawk_key_file >>= λ (version, algorithm, octets).
    some (wc_hawk512_import_private_key_pair (some octets) (some (zero_key hawk512_sizes))))
    ≡ some (
      success,
      some (record {
        priv = replicate 184 1;
        public = replicate 1024 2;
        has_priv = true;
        has_pub = true;
      }),
    )
import-read_pkcs8-pkcs8_example =
    import-read_pkcs8-pkcs8 hawk_keys hawk_key_file (zero_key hawk512_sizes)
      (length-replicate {A = ℕ} 184 1) (length-replicate {A = ℕ} 1024 2) hawk_key_file_whole

abbrev zero_sig : List ℕ
zero_sig = replicate 248 0

-- SNOVA that opens what carries a signature of zeros.
abbrev toy_open : List ℕ → List ℕ → ℕ × List ℕ
toy_open sm public = (0, drop 248 sm)

wc_snova2454_verify_lem_example :
    ((wc_snova2454_verify
        (λ _ _. (1, []))
        toy_open
        true
        (some zero_sig)
        (some (8 ∷ []))
        (some 5)
        (some full_key)).1
      ≡ some 1)
    ↔ (true ≡ true)
      × (length zero_sig ≡ 248)
      × (toy_open (zero_sig ++ (8 ∷ [])) (3 ∷ []) ≡ (0, 8 ∷ []))
wc_snova2454_verify_lem_example =
    wc_snova2454_verify_lem (λ _ _. (1, [])) toy_open zero_sig (8 ∷ []) 5 full_key
