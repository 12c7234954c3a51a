-- ===== src/Keys/Mayo1.antt =====
-- mqtt_client/mayo1_tls.c. MAYO itself is a parameter.
use assessing_pq_mqtt_m_tls.Common.{ℕ, ◌%◌, ◌^◌, ◌==◌, List, Option, some, none, if◌then◌else◌}
use assessing_pq_mqtt_m_tls.Keys.{
  Status, success, scheme_error, Sizes, Key, init, clear, import_public, import_private,
  import_pair, unwrap_private_key_data, sign, verify,
}

-- WC_MAYO1_PRIV_SIZE, WC_MAYO1_PUB_SIZE and WC_MAYO1_SIG_SIZE
abbrev pub mayo1_sizes : Sizes
mayo1_sizes = record { priv_size = 24; pub_size = 1420; sig_size = 454 }

unfoldable pub wc_mayo1_init : Option Key → Status × Option Key
wc_mayo1_init key = init mayo1_sizes key

unfoldable pub wc_mayo1_free : Option Key → Option Key
wc_mayo1_free key = clear mayo1_sizes key

unfoldable pub wc_mayo1_import_public : Option (List ℕ) → Option Key → Status × Option Key
wc_mayo1_import_public public key = import_public mayo1_sizes public key

unfoldable pub wc_mayo1_import_private_key :
    Option (List ℕ) → Option (List ℕ) → Option Key → Status × Option Key
wc_mayo1_import_private_key priv public key = import_private mayo1_sizes priv public key

unfoldable pub wc_mayo1_import_private_key_pair : Option (List ℕ) → Option Key → Status × Option Key
wc_mayo1_import_private_key_pair key_pair key = import_pair mayo1_sizes key_pair key

unfoldable pub wc_mayo1_unwrap_private_key_data : Option (List ℕ) → Status × Option (List ℕ)
wc_mayo1_unwrap_private_key_data input = unwrap_private_key_data mayo1_sizes input

-- `crypto_sign_signature` on the message and the private key: its result, the bytes that it writes to
-- the signature, and `outLen`; `crypto_sign_verify` on the signature, the message and the public key.
module _ (crypto_sign_signature : List ℕ → List ℕ → ℕ × List ℕ × ℕ)
    (crypto_sign_verify : List ℕ → List ℕ → List ℕ → ℕ) where
  -- The part of `wc_Mayo1_Sign` from the call of `crypto_sign_signature` on.
  abbrev pub mayo1_finish : List ℕ → Key → Status × List ℕ × Option ℕ
  mayo1_finish msg key =
      let (ret, sig, out_len) = crypto_sign_signature msg key.priv in
      if ret == 0 then (success, sig, some (out_len % 2 ^ 32)) else (scheme_error ret, sig, none)

  unfoldable pub wc_mayo1_sign :
      Option (List ℕ)
      → Option (List ℕ)
      → Option ℕ
      → Option Key
      → Status × Option (List ℕ) × Option ℕ
  wc_mayo1_sign msg sig sig_len key = sign mayo1_sizes mayo1_finish msg sig sig_len key

  unfoldable pub wc_mayo1_verify :
      Option (List ℕ) → Option (List ℕ) → Option ℕ → Option Key → Status × Option ℕ
  wc_mayo1_verify sig msg result key =
      verify mayo1_sizes (λ s m k. some (crypto_sign_verify s m k.public == 0)) sig msg result key
