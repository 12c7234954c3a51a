-- ===== src/Keys/Hawk512.antt =====
-- mqtt_client/hawk512_tls.c. HAWK itself, wolfSSL's random numbers and the allocator are parameters.
use assessing_pq_mqtt_m_tls.Common.{
  ◌>>=◌, ℕ, ◌≡◌, ap, List, [], Option, some, none, length, replicate, Bool, true, if◌then◌else◌,
}
use assessing_pq_mqtt_m_tls.Keys.{
  Status, success, bad_func_arg, memory_e, rng_failure_e, Sizes, Key, init, clear, import_public,
  import_private, import_pair, sign, verify,
}
use assessing_pq_mqtt_m_tls.Keys.Import.{import_pair_lem}
use assessing_pq_mqtt_m_tls.Pki.Certificate.{HawkKeypair, pkcs8}
use assessing_pq_mqtt_m_tls.Pki.Certificate.Key.{read_pkcs8, read_pkcs8-pkcs8}

-- WC_HAWK512_PRIV_SIZE, WC_HAWK512_PUB_SIZE and WC_HAWK512_SIG_SIZE
abbrev pub hawk512_sizes : Sizes
hawk512_sizes = record { priv_size = 184; pub_size = 1024; sig_size = 555 }

unfoldable pub wc_hawk512_init : Option Key → Status × Option Key
wc_hawk512_init key = init hawk512_sizes key

unfoldable pub wc_hawk512_free : Option Key → Option Key
wc_hawk512_free key = clear hawk512_sizes key

unfoldable pub wc_hawk512_import_public : Option (List ℕ) → Option Key → Status × Option Key
wc_hawk512_import_public public key = import_public hawk512_sizes public key

unfoldable pub wc_hawk512_import_private_key :
    Option (List ℕ) → Option (List ℕ) → Option Key → Status × Option Key
wc_hawk512_import_private_key priv public key = import_private hawk512_sizes priv public key

unfoldable pub wc_hawk512_import_private_key_pair :
    Option (List ℕ) → Option Key → Status × Option Key
wc_hawk512_import_private_key_pair key_pair key = import_pair hawk512_sizes key_pair key

-- `generate` is `wc_RNG_GenerateBlock` on one generator: the bytes, or `none` for an error, and the
-- generator's next state.
module _ {Rng : Type 0} (generate : Rng → ℕ → Option (List ℕ) × Rng) where
  -- The bytes that are written to `dst`.
  unfoldable pub wc_hawk512_rng : Option Rng → ℕ → List ℕ × Option Rng
  wc_hawk512_rng none len = (replicate len 0, none)
  wc_hawk512_rng (some rng) len = filled (generate rng len)
    where
      filled : Option (List ℕ) × Rng → List ℕ × Option Rng
      filled (none, rng') = (replicate len 0, some rng')
      filled (some bytes, rng') = (bytes, some rng')

-- What HAWK is asked for: `hawk_sign_finish` on the random source, its state, the message and the
-- private key gives its result and the bytes it writes to the signature; `hawk_verify_finish` is on
-- the signature, the message and the public key. `allocated` says whether XMALLOC gives the memory.
module _ {Rng : Type 0} (generate : Rng → ℕ → Option (List ℕ) × Rng)
    (hawk_sign_finish : (Option Rng → ℕ → List ℕ × Option Rng)
      → Option Rng
      → List ℕ
      → List ℕ
      → Bool × List ℕ)
    (hawk_verify_finish : List ℕ → List ℕ → List ℕ → Bool) (allocated : Bool) where
  -- The part of `wc_Hawk512_Sign` from `rng == NULL` on.
  abbrev pub hawk512_finish : Option Rng → List ℕ → Key → Status × List ℕ × Option ℕ
  hawk512_finish none msg key = (bad_func_arg, [], none)
  hawk512_finish (some rng) msg key =
      if allocated
      then (let (accepted, sig) =
            hawk_sign_finish (wc_hawk512_rng generate) (some rng) msg key.priv in
          if accepted
          then (success, sig, some hawk512_sizes.sig_size)
          else (rng_failure_e, sig, none))
      else (memory_e, [], none)

  unfoldable pub wc_hawk512_sign :
      Option (List ℕ)
      → Option (List ℕ)
      → Option ℕ
      → Option Key
      → Option Rng
      → Status × Option (List ℕ) × Option ℕ
  wc_hawk512_sign msg sig sig_len key rng =
      sign hawk512_sizes (hawk512_finish rng) msg sig sig_len key

  unfoldable pub wc_hawk512_verify :
      Option (List ℕ) → Option (List ℕ) → Option ℕ → Option Key → Status × Option ℕ
  wc_hawk512_verify sig msg result key =
      verify hawk512_sizes
        (λ s m k. if allocated then some (hawk_verify_finish s m k.public) else none) sig msg result
        key

-- The private key in the file that the generator writes is one that the client imports: it has the
-- generator's two keys.
pub import-read_pkcs8-pkcs8 :
    (kp : HawkKeypair) (der : List ℕ) (key : Key)
    → length kp.priv ≡ 184
    → length kp.public ≡ 1024
    → pkcs8 [] kp ≡ some der
    → (read_pkcs8 der >>= λ (version, algorithm, octets).
        some (wc_hawk512_import_private_key_pair (some octets) (some key)))
      ≡ some (
        success,
        some (record { priv = kp.priv; public = kp.public; has_priv = true; has_pub = true }),
      )
unfolding wc_hawk512_import_private_key_pair
import-read_pkcs8-pkcs8 kp der key hp hq e =
    rw (read_pkcs8-pkcs8 kp der e)
      (ap some (import_pair_lem hawk512_sizes kp.priv kp.public key hp hq))
