-- ===== src/Keys/Snova2454.antt =====
-- mqtt_client/snova2454_tls.c. SNOVA itself and the allocator are parameters.
use assessing_pq_mqtt_m_tls.Common.{
  ℕ, ◌≡◌, ◌↔◌, refl, List, [], ◌∷◌, ◌++◌, Option, some, none, length, take, arith, ltb, ◌==◌, ◌&&◌,
  Bool, true, false, if◌then◌else◌,
}
use assessing_pq_mqtt_m_tls.Keys.{
  Status, success, memory_e, scheme_error, Sizes, Key, init, clear, import_public, import_private,
  import_pair, unwrap_private_key_data, sign, verify,
}
use assessing_pq_mqtt_m_tls.Keys.Accepted.{verify_lem}

-- WC_SNOVA2454_PRIV_SIZE, WC_SNOVA2454_PUB_SIZE and WC_SNOVA2454_SIG_SIZE
abbrev pub snova2454_sizes : Sizes
snova2454_sizes = record { priv_size = 48; pub_size = 1016; sig_size = 248 }

unfoldable pub wc_snova2454_init : Option Key → Status × Option Key
wc_snova2454_init key = init snova2454_sizes key

unfoldable pub wc_snova2454_free : Option Key → Option Key
wc_snova2454_free key = clear snova2454_sizes key

unfoldable pub wc_snova2454_import_public : Option (List ℕ) → Option Key → Status × Option Key
wc_snova2454_import_public public key = import_public snova2454_sizes public key

unfoldable pub wc_snova2454_import_private_key :
    Option (List ℕ) → Option (List ℕ) → Option Key → Status × Option Key
wc_snova2454_import_private_key priv public key = import_private snova2454_sizes priv public key

unfoldable pub wc_snova2454_import_private_key_pair :
    Option (List ℕ) → Option Key → Status × Option Key
wc_snova2454_import_private_key_pair key_pair key = import_pair snova2454_sizes key_pair key

unfoldable pub wc_snova2454_unwrap_private_key_data : Option (List ℕ) → Status × Option (List ℕ)
wc_snova2454_unwrap_private_key_data input = unwrap_private_key_data snova2454_sizes input

-- `memcmp(a, b, n) == 0` for lists of n bytes.
unfoldable pub equal : List ℕ → List ℕ → Bool
equal [] [] = true
equal (a ∷ xs) (b ∷ ys) = (a == b) && equal xs ys
equal _ _ = false

-- `crypto_sign` on the message and the private key: its result and the bytes of `sm`, whose number is
-- `smLen`. `crypto_sign_open` on the signed message and the public key: its result and the bytes of
-- `out`, whose number is `outLen`. `allocated` says whether the calls of XMALLOC give the memory.
module _ (crypto_sign : List ℕ → List ℕ → ℕ × List ℕ)
    (crypto_sign_open : List ℕ → List ℕ → ℕ × List ℕ) (allocated : Bool) where
  -- The part of `wc_Snova2454_Sign` from XMALLOC on.
  abbrev pub snova2454_finish : List ℕ → Key → Status × List ℕ × Option ℕ
  snova2454_finish msg key =
      if allocated
      then (let (ret, sm) = crypto_sign msg key.priv in
          if ret == 0
          then if ltb (length sm) snova2454_sizes.sig_size
            then (success, [], none)
            else (success, take snova2454_sizes.sig_size sm, some snova2454_sizes.sig_size)
          else (scheme_error ret, [], none))
      else (memory_e, [], none)

  -- The part of `wc_Snova2454_Verify` from XMALLOC on.
  abbrev pub snova2454_check : List ℕ → List ℕ → Key → Option Bool
  snova2454_check sig msg key =
      if allocated
      then (let (ret, out) = crypto_sign_open (sig ++ msg) key.public in
          some ((ret == 0) && ((length out == length msg) && equal out msg)))
      else none

  unfoldable pub wc_snova2454_sign :
      Option (List ℕ)
      → Option (List ℕ)
      → Option ℕ
      → Option Key
      → Status × Option (List ℕ) × Option ℕ
  wc_snova2454_sign msg sig sig_len key = sign snova2454_sizes snova2454_finish msg sig sig_len key

  unfoldable pub wc_snova2454_verify :
      Option (List ℕ) → Option (List ℕ) → Option ℕ → Option Key → Status × Option ℕ
  wc_snova2454_verify sig msg result key = verify snova2454_sizes snova2454_check sig msg result key

pub equal_sound : (xs ys : List ℕ) → equal xs ys ≡ true → xs ≡ ys
unfolding equal
equal_sound [] [] h = refl
equal_sound (a ∷ xs) (b ∷ ys) h = ground (arith, equal_sound xs ys)
equal_sound [] (b ∷ ys) h = absurd (ground arith)
equal_sound (a ∷ xs) [] h = absurd (ground arith)

pub equal_refl : (xs : List ℕ) → equal xs xs ≡ true
unfolding equal
equal_refl [] = refl
equal_refl (a ∷ xs) = ground (arith, equal_refl xs)

-- With no pointer NULL and the memory given, `*result` is 1 if and only if the key has a public part,
-- the signature has 248 bytes, and SNOVA opens the signature and the message under that part to
-- the very message: a message that opens to another one is not accepted.
pub wc_snova2454_verify_lem :
    (crypto_sign : List ℕ → List ℕ → ℕ × List ℕ) (crypto_sign_open : List ℕ → List ℕ → ℕ × List ℕ)
    (sig msg : List ℕ) (result : ℕ) (key : Key)
    → ((wc_snova2454_verify crypto_sign crypto_sign_open true
          (some sig)
          (some msg)
          (some result)
          (some key)).1
        ≡ some 1)
      ↔ (key.has_pub ≡ true)
        × (length sig ≡ 248)
        × (crypto_sign_open (sig ++ msg) key.public ≡ (0, msg))
unfolding wc_snova2454_verify
wc_snova2454_verify_lem crypto_sign crypto_sign_open sig msg result key =
    let (out, _) =
      verify_lem snova2454_sizes (snova2454_check crypto_sign crypto_sign_open true) sig msg result
        key in
    let test = crypto_sign_open (sig ++ msg) key.public in
    (
      λ e. let (p, l, c) = out.0 e in (p, l, ground (arith, equal_sound test.1 msg)),
      λ (p, l, c). out.1 (p, l, rw c (ground (arith, equal_refl msg))),
    )
