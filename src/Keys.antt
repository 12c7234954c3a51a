-- ===== src/Keys.antt =====
-- The keys of the three signature schemes that the client's TLS library calls:
-- mqtt_client/hawk512_tls.c, mqtt_client/mayo1_tls.c and mqtt_client/snova2454_tls.c. The code that
-- the three files share, but for the sizes, stands here with the sizes as a parameter. A pointer is
-- an option, `none` for NULL; a buffer and its length are one list of bytes.
pub mod Import
pub mod Unwrap
pub mod Accepted
pub mod Hawk512
pub mod Mayo1
pub mod Snova2454
mod Tests
use assessing_pq_mqtt_m_tls.Common.{
  ℕ, zero, suc, ◌+◌, ◌-◌, ◌*◌, ◌%◌, ◌^◌, List, [], ◌∷◌, ◌++◌, Option, some, none, length, take,
  drop, replicate, ltb, ◌==◌, ◌!=◌, ◌||◌, bit_and, bit_or, Bool, true, false, not, if◌then◌else◌,
}

-- The results of the library's functions: 0 and wolfSSL's error codes, and what a scheme's own code
-- returns.
pub data Status : Type 0 where
  success : Status
  bad_func_arg : Status
  buffer_e : Status
  memory_e : Status
  asn_parse_e : Status
  rng_failure_e : Status
  scheme_error : ℕ → Status

pub record Sizes : Type 0 where
  pub priv_size : ℕ
  pub pub_size : ℕ
  pub sig_size : ℕ

abbrev pub keypair_size : Sizes → ℕ
keypair_size s = s.priv_size + s.pub_size

pub record Key : Type 0 where
  pub priv : List ℕ
  pub public : List ℕ
  pub has_priv : Bool
  pub has_pub : Bool

-- The loop over the bytes of a long length, and what it leaves: `len` is a `word32`.
unfoldable pub long_length : ℕ → ℕ → List ℕ → ℕ × List ℕ
long_length zero len input = (len, input)
long_length (suc len_bytes) len [] = (len, [])
long_length (suc len_bytes) len (b ∷ input) =
    long_length len_bytes (bit_or b (len * 2 ^ 8 % 2 ^ 32)) input

-- The length that follows the tag, with the bytes behind it; `input` is what follows the first byte
-- of the length.
unfoldable pub read_length : ℕ → List ℕ → Option (ℕ × List ℕ)
read_length len_byte input =
    if bit_and len_byte 0x80 == 0
    then some (len_byte, input)
    else let len_bytes = bit_and len_byte 0x7f in
      if len_bytes == 0 || ltb 4 len_bytes || ltb (length input) len_bytes
      then none
      else some (long_length len_bytes 0 input)

-- The end of `import_private`, on the result of `import_public`.
abbrev pub add_private : List ℕ → Status × Option Key → Status × Option Key
add_private priv (success, some key) = (success, some (record key { priv = priv; has_priv = true }))
add_private priv (ret, key) = (ret, key)

-- The end of `sign`, on what the scheme's own part gives: its result, the bytes that it writes to
-- the buffer of the signature, and what it writes to `*sigLen`, if it does.
abbrev pub fill : List ℕ → ℕ → Status × List ℕ × Option ℕ → Status × Option (List ℕ) × Option ℕ
fill sig len (ret, written, none) = (ret, some (written ++ drop (length written) sig), some len)
fill sig len (ret, written, some len') =
    (ret, some (written ++ drop (length written) sig), some len')

-- The end of `verify`: `none` is an allocation that failed.
abbrev pub verdict : Option Bool → Status × Option ℕ
verdict none = (memory_e, some 0)
verdict (some accepted) = (success, some (if accepted then 1 else 0))

module _ (sizes : Sizes) where
  abbrev pub zero_key : Key
  zero_key = record {
    priv = replicate sizes.priv_size 0;
    public = replicate sizes.pub_size 0;
    has_priv = false;
    has_pub = false;
  }

  unfoldable pub init : Option Key → Status × Option Key
  init none = (bad_func_arg, none)
  init (some key) = (success, some zero_key)

  unfoldable pub clear : Option Key → Option Key
  clear none = none
  clear (some key) = some zero_key

  unfoldable pub import_public : Option (List ℕ) → Option Key → Status × Option Key
  import_public public none = (bad_func_arg, none)
  import_public none (some key) = (bad_func_arg, some key)
  import_public (some public) (some key) =
      if length public != sizes.pub_size
      then (buffer_e, some key)
      else (success, some (record key { public = public; has_pub = true }))

  unfoldable pub import_private :
      Option (List ℕ) → Option (List ℕ) → Option Key → Status × Option Key
  import_private priv public none = (bad_func_arg, none)
  import_private none public (some key) = (bad_func_arg, some key)
  import_private (some priv) none (some key) = (bad_func_arg, some key)
  import_private (some priv) (some public) (some key) =
      if length priv != sizes.priv_size
      then (buffer_e, some key)
      else add_private priv (import_public (some public) (some key))

  unfoldable pub import_pair : Option (List ℕ) → Option Key → Status × Option Key
  import_pair none key = (bad_func_arg, key)
  import_pair (some key_pair) key =
      if length key_pair != keypair_size sizes
      then (buffer_e, key)
      else import_private (some (take sizes.priv_size key_pair))
          (some (drop sizes.priv_size key_pair)) key

  -- The test on the length, and the result; `input` is what follows the length, so that the code's
  -- `idx + len != inputLen` compares `len` with its length.
  abbrev pub found : Option (ℕ × List ℕ) → Status × Option (List ℕ)
  found none = (asn_parse_e, none)
  found (some (len, input)) =
      if len != keypair_size sizes || len != length input
      then (asn_parse_e, none)
      else (success, some (take len input))

  -- The key pair inside an OCTET STRING.
  abbrev pub unwrap_octets : List ℕ → Status × Option (List ℕ)
  unwrap_octets (tag ∷ len_byte ∷ input) =
      if tag != 0x04 then (asn_parse_e, none) else found (read_length len_byte input)
  unwrap_octets _ = (asn_parse_e, none)

  -- The pointers for the results are not NULL: where one is, the result is BAD_FUNC_ARG.
  unfoldable pub unwrap_private_key_data : Option (List ℕ) → Status × Option (List ℕ)
  unwrap_private_key_data none = (bad_func_arg, none)
  unwrap_private_key_data (some input) =
      if length input == keypair_size sizes then (success, some input) else unwrap_octets input

  -- The result, the buffer of the signature and `*sigLen`; `finish` is the part that differs between
  -- the schemes, on the message and the key.
  unfoldable pub sign :
      (List ℕ → Key → Status × List ℕ × Option ℕ)
      → Option (List ℕ)
      → Option (List ℕ)
      → Option ℕ
      → Option Key
      → Status × Option (List ℕ) × Option ℕ
  sign finish (some msg) none (some len) (some key) = (success, none, some sizes.sig_size)
  sign finish (some msg) (some sig) (some len) (some key) =
      if ltb len sizes.sig_size
      then (buffer_e, some sig, some sizes.sig_size)
      else if not key.has_priv
      then (bad_func_arg, some sig, some len)
      else fill sig len (finish msg key)
  sign finish msg sig len key = (bad_func_arg, sig, len)

  -- The result and `*result`; `check` is the scheme's own test on the signature, the message and the
  -- key.
  unfoldable pub verify :
      (List ℕ → List ℕ → Key → Option Bool)
      → Option (List ℕ)
      → Option (List ℕ)
      → Option ℕ
      → Option Key
      → Status × Option ℕ
  verify check (some sig) (some msg) (some result) (some key) =
      if not key.has_pub || length sig != sizes.sig_size
      then (bad_func_arg, some 0)
      else verdict (check sig msg key)
  verify check sig msg result key = (bad_func_arg, result)
