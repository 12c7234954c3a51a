-- ===== src/Keys/Unwrap.antt =====
-- The OCTET STRING around a private key, as mqtt_client/mayo1_tls.c and mqtt_client/snova2454_tls.c
-- read it, against the DER writer of tools/gen_hawk_pki.c.
use assessing_pq_mqtt_m_tls.Common.{
  ℕ, zero, suc, ◌*◌, ◌/◌, ◌%◌, ◌^◌, ◌<◌, ◌≡◌, refl, ap, ◌∙◌, List, [], ◌∷◌, ◌++◌, some, none,
  length, arith, length-append, take_all, ltb, ◌==◌, ◌!=◌, bit_and, bit_or, bit_and-0x80,
  bit_or-shifted, if◌then◌else◌, Bool-cases, inl, inr, ◌⊎◌, Option-cases,
}
use assessing_pq_mqtt_m_tls.Pki.Der.{enc_len}
use assessing_pq_mqtt_m_tls.Pki.Der.Written.{element}
use assessing_pq_mqtt_m_tls.Keys.{
  success, asn_parse_e, Sizes, keypair_size, long_length, read_length, found, unwrap_octets,
  unwrap_private_key_data,
}

read_short : (n : ℕ) (rest : List ℕ) → n < 0x80 → read_length (n % 2 ^ 8) rest ≡ some (n, rest)
unfolding read_length
read_short n rest h = ground (arith, bit_and-0x80 (n % 2 ^ 8))

read_one :
    (n : ℕ) (rest : List ℕ) → n < 0x100 → read_length 0x81 (n % 2 ^ 8 ∷ rest) ≡ some (n, rest)
unfolding read_length long_length
read_one n rest h = ground (arith, bit_or-shifted 8 (n % 2 ^ 8) 0)

read_two :
    (n : ℕ) (rest : List ℕ)
    → n < 2 ^ 16
    → read_length 0x82 (n / 2 ^ 8 % 2 ^ 8 ∷ n % 2 ^ 8 ∷ rest) ≡ some (n, rest)
unfolding read_length long_length
read_two n rest h = ground (
  arith,
  bit_or-shifted 8 (n / 2 ^ 8 % 2 ^ 8) 0,
  bit_or-shifted 8 (n % 2 ^ 8) (n / 2 ^ 8 % 2 ^ 8),
)

read_length-enc_len :
    (tag n : ℕ) (rest : List ℕ) (sizes : Sizes)
    → n < 2 ^ 16
    → unwrap_octets sizes (tag ∷ (enc_len n ++ rest))
      ≡ (if tag != 0x04 then (asn_parse_e, none) else found sizes (some (n, rest)))
unfolding enc_len
read_length-enc_len tag n rest sizes h = elim (Bool-cases (ltb n 0x80)) [
  | inl c ↦ rw c (rw (read_short n rest (ground arith)) refl)
  | inr c ↦ rw c (elim (Bool-cases (ltb n 0x100)) [
    | inl d ↦ rw d (rw (read_one n rest (ground arith)) refl)
    | inr d ↦ rw d (rw (read_two n rest h) refl)
  ])
]

-- A key pair that stands in an OCTET STRING, as the DER writer encodes one, is found in it.
pub unwrap_private_key_data-element :
    (sizes : Sizes) (key_pair : List ℕ)
    → length key_pair ≡ keypair_size sizes
    → length key_pair < 2 ^ 16
    → unwrap_private_key_data sizes (some (element 0x04 key_pair)) ≡ (success, some key_pair)
unfolding unwrap_private_key_data
unwrap_private_key_data-element sizes key_pair h w =
    rw (read_length-enc_len 0x04 (length key_pair) key_pair sizes w) (
      ground (
        arith,
        length-append (enc_len (length key_pair)) key_pair,
        take_all (length key_pair) key_pair,
      ))

long_length_suffix :
    (len_bytes len : ℕ) (input : List ℕ)
    → (w : List ℕ) × (input ≡ w ++ (long_length len_bytes len input).1)
unfolding long_length
long_length_suffix zero len input = ([], refl)
long_length_suffix (suc len_bytes) len [] = ([], refl)
long_length_suffix (suc len_bytes) len (b ∷ input) =
    let (w, e) = long_length_suffix len_bytes (bit_or b (len * 2 ^ 8 % 2 ^ 32)) input in
    (b ∷ w, ap (λ (t : List ℕ). b ∷ t) e)

read_length_suffix :
    (len_byte : ℕ) (input : List ℕ) (len : ℕ) (rest : List ℕ)
    → read_length len_byte input ≡ some (len, rest)
    → (w : List ℕ) × (input ≡ w ++ rest)
unfolding read_length
read_length_suffix len_byte input len rest e = elim (Bool-cases (bit_and len_byte 0x80 == 0)) [
  | inl short ↦ ([], ground arith)
  | inr long ↦
      let (w, f) = long_length_suffix (bit_and len_byte 0x7f) 0 input in
      (w, f ∙ ap (λ (t : List ℕ). w ++ t) (ground arith))
]

found_whole :
    (sizes : Sizes) (len : ℕ) (rest key_pair : List ℕ)
    → found sizes (some (len, rest)) ≡ (success, some key_pair)
    → (length key_pair ≡ keypair_size sizes) × (rest ≡ key_pair)
found_whole sizes len rest key_pair e = ground (arith, take_all len rest)

unwrap_octets_suffix :
    (sizes : Sizes) (input key_pair : List ℕ)
    → unwrap_octets sizes input ≡ (success, some key_pair)
    → (length key_pair ≡ keypair_size sizes)
      × ((wrapping : List ℕ) × (input ≡ (0x04 ∷ wrapping) ++ key_pair))
unwrap_octets_suffix sizes [] key_pair e = absurd (ground arith)
unwrap_octets_suffix sizes (tag ∷ []) key_pair e = absurd (ground arith)
unwrap_octets_suffix sizes (tag ∷ len_byte ∷ input) key_pair e =
    elim (Option-cases (read_length len_byte input)) [
      | inl f ↦ absurd (ground arith)
      | inr ((len, rest), f) ↦
          let (w, g) = read_length_suffix len_byte input len rest f in
          let t : tag ≡ 0x04 = ground arith in
          let (l, k) = found_whole sizes len rest key_pair (ground arith) in
          (l, (len_byte ∷ w, rw (t, g, k) refl))
    ]

-- What an unwrapping finds is a key pair of the scheme's size, and it is the end of the input: it
-- begins at the front, or behind a tag of an OCTET STRING and a length. Nothing is read beyond the
-- input.
pub unwrap_private_key_data-Suffix :
    (sizes : Sizes) (input key_pair : List ℕ)
    → unwrap_private_key_data sizes (some input) ≡ (success, some key_pair)
    → (length key_pair ≡ keypair_size sizes)
      × ((input ≡ key_pair) ⊎ ((wrapping : List ℕ) × (input ≡ (0x04 ∷ wrapping) ++ key_pair)))
unfolding unwrap_private_key_data
unwrap_private_key_data-Suffix sizes input key_pair e =
    elim (Bool-cases (length input == keypair_size sizes)) [
      | inl c ↦ (ground arith, inl (ground arith))
      | inr c ↦ let (l, w) = unwrap_octets_suffix sizes input key_pair (rw c at e) in (l, inr w)
    ]
