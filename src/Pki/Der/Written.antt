-- ===== src/Pki/Der/Written.antt =====
-- What the DER writer appends to a buffer.
use assessing_pq_mqtt_m_tls.Common.{
  >>=-eq-some, ℕ, ◌+◌, ◌^◌, ◌≤◌, ◌<◌, ◌≡◌, ap, ◌∙◌, List, [], ◌∷◌, ◌++◌, some, length, arith,
  length-append, take-append, drop-append, append_assoc,
}
use assessing_pq_mqtt_m_tls.Pki.Der.{put, put_u8, enc_len, tlv, buf_cap, bit_string}
use assessing_pq_mqtt_m_tls.Pki.Der.Format.{read_len, read_tlv}

-- Tag, length and value of one element.
abbrev pub element : ℕ → List ℕ → List ℕ
element tag val = tag ∷ (enc_len (length val) ++ val)

pub put_lem :
    (d src out : List ℕ)
    → put d src ≡ some out
    → (out ≡ d ++ src) × (length d + length src ≤ buf_cap)
unfolding put
put_lem d src out e = ground arith

-- An element that is written whole is appended to the buffer, and its value is no longer than a buffer.
pub tlv_lem :
    (out : List ℕ) (tag : ℕ) (val out' : List ℕ)
    → tlv out tag val ≡ some out'
    → (out' ≡ out ++ element tag val) × (length val ≤ buf_cap)
unfolding tlv put_u8
tlv_lem out tag val out' e =
    let (a, pa, e₁) = >>=-eq-some (put out (tag ∷ [])) _ e in
    let (b, pb, e₂) = >>=-eq-some (put a (enc_len (length val))) _ e₁ in
    let (ea, la) = put_lem out (tag ∷ []) a pa in
    let (eb, lb) = put_lem a (enc_len (length val)) b pb in
    let (ec, lc) = put_lem b val out' e₂ in
    (
      ec
          ∙ ap (λ (t : List ℕ). t ++ val) (eb ∙ ap (λ (t : List ℕ). t ++ enc_len (length val)) ea)
          ∙ append_assoc (out ++ (tag ∷ [])) (enc_len (length val)) val
          ∙ append_assoc out (tag ∷ []) (enc_len (length val) ++ val),
      omega (arith, lc),
    )

read_len-enc_len :
    (n : ℕ) (rest : List ℕ) → n < 2 ^ 16 → read_len (enc_len n ++ rest) ≡ some (n, rest)
unfolding read_len enc_len
read_len-enc_len n rest h = ground arith

-- A reader of the distinguished encoding finds the tag and the value of an element of less than
-- 2 ^ 16 bytes, and what follows it.
pub read_tlv-element :
    (tag : ℕ) (val rest : List ℕ)
    → length val < 2 ^ 16
    → read_tlv (element tag val ++ rest) ≡ some (tag, val, rest)
unfolding read_tlv
read_tlv-element tag val rest h =
    rw (append_assoc (enc_len (length val)) val rest, read_len-enc_len (length val) (val ++ rest) h)
      (ground (arith, length-append val rest, take-append val rest, drop-append val rest))

-- What `tlv` appends to a buffer, where the buffer does not overflow, is an element that a reader of
-- the distinguished encoding takes for the tag and the value that were given, and nothing else.
pub read_tlv-tlv :
    (out : List ℕ) (tag : ℕ) (val out' rest : List ℕ)
    → tlv out tag val ≡ some out'
    → (e : List ℕ) × (out' ≡ out ++ e) × (read_tlv (e ++ rest) ≡ some (tag, val, rest))
read_tlv-tlv out tag val out' rest e =
    let (w, l) = tlv_lem out tag val out' e in
    (element tag val, w, read_tlv-element tag val rest (omega arith))

pub bit_string_lem :
    (out val out' : List ℕ)
    → bit_string out val ≡ some out'
    → (out' ≡ out ++ element 0x03 (0x00 ∷ val)) × (length (0x00 ∷ val) ≤ buf_cap)
unfolding bit_string put_u8
bit_string_lem out val out' e =
    let (a, pa, e₁) = >>=-eq-some (put [] (0x00 ∷ [])) _ e in
    let (b, pb, e₂) = >>=-eq-some (put a val) _ e₁ in
    let (ea, la) = put_lem [] (0x00 ∷ []) a pa in
    let (eb, lb) = put_lem a val b pb in
    rw (eb ∙ ap (λ (t : List ℕ). t ++ val) ea) at (tlv_lem out 0x03 b out' e₂)
