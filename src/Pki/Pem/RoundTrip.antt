-- ===== src/Pki/Pem/RoundTrip.antt =====
-- Base64 of tools/gen_hawk_pki.c, read back.
use assessing_pq_mqtt_m_tls.Common.{
  ◌>>=◌, ℕ, zero, suc, ◌+◌, ◌-◌, ◌*◌, ◌/◌, ◌%◌, ◌^◌, ◌<◌, ◌≡◌, refl, sym, ap, ap₂, ◌∙◌, List, [],
  ◌∷◌, Option, some, none, Bool, true, false, get_or, ◌==◌, ◌&&◌, ltb, leb, bit_or, bit_and-0x3f,
  bit_or-shifted, if◌then◌else◌, All, arith, ==_iff, not, ◌||◌, length, Bool-cases, inl, inr,
}
use assessing_pq_mqtt_m_tls.Pki.Pem.{b64tab, sextet, pem_groups, pem_lines}

-- The number that a character of base64 stands for (RFC 4648), or 64 where it stands for none.
abbrev pub b64_value : ℕ → ℕ
b64_value c =
    if leb b'A' c && leb c b'Z'
    then c - b'A'
    else if leb b'a' c && leb c b'z'
    then c - b'a' + 26
    else if leb b'0' c && leb c b'9'
    then c - b'0' + 52
    else if c == b'+'
    then 62
    else if c == b'/'
    then 63
    else 64

-- A test on every number below a bound.
all_below : ℕ → (ℕ → Bool) → Bool
all_below zero test = true
all_below (suc n) test = test n && all_below n test

all_below_sound :
    (n : ℕ) (test : ℕ → Bool) → all_below n test ≡ true → (i : ℕ) → i < n → test i ≡ true
unfolding all_below
all_below_sound zero test h i l = absurd (omega arith)
all_below_sound (suc n) test h i l = elim (Bool-cases (i == n)) [
  | inl e ↦ let q : i ≡ n = ground arith in rw q (ground arith)
  | inr e ↦ all_below_sound n test (ground arith) i (ground arith)
]

b64tab_checked : all_below 64 (λ i. b64_value (get_or b64tab i 0) == i) ≡ true
unfolding all_below
b64tab_checked = refl

b64_value-b64tab : (i : ℕ) → i < 64 → b64_value (get_or b64tab i 0) ≡ i
b64_value-b64tab i h =
    let t = all_below_sound 64 (λ k. b64_value (get_or b64tab k 0) == k) b64tab_checked i h in
    (==_iff (b64_value (get_or b64tab i 0)) i).0 t

sextet_value : (v s : ℕ) → b64_value (sextet v s) ≡ v / 2 ^ s % 64
sextet_value v s = rw (bit_and-0x3f (v / 2 ^ s)) (b64_value-b64tab (v / 2 ^ s % 64) (omega arith))

-- A character of the table is neither the padding nor the end of a line nor a dash.
pub sextet_plain :
    (v s : ℕ)
    → ((sextet v s == b'=') ≡ false)
      × ((sextet v s == b'\n') ≡ false)
      × ((sextet v s == b'-') ≡ false)
sextet_plain v s =
    let w = sextet_value v s in
    let l : v / 2 ^ s % 64 < 64 = omega arith in
    (plain b'=' refl, plain b'\n' refl, plain b'-' refl)
  where
    plain : (k : ℕ) → b64_value k ≡ 64 → (sextet v s == k) ≡ false
    plain k h = elim (Bool-cases (sextet v s == k)) [
      | inl e ↦
          let q : sextet v s ≡ k = (==_iff (sextet v s) k).0 e in
          absurd (omega (arith, sym (ap b64_value q) ∙ sextet_value v s, h))
      | inr e ↦ e
    ]

-- A reader of base64 (RFC 4648): groups of four characters, with padding in the last one only.
unfoldable pub read_b64 : List ℕ → Option (List ℕ)
read_b64 [] = some []
read_b64 (w ∷ x ∷ y ∷ z ∷ rest) =
    let first = b64_value w * 4 + b64_value x / 16 in
    let second = b64_value x % 16 * 16 + b64_value y / 4 in
    let third = b64_value y % 4 * 64 + b64_value z in
    let more = read_b64 rest in
    if y == b'='
    then if length rest == 0 then some (first ∷ []) else none
    else if z == b'='
    then if length rest == 0 then some (first ∷ second ∷ []) else none
    else (more >>= λ bs. some (first ∷ second ∷ third ∷ bs))
read_b64 (_ ∷ []) = none
read_b64 (_ ∷ _ ∷ []) = none
read_b64 (_ ∷ _ ∷ _ ∷ []) = none

abbrev pub IsBytes : List ℕ → Type 0
IsBytes bs = All (λ (b : ℕ). b < 256) bs

two_bytes_joined : (a b : ℕ) → b < 256 → bit_or (b * 2 ^ 8) (a * 2 ^ 16) ≡ a * 65536 + b * 256
two_bytes_joined a b h = omega (arith, bit_or-shifted 16 (b * 2 ^ 8) a (omega arith))

three_bytes_joined :
    (a b c : ℕ)
    → b < 256
    → c < 256
    → bit_or c (bit_or (b * 2 ^ 8) (a * 2 ^ 16)) ≡ a * 65536 + b * 256 + c
three_bytes_joined a b c h k =
    let e : bit_or (b * 2 ^ 8) (a * 2 ^ 16) ≡ (a * 256 + b) * 2 ^ 8 =
      omega (arith, two_bytes_joined a b h) in
    ap (bit_or c) e ∙ omega (arith, bit_or-shifted 8 c (a * 256 + b) (omega arith))

read_b64-pem_groups : (der : List ℕ) → IsBytes der → read_b64 (pem_groups der) ≡ some der
unfolding read_b64 pem_groups
read_b64-pem_groups [] h = refl
read_b64-pem_groups (a ∷ []) h =
    let v = a * 2 ^ 16 in
    rw (sextet_value v 18, sextet_value v 12) (ap (λ (x : ℕ). some (x ∷ [])) (omega (arith, h.0)))
read_b64-pem_groups (a ∷ b ∷ []) h =
    let v = bit_or (b * 2 ^ 8) (a * 2 ^ 16) in
    let e = two_bytes_joined a b h.1.0 in
    rw ((sextet_plain v 6).0, sextet_value v 18, sextet_value v 12, sextet_value v 6)
      (ap₂ (λ (x y : ℕ). some (x ∷ y ∷ [])) (omega (arith, e, h.0, h.1.0))
        (omega (arith, e, h.0, h.1.0)))
read_b64-pem_groups (a ∷ b ∷ c ∷ der) h =
    let v = bit_or c (bit_or (b * 2 ^ 8) (a * 2 ^ 16)) in
    let e = three_bytes_joined a b c h.1.0 h.1.1.0 in
    let ih = read_b64-pem_groups der h.1.1.1 in
    rw
      (
        (sextet_plain v 6).0,
        (sextet_plain v 0).0,
        ih,
        sextet_value v 18,
        sextet_value v 12,
        sextet_value v 6,
        sextet_value v 0,
      )
      (three_eq (omega (arith, e, h.0, h.1.0, h.1.1.0)) (omega (arith, e, h.0, h.1.0, h.1.1.0))
        (omega (arith, e, h.0, h.1.0, h.1.1.0)))
  where
    three_eq :
        {x y z x' y' z' : ℕ}
        → x ≡ x'
        → y ≡ y'
        → z ≡ z'
        → some (x ∷ y ∷ z ∷ der) ≡ some (x' ∷ y' ∷ z' ∷ der)
    three_eq p q r = rw (p, q, r) refl

-- The characters without the ends of the lines.
unfoldable pub unwrapped : List ℕ → List ℕ
unwrapped [] = []
unwrapped (c ∷ text) = let rest = unwrapped text in if c == b'\n' then rest else c ∷ rest

-- Every line but the last has 64 characters, and the last has no more; `col` is the column.
unfoldable pub lines_fit : ℕ → List ℕ → Bool
lines_fit col [] = col == 0
lines_fit col (c ∷ text) =
    let ended = lines_fit 0 text in
    let going = lines_fit (col + 1) text in
    if c == b'\n'
    then ended && (col == 64 || (not (col == 0) && length text == 0))
    else ltb col 64 && going

abbrev pub NoNewline : List ℕ → Type 0
NoNewline out = All (λ (c : ℕ). (c == b'\n') ≡ false) out

pem_groups-NoNewline : (der : List ℕ) → NoNewline (pem_groups der)
unfolding pem_groups
pem_groups-NoNewline [] = tt
pem_groups-NoNewline (a ∷ []) =
    let v = a * 2 ^ 16 in ((sextet_plain v 18).1, ((sextet_plain v 12).1, (refl, (refl, tt))))
pem_groups-NoNewline (a ∷ b ∷ []) =
    let v = bit_or (b * 2 ^ 8) (a * 2 ^ 16) in
    ((sextet_plain v 18).1, ((sextet_plain v 12).1, ((sextet_plain v 6).1, (refl, tt))))
pem_groups-NoNewline (a ∷ b ∷ c ∷ der) =
    let v = bit_or c (bit_or (b * 2 ^ 8) (a * 2 ^ 16)) in
    (
      (sextet_plain v 18).1,
      (
        (sextet_plain v 12).1,
        ((sextet_plain v 6).1, ((sextet_plain v 0).1, pem_groups-NoNewline der)),
      ),
    )

pem_lines_lem :
    (col : ℕ) (out : List ℕ)
    → NoNewline out
    → col < 64
    → (unwrapped (pem_lines col out) ≡ out) × (lines_fit col (pem_lines col out) ≡ true)
unfolding pem_lines unwrapped lines_fit
pem_lines_lem col [] h l = ground arith
pem_lines_lem col (c ∷ out) h l = elim (Bool-cases (col + 1 == 64)) [
  | inl e ↦
      let (p, q) = pem_lines_lem 0 out h.1 (omega arith) in
      simp (e, h.0) (ap (λ (t : List ℕ). c ∷ t) p, ground (arith, q))
  | inr e ↦
      let (p, q) = pem_lines_lem (col + 1) out h.1 (ground arith) in
      simp (e, h.0) (ap (λ (t : List ℕ). c ∷ t) p, ground (arith, q))
]

-- What `write_pem` writes between its two marks for a list of bytes is base64 of those bytes, in lines
-- of 64 characters of which only the last may be shorter.
pub read_b64-pem_lines :
    (der : List ℕ)
    → IsBytes der
    → (read_b64 (unwrapped (pem_lines 0 (pem_groups der))) ≡ some der)
      × (lines_fit 0 (pem_lines 0 (pem_groups der)) ≡ true)
read_b64-pem_lines der h =
    let (p, q) = pem_lines_lem 0 (pem_groups der) (pem_groups-NoNewline der) (omega arith) in
    (rw p (read_b64-pem_groups der h), q)
