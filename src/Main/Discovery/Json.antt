-- ===== src/Main/Discovery/Json.antt =====
-- A reader of JSON (RFC 8259) for objects, strings and numbers with no white space between them. Strings
-- keep their escapes and numbers their digits.
use assessing_pq_mqtt_m_tls.Common.{
  same, ◌>>=◌, ℕ, zero, suc, List, [], ◌∷◌, Option, some, none, Bool, true, false, ◌&&◌, ◌||◌, ltb,
  leb, ◌==◌, length, if◌then◌else◌,
}

mutual
  pub data Value : Type 0 where
    text : List ℕ → Value
    number : List ℕ → Value
    object : Fields → Value

  pub data Fields : Type 0 where
    end : Fields
    field : List ℕ → Value → Fields → Fields

-- The letters that may follow a backslash.
abbrev is_escape : ℕ → Bool
is_escape c =
    (c == b'"' || c == b'\\')
    || (c == b'/' || c == b'b')
    || ((c == b'f' || c == b'n') || (c == b'r' || c == b't'))
    || c == b'u'

-- A string up to its closing mark; `escaped` says that the last character was a backslash.
unfoldable pub read_string : Bool → List ℕ → Option (List ℕ × List ℕ)
read_string escaped [] = none
read_string true (c ∷ cs) =
    let more = read_string false cs in
    if is_escape c then (more >>= λ (s, rest). some (c ∷ s, rest)) else none
read_string false (c ∷ cs) =
    let more = read_string (c == b'\\') cs in
    if c == b'"'
    then some ([], cs)
    else if ltb c 32
    then none
    else (more >>= λ (s, rest). some (c ∷ s, rest))

-- Where a number stands: at its start, behind its sign, behind a zero that leads, in its whole part, at
-- its point, in its fraction.
pub data Position : Type 0 where
  start sign leading_zero whole point fraction : Position

abbrev pub is_digit : ℕ → Bool
is_digit c = leb b'0' c && leb c b'9'

unfoldable pub after : Position → ℕ → Option Position
after start c =
    if c == b'-'
    then some sign
    else if c == b'0'
    then some leading_zero
    else if is_digit c
    then some whole
    else none
after sign c = if c == b'0' then some leading_zero else if is_digit c then some whole else none
after leading_zero c = if c == b'.' then some point else none
after whole c = if is_digit c then some whole else if c == b'.' then some point else none
after point c = if is_digit c then some fraction else none
after fraction c = if is_digit c then some fraction else none

unfoldable pub may_end : Position → Bool
may_end leading_zero = true
may_end whole = true
may_end fraction = true
may_end start = false
may_end sign = false
may_end point = false

-- Whether the characters are a number, from a position on.
unfoldable pub is_number_from : Position → List ℕ → Bool
is_number_from p [] = may_end p
is_number_from p (c ∷ cs) = elim (after p c) [ none ↦ false | some p' ↦ is_number_from p' cs ]

abbrev pub is_number : List ℕ → Bool
is_number cs = is_number_from start cs

abbrev pub in_number : ℕ → Bool
in_number c = is_digit c || (c == b'-' || c == b'.')

-- The characters of a number in front, and the rest.
unfoldable pub split_number : List ℕ → List ℕ × List ℕ
split_number [] = ([], [])
split_number (c ∷ cs) =
    let (more, rest) = split_number cs in if in_number c then (c ∷ more, rest) else ([], c ∷ cs)

abbrev read_number : List ℕ → Option (Value × List ℕ)
read_number cs =
    let (digits, rest) = split_number cs in
    if is_number digits then some (number digits, rest) else none

-- The given character, and what follows it.
abbrev pub expect_char : ℕ → List ℕ → Option (List ℕ)
expect_char c [] = none
expect_char c (d ∷ cs) = if d == c then some cs else none

abbrev starts_with : ℕ → List ℕ → Bool
starts_with c [] = false
starts_with c (d ∷ cs) = d == c

unfoldable mutual
  pub read_value : ℕ → List ℕ → Option (Value × List ℕ)
  read_value zero cs = none
  read_value (suc f) [] = none
  read_value (suc f) (c ∷ cs) =
      let fields = read_fields f cs in
      if c == b'"'
      then (read_string false cs >>= λ (s, rest). some (text s, rest))
      else if c == b'{'
      then (fields >>= λ (fs, rest). some (object fs, rest))
      else read_number (c ∷ cs)

  -- The fields of an object of one field at least, up to its end.
  pub read_fields : ℕ → List ℕ → Option (Fields × List ℕ)
  read_fields zero cs = none
  read_fields (suc f) cs = do
    cs₁ ← expect_char b'"' cs
    (key, cs₂) ← read_string false cs₁
    cs₃ ← expect_char b':' cs₂
    (value, cs₄) ← read_value f cs₃
    elim (starts_with b',' cs₄) [
      | true ↦ expect_char b',' cs₄ >>= λ cs₅.
          read_fields f cs₅ >>= λ (fs, rest). some (field key value fs, rest)
      | false ↦ expect_char b'}' cs₄ >>= λ rest. some (field key value end, rest)
    ]

-- A whole document; there are fewer nested values and fields than characters.
unfoldable pub read_json : List ℕ → Option Value
read_json cs =
    read_value (suc (length cs)) cs >>= λ (v, rest). if length rest == 0 then some v else none

unfoldable pub find_field : List ℕ → Fields → Option Value
find_field key end = none
find_field key (field k v fs) = let rest = find_field key fs in if same k key then some v else rest

-- A member of an object.
unfoldable pub member : List ℕ → Value → Option Value
member key (object fs) = find_field key fs
member key (text s) = none
member key (number n) = none
