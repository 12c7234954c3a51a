-- ===== src/Main/Discovery/Agreement.antt =====
-- The announcement of mqtt_client/main.c for Home Assistant against what the firmware publishes.
use assessing_pq_mqtt_m_tls.Common.{
  same, strip, ◌>>=◌, ℕ, ◌≤◌, ◌≡◌, refl, ap, List, [], ◌∷◌, ◌++◌, Option, some, none, Bool, true,
  false, lt→ltb, ◌<◌, ◌==◌, length, length-append, take_all, All, arith, codes, if◌then◌else◌,
  Option-cases, inl, inr,
}
use assessing_pq_mqtt_m_tls.Main.Discovery.{
  home_assistant_discovery_json, session_topics, payload_text, build_payload, published,
}
use assessing_pq_mqtt_m_tls.Main.Discovery.Json.{
  Value, text, number, object, end, field, read_string, Position, start, sign, leading_zero, whole,
  point, fraction, after, may_end, is_number_from, is_number, in_number, split_number, read_value,
  read_fields, read_json, find_field, member,
}

after-in_number : (p : Position) (c : ℕ) (p' : Position) → after p c ≡ some p' → in_number c ≡ true
unfolding after
after-in_number start c p' h = ground (arith, h)
after-in_number sign c p' h = ground (arith, h)
after-in_number leading_zero c p' h = ground (arith, h)
after-in_number whole c p' h = ground (arith, h)
after-in_number point c p' h = ground (arith, h)
after-in_number fraction c p' h = ground (arith, h)

abbrev InNumber : List ℕ → Type 0
InNumber cs = All (λ (c : ℕ). in_number c ≡ true) cs

is_number_from-InNumber : (p : Position) (cs : List ℕ) → is_number_from p cs ≡ true → InNumber cs
unfolding is_number_from
is_number_from-InNumber p [] h = tt
is_number_from-InNumber p (c ∷ cs) h = elim (Option-cases (after p c)) [
  | inl e ↦ cc (rw (e, is_number_from) at h)
  | inr (p', e) ↦
      (after-in_number p c p' e, is_number_from-InNumber p' cs (rw (e, is_number_from) at h))
]

split_number-append :
    (cs : List ℕ) (c : ℕ) (rest : List ℕ)
    → InNumber cs
    → in_number c ≡ false
    → split_number (cs ++ c ∷ rest) ≡ (cs, c ∷ rest)
unfolding split_number
split_number-append [] c rest h e = rw e refl
split_number-append (d ∷ cs) c rest h e = rw (split_number-append cs c rest h.1 e, h.0) refl

-- An object of one number, as `build_payload` prints it.
payload-read :
    (pico2w : Bool) (temp_c humidity_pct : List ℕ)
    → is_number temp_c ≡ true
    → is_number humidity_pct ≡ true
    → read_json (payload_text pico2w temp_c humidity_pct)
      ≡ some (
          if pico2w
          then object (field (codes "humidity_percent") (number humidity_pct) end)
          else object (field (codes "temperature_c") (number temp_c) end))
unfolding payload_text read_json read_value read_fields read_string is_number_from may_end
payload-read true t [] p q = cc
payload-read true t (d ∷ ds) p q =
    let n = is_number_from-InNumber start (d ∷ ds) q in
    let a : (d == b'"') ≡ false = ground (arith, n.0) in
    let b : (d == b'{') ≡ false = ground (arith, n.0) in
    rw (a, b, split_number-append (d ∷ ds) b'}' [] n refl, q) refl
payload-read false [] h p q = cc
payload-read false (d ∷ ds) h p q =
    let n = is_number_from-InNumber start (d ∷ ds) p in
    let a : (d == b'"') ≡ false = ground (arith, n.0) in
    let b : (d == b'{') ≡ false = ground (arith, n.0) in
    rw (a, b, split_number-append (d ∷ ds) b'}' [] n refl, p) refl

-- The key in a template of the form {{ value_json.key }}.
unfoldable pub up_to_braces : List ℕ → Option (List ℕ)
up_to_braces [] = none
up_to_braces (c ∷ cs) =
    let more = up_to_braces cs in
    if same (c ∷ cs) (codes " }}") then some [] else (more >>= λ key. some (c ∷ key))

unfoldable pub template_key : Value → Option (List ℕ)
template_key (text t) = strip (codes "{{ value_json.") t >>= up_to_braces
template_key (object fs) = none
template_key (number n) = none

-- The only component of a device.
unfoldable pub sole_component : Value → Option Value
sole_component (object (field name component end)) = some component
sole_component (object (field name component (field _ _ _))) = none
sole_component (object end) = none
sole_component (text t) = none
sole_component (number n) = none

-- What Home Assistant shows for a state: the announcement's component says where it stands.
unfoldable pub shown : Value → Value → Option Value
shown doc state = do
  components ← member (codes "cmps") doc
  component ← sole_component components
  template ← member (codes "value_template") component
  key ← template_key template
  member key state

-- The announcement as a tree.
abbrev document : Bool → Value
document pico2w = elim (read_json (home_assistant_discovery_json pico2w)) [
  | none ↦ object end
  | some v ↦ v
]

abbrev state_of : Bool → List ℕ → List ℕ → Value
state_of pico2w temp_c humidity_pct =
    if pico2w
    then object (field (codes "humidity_percent") (number humidity_pct) end)
    else object (field (codes "temperature_c") (number temp_c) end)

document_read :
    (pico2w : Bool) → read_json (home_assistant_discovery_json pico2w) ≡ some (document pico2w)
unfolding home_assistant_discovery_json read_json read_value read_fields read_string split_number
    is_number_from after may_end
document_read true = refl
document_read false = refl

document_members :
    (pico2w : Bool)
    → (member (codes "state_topic") (document pico2w)
        ≡ some (text (session_topics pico2w).state_topic))
      × (member (codes "availability_topic") (document pico2w)
          ≡ some (text (session_topics pico2w).status_topic))
      × (member (codes "payload_available") (document pico2w)
          ≡ some (text (session_topics pico2w).online))
      × (member (codes "payload_not_available") (document pico2w)
          ≡ some (text (session_topics pico2w).offline))
unfolding home_assistant_discovery_json session_topics read_json read_value read_fields read_string
    split_number is_number_from after may_end member find_field same
document_members true = (refl, refl, refl, refl)
document_members false = (refl, refl, refl, refl)

shown-state_of :
    (pico2w : Bool) (temp_c humidity_pct : List ℕ)
    → shown (document pico2w) (state_of pico2w temp_c humidity_pct)
      ≡ some (number (if pico2w then humidity_pct else temp_c))
unfolding home_assistant_discovery_json shown template_key up_to_braces strip sole_component
    read_json read_value read_fields read_string split_number is_number_from after may_end member
    find_field same
shown-state_of true temp_c humidity_pct = refl
shown-state_of false temp_c humidity_pct = refl

length-payload_text :
    (pico2w : Bool) (temp_c humidity_pct : List ℕ)
    → length temp_c ≤ 60
    → length humidity_pct ≤ 60
    → (0 < length (payload_text pico2w temp_c humidity_pct))
      × (length (payload_text pico2w temp_c humidity_pct) ≤ 127)
unfolding payload_text
length-payload_text true t h p q = let l = length-append h (b'}' ∷ []) in (omega arith, omega arith)
length-payload_text false t h p q =
    let l = length-append t (b'}' ∷ []) in (omega arith, omega arith)

-- A payload that fits the buffer is published as a whole.
published_lem :
    (pico2w : Bool) (temp_c humidity_pct : List ℕ)
    → length temp_c ≤ 60
    → length humidity_pct ≤ 60
    → published pico2w temp_c humidity_pct ≡ some (payload_text pico2w temp_c humidity_pct)
unfolding published build_payload
published_lem pico2w t h p q =
    let whole = payload_text pico2w t h in
    let (a, b) = length-payload_text pico2w t h p q in
    rw (lt→ltb 0 (length whole) a, take_all 127 whole b)
      (ap some (take_all (length whole) whole (omega arith)))

-- Home Assistant finds in the announcement, which is JSON, the topics of the state and of the
-- availability that the firmware publishes to, and the two texts of the availability that it
-- publishes. The state that is published is JSON too, and the announcement's only component shows of it
-- the number that the firmware has printed: the humidity for a Pico 2 W and the temperature for a Pico
-- W. The printed numbers are numbers of JSON with at most 60 characters.
pub discovery-Agrees :
    (pico2w : Bool) (temp_c humidity_pct : List ℕ)
    → is_number temp_c ≡ true
    → is_number humidity_pct ≡ true
    → length temp_c ≤ 60
    → length humidity_pct ≤ 60
    → (doc state : Value) × (read_json (session_topics pico2w).discovery_json ≡ some doc)
      × (member (codes "state_topic") doc ≡ some (text (session_topics pico2w).state_topic))
      × (member (codes "availability_topic") doc ≡ some (text (session_topics pico2w).status_topic))
      × (member (codes "payload_available") doc ≡ some (text (session_topics pico2w).online))
      × (member (codes "payload_not_available") doc ≡ some (text (session_topics pico2w).offline))
      × ((published pico2w temp_c humidity_pct >>= read_json) ≡ some state)
      × (shown doc state ≡ some (number (if pico2w then humidity_pct else temp_c)))
discovery-Agrees pico2w t h n m p q =
    let (a, b, c, d) = document_members pico2w in
    (
      document pico2w,
      state_of pico2w t h,
      unfold session_topics in document_read pico2w,
      a,
      b,
      c,
      d,
      rw (published_lem pico2w t h p q) (payload-read pico2w t h n m),
      shown-state_of pico2w t h,
    )
