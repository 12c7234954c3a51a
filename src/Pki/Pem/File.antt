-- ===== src/Pki/Pem/File.antt =====
-- The files that `write_pem` of tools/gen_hawk_pki.c writes, read back.
use assessing_pq_mqtt_m_tls.Common.{
  same, same-itself, strip, strip-append, ◌>>=◌, ℕ, ◌+◌, ◌*◌, ◌^◌, ◌≡◌, refl, List, [], ◌∷◌, ◌++◌,
  Option, some, none, false, ◌==◌, bit_or, All, append_assoc, Bool-cases, inl, inr, if◌then◌else◌,
  codes,
}
use assessing_pq_mqtt_m_tls.Pki.Pem.{dashes, pem_groups, pem_lines, write_pem}
use assessing_pq_mqtt_m_tls.Pki.Pem.RoundTrip.{
  sextet_plain, IsBytes, read_b64, unwrapped, read_b64-pem_lines,
}

-- The text up to the first dash, and the rest.
unfoldable pub until_dash : List ℕ → List ℕ × List ℕ
until_dash [] = ([], [])
until_dash (c ∷ text) =
    let (before, rest) = until_dash text in if c == b'-' then ([], c ∷ text) else (c ∷ before, rest)

abbrev pub begin_mark : List ℕ → List ℕ
begin_mark type = dashes ++ (codes "BEGIN " ++ (type ++ (dashes ++ (b'\n' ∷ []))))

abbrev pub end_mark : List ℕ → List ℕ
end_mark type = dashes ++ (codes "END " ++ (type ++ (dashes ++ (b'\n' ∷ []))))

-- A file of the given type (RFC 7468): base64 between its two marks.
unfoldable pub read_pem : List ℕ → List ℕ → Option (List ℕ)
read_pem type text = do
  body ← strip (begin_mark type) text
  let parts = until_dash body
  if same parts.1 (end_mark type) then read_b64 (unwrapped parts.0) else none

abbrev NoDash : List ℕ → Type 0
NoDash text = All (λ (c : ℕ). (c == b'-') ≡ false) text

until_dash-append :
    (text rest : List ℕ) → NoDash text → until_dash (text ++ b'-' ∷ rest) ≡ (text, b'-' ∷ rest)
unfolding until_dash
until_dash-append [] rest h = refl
until_dash-append (c ∷ text) rest h = rw (until_dash-append text rest h.1, h.0)

pem_groups-NoDash : (der : List ℕ) → NoDash (pem_groups der)
unfolding pem_groups
pem_groups-NoDash [] = tt
pem_groups-NoDash (a ∷ []) =
    let v = a * 2 ^ 16 in ((sextet_plain v 18).2, ((sextet_plain v 12).2, (refl, (refl, tt))))
pem_groups-NoDash (a ∷ b ∷ []) =
    let v = bit_or (b * 2 ^ 8) (a * 2 ^ 16) in
    ((sextet_plain v 18).2, ((sextet_plain v 12).2, ((sextet_plain v 6).2, (refl, tt))))
pem_groups-NoDash (a ∷ b ∷ c ∷ der) =
    let v = bit_or c (bit_or (b * 2 ^ 8) (a * 2 ^ 16)) in
    (
      (sextet_plain v 18).2,
      (
        (sextet_plain v 12).2,
        ((sextet_plain v 6).2, ((sextet_plain v 0).2, pem_groups-NoDash der)),
      ),
    )

pem_lines-NoDash : (col : ℕ) (out : List ℕ) → NoDash out → NoDash (pem_lines col out)
unfolding pem_lines
pem_lines-NoDash col [] h = elim (Bool-cases (col == 0)) [
  | inl e ↦ rw e tt
  | inr e ↦ rw e (refl, tt)
]
pem_lines-NoDash col (c ∷ out) h = elim (Bool-cases (col + 1 == 64)) [
  | inl e ↦ rw e (h.0, (refl, pem_lines-NoDash 0 out h.1))
  | inr e ↦ rw e (h.0, pem_lines-NoDash (col + 1) out h.1)
]

-- A file that `write_pem` has written is read back as its type and its bytes.
pub read_pem-write_pem :
    (type der : List ℕ) → IsBytes der → read_pem type (write_pem type der) ≡ some der
unfolding read_pem write_pem
read_pem-write_pem type der h =
    let lines = pem_lines 0 (pem_groups der) in
    let whole : write_pem type der ≡ begin_mark type ++ (lines ++ end_mark type) =
      unfold write_pem in simp append_assoc in
    let n = pem_lines-NoDash 0 (pem_groups der) (pem_groups-NoDash der) in
    rw
      (
        whole,
        strip-append (begin_mark type) (lines ++ end_mark type),
        until_dash-append lines
            (b'-' ∷ b'-' ∷ b'-' ∷ b'-' ∷ (codes "END " ++ (type ++ (dashes ++ (b'\n' ∷ []))))) n,
        same-itself (end_mark type),
      )
      (read_b64-pem_lines der h).0
