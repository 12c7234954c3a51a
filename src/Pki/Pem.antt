-- ===== src/Pki/Pem.antt =====
-- `write_pem` of tools/gen_hawk_pki.c. The file is the list of its characters.
pub mod RoundTrip
pub mod File
use assessing_pq_mqtt_m_tls.Common.{
  ℕ, zero, suc, ◌+◌, ◌*◌, ◌/◌, ◌^◌, List, [], ◌∷◌, ◌++◌, get_or, ◌==◌, bit_and, bit_or,
  if◌then◌else◌,
}

-- Consecutive characters.
abbrev pub run_of : ℕ → ℕ → List ℕ
run_of zero c = []
run_of (suc n) c = c ∷ run_of n (c + 1)

abbrev pub b64tab : List ℕ
b64tab = run_of 26 b'A' ++ (run_of 26 b'a' ++ (run_of 10 b'0' ++ (b'+' ∷ b'/' ∷ [])))

-- `b64tab[(v >> s) & 0x3f]`
abbrev pub sextet : ℕ → ℕ → ℕ
sextet v s = get_or b64tab (bit_and (v / 2 ^ s) 0x3f) 0

-- The characters of the groups of three bytes; a `uint32_t` holds every v.
unfoldable pub pem_groups : List ℕ → List ℕ
pem_groups [] = []
pem_groups (a ∷ []) = let v = a * 2 ^ 16 in sextet v 18 ∷ sextet v 12 ∷ b'=' ∷ b'=' ∷ []
pem_groups (a ∷ b ∷ []) =
    let v = bit_or (b * 2 ^ 8) (a * 2 ^ 16) in sextet v 18 ∷ sextet v 12 ∷ sextet v 6 ∷ b'=' ∷ []
pem_groups (a ∷ b ∷ c ∷ der) =
    let v = bit_or c (bit_or (b * 2 ^ 8) (a * 2 ^ 16)) in
    sextet v 18 ∷ sextet v 12 ∷ sextet v 6 ∷ sextet v 0 ∷ pem_groups der

-- The characters in lines of 64, from the column `col` on.
unfoldable pub pem_lines : ℕ → List ℕ → List ℕ
pem_lines col [] = if col == 0 then [] else b'\n' ∷ []
pem_lines col (c ∷ out) =
    let broken = pem_lines 0 out in
    let going = pem_lines (col + 1) out in if col + 1 == 64 then c ∷ b'\n' ∷ broken else c ∷ going

abbrev pub dashes : List ℕ
dashes = b'-' ∷ b'-' ∷ b'-' ∷ b'-' ∷ b'-' ∷ []

unfoldable pub write_pem : List ℕ → List ℕ → List ℕ
write_pem type der =
    dashes
    ++ (b'B'
        ∷ b'E'
        ∷ b'G'
        ∷ b'I'
        ∷ b'N'
        ∷ b' '
        ∷ (type
            ++ (dashes
                ++ (b'\n'
                    ∷ (pem_lines 0 (pem_groups der)
                        ++ (dashes
                            ++ (b'E'
                                ∷ b'N'
                                ∷ b'D'
                                ∷ b' '
                                ∷ (type ++ (dashes ++ (b'\n' ∷ []))))))))))
