-- ===== src/Keys/Accepted.antt =====
-- What the verification of the three schemes accepts, and what signing writes.
use assessing_pq_mqtt_m_tls.Common.{
  ℕ, ◌≤◌, ◌≡◌, ◌↔◌, ◌⊎◌, inl, inr, refl, List, ◌++◌, Option, some, none, length, drop, arith,
  length-append, length-drop, ltb, Bool, true, Bool-cases,
}
use assessing_pq_mqtt_m_tls.Keys.{Status, Sizes, Key, fill, sign, verify}

-- With no pointer NULL, `*result` is 1 if and only if the key has a public part, the signature has
-- the scheme's size and the scheme's own test ran and accepted; else it is 0, whatever it was before.
pub verify_lem :
    (sizes : Sizes) (check : List ℕ → List ℕ → Key → Option Bool) (sig msg : List ℕ) (result : ℕ)
    (key : Key)
    → (((verify sizes check (some sig) (some msg) (some result) (some key)).1 ≡ some 1)
        ↔ (key.has_pub ≡ true) × (length sig ≡ sizes.sig_size) × (check sig msg key ≡ some true))
      × (((verify sizes check (some sig) (some msg) (some result) (some key)).1 ≡ some 1)
          ⊎ ((verify sizes check (some sig) (some msg) (some result) (some key)).1 ≡ some 0))
unfolding verify
verify_lem sizes check sig msg result key = ground arith

length-overwrite :
    (written sig : List ℕ)
    → length written ≤ length sig
    → length (written ++ drop (length written) sig) ≡ length sig
length-overwrite written sig h =
    omega
      (arith, length-append written (drop (length written) sig), length-drop (length written) sig)

length-fill :
    (sig : List ℕ) (len : ℕ) (r : Status × List ℕ × Option ℕ)
    → length r.1 ≤ length sig
    → (sig' : List ℕ) × ((fill sig len r).1 ≡ some sig') × (length sig' ≡ length sig)
length-fill sig len (ret, written, none) h =
    (written ++ drop (length written) sig, refl, length-overwrite written sig h)
length-fill sig len (ret, written, some len') h =
    (written ++ drop (length written) sig, refl, length-overwrite written sig h)

-- Signing keeps the length of the caller's buffer, where the scheme writes no more than a signature
-- of its size and `*sigLen` is no more than what the buffer holds: it never writes beyond it.
pub length-sign :
    (sizes : Sizes) (finish : List ℕ → Key → Status × List ℕ × Option ℕ) (msg sig : List ℕ)
    (len : ℕ) (key : Key)
    → length (finish msg key).1 ≤ sizes.sig_size
    → len ≤ length sig
    → (sig' : List ℕ) × ((sign sizes finish (some msg) (some sig) (some len) (some key)).1
        ≡ some sig')
      × (length sig' ≡ length sig)
unfolding sign
length-sign sizes finish msg sig len key h w = elim (Bool-cases (ltb len sizes.sig_size)) [
  | inl c ↦ rw c (sig, refl, refl)
  | inr c ↦ rw c (elim (Bool-cases key.has_priv) [
    | inl d ↦ simp d (length-fill sig len (finish msg key) (ground arith))
    | inr d ↦ simp d (sig, refl, refl)
  ])
]
