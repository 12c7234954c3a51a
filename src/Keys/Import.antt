-- ===== src/Keys/Import.antt =====
-- The import functions of the three schemes.
use assessing_pq_mqtt_m_tls.Common.{
  ℕ, ◌≡◌, refl, List, ◌++◌, Option, some, none, length, arith, length-append, take-append,
  drop-append, Bool-cases, some-injective, ◌!=◌, true, ◌⊎◌, inl, inr,
}
use assessing_pq_mqtt_m_tls.Keys.{
  Status, success, Sizes, keypair_size, Key, zero_key, import_public, add_private, import_private,
  import_pair,
}

-- A key whose flags tell the truth: a part that is there has the scheme's size.
pub record IsValid (sizes : Sizes) (key : Key) : Type 0 where
  pub priv_whole : key.has_priv ≡ true → length key.priv ≡ sizes.priv_size
  pub public_whole : key.has_pub ≡ true → length key.public ≡ sizes.pub_size

-- A key pair of the scheme's size is taken apart into the two keys, and both flags are set, whatever
-- the key held before.
pub import_pair_lem :
    (sizes : Sizes) (priv public : List ℕ) (key : Key)
    → length priv ≡ sizes.priv_size
    → length public ≡ sizes.pub_size
    → import_pair sizes (some (priv ++ public)) (some key)
      ≡ (success, some (record { priv = priv; public = public; has_priv = true; has_pub = true }))
unfolding import_pair import_private import_public
import_pair_lem sizes priv public key hp hq =
    ground (arith, length-append priv public, take-append priv public, drop-append priv public)

-- A key after a call: it is still there and valid, and unless the call succeeded it is what it was.
abbrev pub Keeps : Sizes → Key → Status × Option Key → Type 0
Keeps sizes key result =
    (key' : Key) × (result.1 ≡ some key')
    × IsValid sizes key'
    × ((result.0 ≡ success) ⊎ (key' ≡ key))

zero_key-IsValid : (sizes : Sizes) → IsValid sizes (zero_key sizes)
zero_key-IsValid sizes = record {
  priv_whole = λ e. absurd (ground arith);
  public_whole = λ e. absurd (ground arith);
}

import_public-Keeps :
    (sizes : Sizes) (public : Option (List ℕ)) (key : Key)
    → IsValid sizes key
    → Keeps sizes key (import_public sizes public (some key))
unfolding import_public
import_public-Keeps sizes none key v = (key, refl, v, inr refl)
import_public-Keeps sizes (some public) key v =
    elim (Bool-cases (length public != sizes.pub_size)) [
      | inl e ↦ rw e (key, refl, v, inr refl)
      | inr e ↦ rw e (
        record key { public = public; has_pub = true },
        refl,
        record { priv_whole = v.priv_whole; public_whole = λ _. ground arith },
        inl refl,
      )
    ]

add_private-Keeps :
    (sizes : Sizes) (priv : List ℕ) (key : Key) (result : Status × Option Key)
    → length priv ≡ sizes.priv_size
    → Keeps sizes key result
    → Keeps sizes key (add_private priv result)
add_private-Keeps sizes priv key (ret, none) h (key', e, v, k) = absurd (ground arith)
add_private-Keeps sizes priv key (success, some now) h (key', e, v, k) = (
  record now { priv = priv; has_priv = true },
  refl,
  record { priv_whole = λ _. h; public_whole = rw (some-injective now key' e) v.public_whole },
  inl refl,
)
add_private-Keeps sizes priv key (ret, some now) h w = w

import_private-Keeps :
    (sizes : Sizes) (priv public : Option (List ℕ)) (key : Key)
    → IsValid sizes key
    → Keeps sizes key (import_private sizes priv public (some key))
unfolding import_private
import_private-Keeps sizes none public key v = (key, refl, v, inr refl)
import_private-Keeps sizes (some priv) none key v = (key, refl, v, inr refl)
import_private-Keeps sizes (some priv) (some public) key v =
    elim (Bool-cases (length priv != sizes.priv_size)) [
      | inl e ↦ rw e (key, refl, v, inr refl)
      | inr e ↦ rw e (
          add_private-Keeps sizes priv key _ (ground arith)
            (import_public-Keeps sizes (some public) key v))
    ]

-- Importing a key pair never leaves a key whose flags lie, and a call that fails, for a NULL pointer
-- or a wrong length, leaves the key as it was: no key is ever half imported.
pub import_pair-Keeps :
    (sizes : Sizes) (key_pair : Option (List ℕ)) (key : Key)
    → IsValid sizes key
    → Keeps sizes key (import_pair sizes key_pair (some key))
unfolding import_pair
import_pair-Keeps sizes none key v = (key, refl, v, inr refl)
import_pair-Keeps sizes (some key_pair) key v =
    elim (Bool-cases (length key_pair != keypair_size sizes)) [
      | inl e ↦ rw e (key, refl, v, inr refl)
      | inr e ↦ rw e (import_private-Keeps sizes _ _ key v)
    ]
