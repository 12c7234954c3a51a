-- ===== src/Bench/Adapter/Rsa/Verdict.antt =====
-- What adapters/adapter_wolfssl_rsa2048.c accepts, and the adapter in the benchmark.
use assessing_pq_mqtt_m_tls.Common.{
  ℕ, ◌≤◌, ◌≡◌, refl, sym, ◌↔◌, ◌⊎◌, inl, inr, ℤ, pos, negsuc, List, true, false, ltb, is_zero,
  length, arith, Bool-cases, subst,
}
use assessing_pq_mqtt_m_tls.Memory.{Stage}
use assessing_pq_mqtt_m_tls.Bench.{Cpu}
use assessing_pq_mqtt_m_tls.Bench.Driver.{flip_first}
use assessing_pq_mqtt_m_tls.Bench.Driver.Passing.{Works}
use assessing_pq_mqtt_m_tls.Bench.Adapter.Rsa.{
  Wolfcrypt, is_positive, bad_digest_size, scheme_do_sign, verify_code, scheme_do_verify,
  rsa_scheme,
}

is_positive_of_zero : (z : ℤ) → is_zero z ≡ true → is_positive z ≡ false
is_positive_of_zero (pos n) h = ground (arith, h)
is_positive_of_zero (negsuc n) h = refl

module _ (cpu : Cpu) (wolf : Wolfcrypt cpu) (rsa_key_bytes : ℕ) where
  -- What wolfSSL documents: an error code is negative, a digest has a size that fits and is made of every
  -- message; a signature that was made for a digest recovers something that fits the digest.
  pub record Documented : Type 0 where
    pub bad_func_arg_nonzero : is_zero wolf.bad_func_arg ≡ false
    pub buffer_e_nonzero : is_zero wolf.buffer_e ≡ false
    pub size_fits : bad_digest_size cpu wolf rsa_key_bytes wolf.digest_size ≡ false
    pub hashes : (m : List ℕ) → is_zero (wolf.hash m).0 ≡ true

  -- The adapter takes a signature for valid where it is no longer than the key and either its padding fits
  -- the message's digest, or wolfSSL has recovered nothing from it: the code 0 of
  -- `wc_RsaPSS_VerifyInline`, which is not one of success, is returned as it is.
  pub verify_code-zero :
      (sig m : List ℕ)
      → Documented
      → (is_zero (verify_code cpu wolf rsa_key_bytes sig m) ≡ true) ↔ (
          (length sig ≤ rsa_key_bytes)
          × ((is_zero (wolf.pss_verify_inline sig).0 ≡ true)
              ⊎ ((is_positive (wolf.pss_verify_inline sig).0 ≡ true)
                  × (is_zero (wolf.pss_check_padding (wolf.hash m).1 (wolf.pss_verify_inline sig).1)
                      ≡ true))))
  unfolding verify_code
  verify_code-zero sig m w = (
    λ h. elim (Bool-cases (ltb rsa_key_bytes (length sig))) [
      | inl long ↦ cc (rw (w.size_fits, long) at h, w.buffer_e_nonzero)
      | inr fits ↦
          let l : length sig ≤ rsa_key_bytes = ground (arith, fits) in
          elim (Bool-cases (is_positive (wolf.pss_verify_inline sig).0)) [
            | inl p ↦ (l, inr (p, rw (w.size_fits, fits, w.hashes m, p) at h))
            | inr n ↦ (l, inl (rw (w.size_fits, fits, w.hashes m, n) at h))
          ]
    ],
    λ (l, found).
        let fits : ltb rsa_key_bytes (length sig) ≡ false = ground (arith, l) in
        elim found [
          | inl z ↦ rw (w.size_fits, fits, w.hashes m, is_positive_of_zero _ z) z
          | inr (p, c) ↦ rw (w.size_fits, fits, w.hashes m, p) c
        ],
  )

  -- Signing and verification of one message as wolfSSL documents them: what is signed fits the key's size
  -- and verifies, and with its first bit flipped it is refused with an error or does not fit the digest.
  pub record Honest (m : List ℕ) : Type 1 where
    pub documented : Documented
    pub set_up : (n : cpu.Net) → is_zero (wolf.setup n).0 ≡ true
    pub IsSig : List ℕ → Type 0
    pub signs : (n : cpu.Net) → is_positive (wolf.pss_sign (wolf.hash m).1 n).0 ≡ true
    pub signs-IsSig : (n : cpu.Net) → IsSig (wolf.pss_sign (wolf.hash m).1 n).1
    pub size : (sig : List ℕ) → IsSig sig → length sig ≤ rsa_key_bytes
    pub verifies :
        (sig : List ℕ)
        → IsSig sig
        → (is_positive (wolf.pss_verify_inline sig).0 ≡ true)
          × (is_zero (wolf.pss_check_padding (wolf.hash m).1 (wolf.pss_verify_inline sig).1) ≡ true)
    pub refuses_nothing :
        (sig : List ℕ) → IsSig sig → is_zero (wolf.pss_verify_inline (flip_first sig)).0 ≡ false
    pub refuses_other :
        (sig : List ℕ)
        → IsSig sig
        → is_zero
            (wolf.pss_check_padding (wolf.hash m).1 (wolf.pss_verify_inline (flip_first sig)).1)
          ≡ false

  module _ (m : List ℕ) (w : Honest m) where
    scheme_do_sign_lem :
        (n : cpu.Net)
        → let r = scheme_do_sign cpu wolf rsa_key_bytes m n in
          (is_zero r.0 ≡ true) × (r.1 ≡ (wolf.pss_sign (wolf.hash m).1 n).1)
    unfolding scheme_do_sign
    scheme_do_sign_lem n =
        rw (w.documented.size_fits, w.documented.hashes m, w.signs n) (refl, refl)

    flipped_refused :
        (sig : List ℕ)
        → w.IsSig sig
        → is_zero (verify_code cpu wolf rsa_key_bytes (flip_first sig) m) ≡ false
    flipped_refused sig h =
        elim (Bool-cases (is_zero (verify_code cpu wolf rsa_key_bytes (flip_first sig) m))) [
          | inl bad ↦ elim ((verify_code-zero (flip_first sig) m w.documented).0 bad).1 [
            | inl z ↦ cc (z, w.refuses_nothing sig h)
            | inr (p, c) ↦ cc (c, w.refuses_other sig h)
          ]
          | inr good ↦ good
        ]

    -- With an honest library the adapter is a scheme that works.
    pub rsa_scheme-Works :
        (begin : cpu.Net → cpu.Net) (set_stage : Stage → cpu.Net → cpu.Net)
        (end : cpu.Net → cpu.Net) (sig_buf : ℕ)
        → rsa_key_bytes ≤ sig_buf
        → Works cpu (rsa_scheme cpu wolf rsa_key_bytes begin set_stage end) m sig_buf
    unfolding scheme_do_verify
    rsa_scheme-Works begin set_stage end sig_buf fits = record {
      IsSig = w.IsSig;
      starts = w.set_up;
      fits = fits;
      signs = λ n. (scheme_do_sign_lem n).0;
      signs-IsSig = λ n. subst w.IsSig (sym (scheme_do_sign_lem n).1) (w.signs-IsSig n);
      accepts =
          λ sig n h. (verify_code-zero sig m w.documented).1 (w.size sig h, inr (w.verifies sig h));
      rejects = λ sig n h. flipped_refused sig h;
    }
