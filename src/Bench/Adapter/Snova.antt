-- ===== src/Bench/Adapter/Snova.antt =====
-- adapters/adapter_snova.c in the benchmark of benchmark_main.c.
use assessing_pq_mqtt_m_tls.Common.{
  ℕ, ◌+◌, ◌≤◌, ◌≡◌, refl, sym, ap, ◌∙◌, subst, ℤ, pos, List, ◌++◌, true, false, ltb, ◌!=◌, is_zero,
  length, length-append, take, take-append, arith, Bool-cases, inl, inr,
}
use assessing_pq_mqtt_m_tls.Memory.{Stage}
use assessing_pq_mqtt_m_tls.Keys.Snova2454.{equal, equal_refl}
use assessing_pq_mqtt_m_tls.Bench.{Cpu}
use assessing_pq_mqtt_m_tls.Bench.Driver.{Scheme, flip_first}
use assessing_pq_mqtt_m_tls.Bench.Driver.Passing.{Works}
use assessing_pq_mqtt_m_tls.Bench.Adapter.{scheme_do_sign, scheme_do_verify}

module _ (cpu : Cpu) (crypto_sign : List ℕ → cpu.Net → ℤ × List ℕ × cpu.Net)
    (crypto_sign_open : List ℕ → cpu.Net → ℤ × List ℕ × cpu.Net) (crypto_bytes msg_len : ℕ) where
  -- What the library documents for one message: signing puts a signature of CRYPTO_BYTES before it, which
  -- opens to the message, and does not where its first bit is flipped.
  pub record Honest (msg : List ℕ) : Type 1 where
    pub IsSig : List ℕ → Type 0
    pub signs : (n : cpu.Net) → is_zero (crypto_sign msg n).0 ≡ true
    pub signature : cpu.Net → List ℕ
    pub signed : (n : cpu.Net) → (crypto_sign msg n).1 ≡ signature n ++ msg
    pub size : (sig : List ℕ) → IsSig sig → length sig ≡ crypto_bytes
    pub good : (n : cpu.Net) → IsSig (signature n)
    pub opens :
        (sig : List ℕ) (n : cpu.Net)
        → IsSig sig
        → (is_zero (crypto_sign_open (sig ++ msg) n).0 ≡ true)
          × ((crypto_sign_open (sig ++ msg) n).1 ≡ msg)
    pub refuses :
        (sig : List ℕ) (n : cpu.Net)
        → IsSig sig
        → is_zero (crypto_sign_open (flip_first sig ++ msg) n).0 ≡ false

  -- The adapter, with the memory monitor's calls.
  abbrev pub snova_scheme :
      (cpu.Net → cpu.Net) → (Stage → cpu.Net → cpu.Net) → (cpu.Net → cpu.Net) → Scheme cpu
  snova_scheme begin set_stage end = record {
    scheme_init = λ n. (pos 0, n);
    scheme_sig_max_bytes = crypto_bytes;
    scheme_do_sign = scheme_do_sign cpu crypto_sign crypto_sign_open crypto_bytes msg_len;
    scheme_do_verify = scheme_do_verify cpu crypto_sign crypto_sign_open crypto_bytes msg_len;
    runtime_memory_begin = begin;
    set_stage = set_stage;
    runtime_memory_end = end;
  }

  module _ (msg : List ℕ) (honest : Honest msg) (fits_msg : length msg ≤ msg_len) where
    open honest use {IsSig}

    fits-ltb : ltb msg_len (length msg) ≡ false
    fits-ltb = ground (arith, fits_msg)

    scheme_do_sign_lem :
        (n : cpu.Net)
        → let r = scheme_do_sign cpu crypto_sign crypto_sign_open crypto_bytes msg_len msg n in
          (is_zero r.0 ≡ true) × (r.1 ≡ honest.signature n)
    unfolding scheme_do_sign
    scheme_do_sign_lem n =
        let s = honest.size (honest.signature n) (honest.good n) in
        let l : length (crypto_sign msg n).1 ≡ crypto_bytes + length msg =
          ap length (honest.signed n) ∙ length-append (honest.signature n) msg ∙ omega (arith, s) in
        let whole : (length (crypto_sign msg n).1 != crypto_bytes + length msg) ≡ false =
          ground (arith, l) in
        let cut : take crypto_bytes (crypto_sign msg n).1 ≡ honest.signature n =
          ap (take crypto_bytes) (honest.signed n)
          ∙ subst (λ k. take k (honest.signature n ++ msg) ≡ honest.signature n) s
              (take-append (honest.signature n) msg) in
        simp (fits-ltb, honest.signs n, whole) (refl, cut)

    scheme_do_verify_accepts :
        (sig : List ℕ) (n : cpu.Net)
        → IsSig sig
        → is_zero
            (scheme_do_verify cpu crypto_sign crypto_sign_open crypto_bytes msg_len sig msg n).0
          ≡ true
    unfolding scheme_do_verify
    scheme_do_verify_accepts sig n h =
        let o = honest.opens sig n h in
        let size : (length sig != crypto_bytes) ≡ false = ground (arith, honest.size sig h) in
        let whole : (length (crypto_sign_open (sig ++ msg) n).1 != length msg) ≡ false =
          ground (arith, ap length o.1) in
        let same : equal (crypto_sign_open (sig ++ msg) n).1 msg ≡ true = rw o.1 (equal_refl msg) in
        simp (fits-ltb, size, o.0, whole, same) refl

    scheme_do_verify_rejects :
        (sig : List ℕ) (n : cpu.Net)
        → IsSig sig
        → is_zero
            (scheme_do_verify cpu crypto_sign crypto_sign_open crypto_bytes msg_len
              (flip_first sig)
              msg
              n).0
          ≡ false
    unfolding scheme_do_verify
    scheme_do_verify_rejects sig n h =
        let o = honest.refuses sig n h in
        elim (Bool-cases (length (flip_first sig) != crypto_bytes)) [
          | inl other ↦ simp other refl
          | inr same ↦ simp (same, fits-ltb, o) refl
        ]

    -- With an honest library the adapter is a scheme that works, for a message that fits its buffers.
    pub snova_scheme-Works :
        (begin : cpu.Net → cpu.Net) (set_stage : Stage → cpu.Net → cpu.Net)
        (end : cpu.Net → cpu.Net) (sig_buf : ℕ)
        → crypto_bytes ≤ sig_buf
        → Works cpu (snova_scheme begin set_stage end) msg sig_buf
    snova_scheme-Works begin set_stage end sig_buf fits = record {
      IsSig = IsSig;
      starts = λ n. refl;
      fits = fits;
      signs = λ n. (scheme_do_sign_lem n).0;
      signs-IsSig = λ n. subst IsSig (sym (scheme_do_sign_lem n).1) (honest.good n);
      accepts = scheme_do_verify_accepts;
      rejects = scheme_do_verify_rejects;
    }
