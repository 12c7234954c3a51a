-- ===== src/Bench/Adapter/Rsa.antt =====
-- adapters/adapter_wolfssl_rsa2048.c in a build with RSA_USE_PSS, over wolfSSL's functions on its key.
pub mod Verdict
mod Tests
use assessing_pq_mqtt_m_tls.Common.{
  ℕ, ◌+◌, ℤ, pos, negsuc, List, [], ◌∷◌, Bool, true, false, not, ◌||◌, ltb, ◌==◌, ◌!=◌, is_zero,
  length, if◌then◌else◌,
}
use assessing_pq_mqtt_m_tls.Memory.{Stage}
use assessing_pq_mqtt_m_tls.Bench.{Cpu}
use assessing_pq_mqtt_m_tls.Bench.Driver.{Scheme}

-- wolfSSL with the static key and the static random generator: `wc_HashGetDigestSize`, `wc_Hash` with
-- the digest, `wc_RsaPSS_Sign` on a digest with the signature, `wc_RsaPSS_VerifyInline` on a signature
-- with what it recovers, and `wc_RsaPSS_CheckPadding` on a digest and what was recovered. `setup` is the
-- three calls of `scheme_init`, each where the one before has given 0. Two of the constants are
-- wolfSSL's.
pub record Wolfcrypt (cpu : Cpu) : Type 0 where
  pub setup : cpu.Net → ℤ × cpu.Net
  pub digest_size : ℤ
  pub max_digest_size : ℕ
  pub bad_func_arg : ℤ
  pub buffer_e : ℤ
  pub hash : List ℕ → ℤ × List ℕ
  pub pss_sign : List ℕ → cpu.Net → ℤ × List ℕ × cpu.Net
  pub pss_verify_inline : List ℕ → ℤ × List ℕ
  pub pss_check_padding : List ℕ → List ℕ → ℤ
  pub busy : cpu.Net → cpu.Net

abbrev pub is_positive : ℤ → Bool
is_positive (pos n) = n != 0
is_positive (negsuc n) = false

module _ (cpu : Cpu) (wolf : Wolfcrypt cpu) (rsa_key_bytes : ℕ) where
  -- `digest_len <= 0 || digest_len > (int)sizeof(digest)`
  abbrev pub bad_digest_size : ℤ → Bool
  bad_digest_size (pos n) = n == 0 || ltb wolf.max_digest_size n
  bad_digest_size (negsuc n) = true

  -- What is done with `ret` at the end of signing. The signature is there where `ret` is positive.
  abbrev pub signed : ℤ × List ℕ × cpu.Net → ℤ × List ℕ × cpu.Net
  signed (ret, sig, net) = if is_positive ret then (pos 0, sig, net) else (ret, [], net)

  unfoldable pub scheme_do_sign : List ℕ → cpu.Net → ℤ × List ℕ × cpu.Net
  scheme_do_sign m net =
      let (ret, digest) = wolf.hash m in
      if bad_digest_size wolf.digest_size
      then (wolf.bad_func_arg, [], net)
      else if is_zero ret
      then signed (wolf.pss_sign digest net)
      else signed (ret, [], net)

  -- The code on a signature and a message, without the time that it takes.
  unfoldable pub verify_code : List ℕ → List ℕ → ℤ
  verify_code sig m =
      let (hash_ret, digest) = wolf.hash m in
      let (ret, recovered) = wolf.pss_verify_inline sig in
      if bad_digest_size wolf.digest_size
      then wolf.bad_func_arg
      else if ltb rsa_key_bytes (length sig)
      then wolf.buffer_e
      else if not (is_zero hash_ret)
      then hash_ret
      else if not (is_positive ret)
      then ret
      else wolf.pss_check_padding digest recovered

  unfoldable pub scheme_do_verify : List ℕ → List ℕ → cpu.Net → ℤ × cpu.Net
  scheme_do_verify sig m net = (verify_code sig m, wolf.busy net)

  -- The adapter, with the memory monitor's calls.
  abbrev pub rsa_scheme :
      (cpu.Net → cpu.Net) → (Stage → cpu.Net → cpu.Net) → (cpu.Net → cpu.Net) → Scheme cpu
  rsa_scheme begin set_stage end = record {
    scheme_init = wolf.setup;
    scheme_sig_max_bytes = rsa_key_bytes;
    scheme_do_sign = scheme_do_sign;
    scheme_do_verify = scheme_do_verify;
    runtime_memory_begin = begin;
    set_stage = set_stage;
    runtime_memory_end = end;
  }
