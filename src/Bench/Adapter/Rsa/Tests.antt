-- ===== src/Bench/Adapter/Rsa/Tests.antt =====
-- The theorem on adapters/adapter_wolfssl_rsa2048.c at concrete functions of wolfSSL.
use assessing_pq_mqtt_m_tls.Common.{
  ℕ, ◌+◌, ◌≤◌, ◌≡◌, refl, ◌↔◌, ◌⊎◌, ℤ, pos, negsuc, List, [], ◌∷◌, true, ◌==◌, is_zero, length,
  if◌then◌else◌,
}
use assessing_pq_mqtt_m_tls.Bench.{Cpu}
use assessing_pq_mqtt_m_tls.Bench.Adapter.Rsa.{Wolfcrypt, is_positive, verify_code}
use assessing_pq_mqtt_m_tls.Bench.Adapter.Rsa.Verdict.{Documented, verify_code-zero}

abbrev watch : Cpu
watch = record { Net = ℕ; exceptions = λ n. 0; cvr = λ n. 0; time_us = λ n. n; next = λ n. n + 1 }

-- A signature is the length of its message.
abbrev recover : List ℕ → ℤ × List ℕ
recover [] = (pos 0, [])
recover (b ∷ sig) = if b == 90 then (pos 1, sig) else (negsuc 5, [])

abbrev fits_digest : List ℕ → List ℕ → ℤ
fits_digest (a ∷ _) (b ∷ _) = if a == b then pos 0 else negsuc 7
fits_digest _ _ = negsuc 8

abbrev toy_wolf : Wolfcrypt watch
toy_wolf = record {
  setup = λ n. (pos 0, n);
  digest_size = pos 1;
  max_digest_size = 64;
  bad_func_arg = negsuc 172;
  buffer_e = negsuc 131;
  hash = λ m. (pos 0, length m ∷ []);
  pss_sign = λ digest n. (pos 2, 90 ∷ digest, n + 3);
  pss_verify_inline = recover;
  pss_check_padding = fits_digest;
  busy = λ n. n + 2;
}

toy_wolf-Documented : Documented watch toy_wolf 256
toy_wolf-Documented = record {
  bad_func_arg_nonzero = refl;
  buffer_e_nonzero = refl;
  size_fits = refl;
  hashes = λ m. refl;
}

verify_code-zero_example :
    (is_zero (verify_code watch toy_wolf 256 (90 ∷ 3 ∷ []) (7 ∷ 8 ∷ 9 ∷ [])) ≡ true) ↔ (
      (length {A = ℕ} (90 ∷ 3 ∷ []) ≤ 256)
      × ((is_zero (recover (90 ∷ 3 ∷ [])).0 ≡ true)
          ⊎ ((is_positive (recover (90 ∷ 3 ∷ [])).0 ≡ true)
              × (is_zero (fits_digest (3 ∷ []) (recover (90 ∷ 3 ∷ [])).1) ≡ true))))
verify_code-zero_example =
    verify_code-zero watch toy_wolf 256 (90 ∷ 3 ∷ []) (7 ∷ 8 ∷ 9 ∷ []) toy_wolf-Documented

-- A signature from which nothing is recovered is taken for valid.
nothing_recovered : is_zero (verify_code watch toy_wolf 256 [] (7 ∷ [])) ≡ true
unfolding verify_code
nothing_recovered = refl
