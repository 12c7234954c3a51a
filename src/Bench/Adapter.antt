-- ===== src/Bench/Adapter.antt =====
-- adapters/adapter_snova.c over the functions of SNOVA's library, and randombytes.c, whose loop
-- adapters/snova_randombytes.c has too.
pub mod Snova
pub mod Rsa
use assessing_pq_mqtt_m_tls.Common.{
  ℕ, zero, suc, ◌+◌, ◌-◌, ◌/◌, ◌%◌, ◌^◌, ◌≤◌, ◌<◌, ◌≡◌, refl, ap, ◌∙◌, ℤ, pos, negsuc, List, [],
  ◌∷◌, ◌++◌, Bool, true, false, not, ltb, leb, ◌==◌, ◌!=◌, ◌||◌, is_zero, length, length-append,
  length-take, take, if◌then◌else◌, arith, Bool-cases, inl, inr,
}
use assessing_pq_mqtt_m_tls.Keys.Snova2454.{equal}
use assessing_pq_mqtt_m_tls.Bench.{Cpu}
use assessing_pq_mqtt_m_tls.Bench.Driver.{Scheme}

-- The first bytes of a 64-bit word in the memory of the processor, which is little-endian.
unfoldable pub word_bytes : ℕ → ℕ → List ℕ
word_bytes zero w = []
word_bytes (suc n) w = w % 256 ∷ word_bytes n (w / 256)

module _ (Net : Type 0) (get_rand_64 : Net → ℕ × Net) where
  -- The loop, with the bytes to go; each round takes eight of them.
  unfoldable pub random_rounds : ℕ → ℕ → Net → List ℕ × Net
  random_rounds zero n net = ([], net)
  random_rounds (suc fuel) n net =
      let (r, net₁) = get_rand_64 net in
      let (more, net₂) = random_rounds fuel (n - 8) net₁ in
      if leb 8 n
      then (word_bytes 8 r ++ more, net₂)
      else if n != 0
      then (word_bytes n r, net₁)
      else ([], net)

  -- What is written to `buf`. There are at most as many rounds as bytes.
  unfoldable pub randombytes : ℕ → Net → List ℕ × Net
  randombytes n net = random_rounds n n net

  length-word_bytes : (n w : ℕ) → length (word_bytes n w) ≡ n
  unfolding word_bytes
  length-word_bytes zero w = refl
  length-word_bytes (suc n) w = ap suc (length-word_bytes n (w / 256))

  length-random_rounds :
      (fuel n : ℕ) (net : Net) → n ≤ fuel → length (random_rounds fuel n net).0 ≡ n
  unfolding random_rounds
  length-random_rounds zero n net h = omega (arith, h)
  length-random_rounds (suc fuel) n net h =
      let r = get_rand_64 net in
      elim (Bool-cases (leb 8 n)) [
        | inl more ↦
            let enough : 8 ≤ n = ground (arith, more) in
            simp more (
              omega (
                arith,
                enough,
                length-append (word_bytes 8 r.0) (random_rounds fuel (n - 8) r.1).0,
                length-word_bytes 8 r.0,
                length-random_rounds fuel (n - 8) r.1 (omega (arith, h)),
              ))
        | inr few ↦ elim (Bool-cases (n != 0)) [
          | inl some_left ↦ simp (few, some_left) (length-word_bytes n r.0)
          | inr none_left ↦ simp (few, none_left) (ground (arith, none_left))
        ]
      ]

  -- All the bytes asked for are written, and no others.
  pub length-randombytes : (n : ℕ) (net : Net) → length (randombytes n net).0 ≡ n
  unfolding randombytes
  length-randombytes n net = length-random_rounds n n net (omega arith)

-- `rc ? rc : -1`
abbrev pub code_or_minus_one : ℤ → ℤ
code_or_minus_one rc = if is_zero rc then negsuc 0 else rc

-- SNOVA's library: `crypto_sign` gives the signed message, `crypto_sign_open` the message.
module _ (cpu : Cpu) (crypto_sign : List ℕ → cpu.Net → ℤ × List ℕ × cpu.Net)
    (crypto_sign_open : List ℕ → cpu.Net → ℤ × List ℕ × cpu.Net) (crypto_bytes msg_len : ℕ) where
  -- Where it fails, the benchmark stops without a look at the signature.
  unfoldable pub scheme_do_sign : List ℕ → cpu.Net → ℤ × List ℕ × cpu.Net
  scheme_do_sign m net =
      let (rc, signed_message, net') = crypto_sign m net in
      if ltb msg_len (length m)
      then (negsuc 0, [], net)
      else if not (is_zero rc) || length signed_message != crypto_bytes + length m
      then (code_or_minus_one rc, [], net')
      else (pos 0, take crypto_bytes signed_message, net')

  unfoldable pub scheme_do_verify : List ℕ → List ℕ → cpu.Net → ℤ × cpu.Net
  scheme_do_verify sig m net =
      let (rc, recovered, net') = crypto_sign_open (sig ++ m) net in
      if length sig != crypto_bytes || ltb msg_len (length m)
      then (negsuc 0, net)
      else if not (is_zero rc) || length recovered != length m
      then (code_or_minus_one rc, net')
      else (if equal recovered m then pos 0 else negsuc 0, net')
