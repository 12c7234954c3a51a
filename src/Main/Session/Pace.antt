-- ===== src/Main/Session/Pace.antt =====
-- How often the loop of `main` in mqtt_client/main.c publishes, and when it ends.
use assessing_pq_mqtt_m_tls.Common.{
  ℕ, zero, suc, ◌+◌, ◌≤◌, ◌≡◌, refl, List, [], ◌∷◌, Option, arith, leb, Bool-cases, inl, inr,
  leb→le,
}
use assessing_pq_mqtt_m_tls.Transport.{Transport}
use assessing_pq_mqtt_m_tls.Plain.{wrap32}
use assessing_pq_mqtt_m_tls.Main.{Link}
use assessing_pq_mqtt_m_tls.Main.Session.{
  Topics, Sensors, Loop, pub_interval_ms, publish_payload, publish_state, since_last, round, rounds,
  begin_loop,
}

-- Time goes on while the board sleeps, reads its sensors and publishes.
pub record Forward (t : Transport) (l : Link t) (s : Sensors t) (topics : Topics) : Type 0 where
  pub sleeps : (k : ℕ) (c : t.Conn) → s.ms c ≤ s.ms (s.sleep_ms k c)
  pub senses : (c : t.Conn) → s.ms c ≤ s.ms (s.build_payload c).1
  pub publishes :
      (p : Option (List ℕ)) (c : t.Conn) → s.ms c ≤ s.ms (publish_payload t l s topics p c).1

-- Each time is at least so much after the one that follows it in the list.
unfoldable pub Spaced : ℕ → List ℕ → Type 0
Spaced gap [] = zero ≡ zero
Spaced gap (x ∷ []) = gap ≤ x
Spaced gap (x ∷ y ∷ ys) = (y + gap ≤ x) × Spaced gap (y ∷ ys)

-- The last of the times, or 0.
unfoldable pub latest : List ℕ → ℕ
latest [] = 0
latest (x ∷ xs) = x

Spaced-cons : (gap x : ℕ) (xs : List ℕ) → latest xs + gap ≤ x → Spaced gap xs → Spaced gap (x ∷ xs)
unfolding Spaced latest
Spaced-cons gap x [] h p = omega (arith, h)
Spaced-cons gap x (y ∷ ys) h p = (h, p)

module _ (t : Transport) (l : Link t) (s : Sensors t) (topics : Topics)
    (forward : Forward t l s topics) where
  -- `last_pub` is the last time as 32 bits, and the times are at least the interval apart.
  pub record Paced (v : Loop t l s topics) : Type 0 where
    pub wrapped : v.last_pub ≡ wrap32 (latest v.times)
    pub past : latest v.times ≤ s.ms v.conn
    pub spaced : Spaced 5000 v.times

  publish_state-Paced :
      (v : Loop t l s topics)
      → Paced v
      → 5000 ≤ since_last t l s topics (s.ms v.conn) v.last_pub
      → Paced (publish_state t l s topics (s.ms v.conn) v)
  unfolding publish_state latest
  publish_state-Paced v h due =
      let r = s.build_payload v.conn in
      let q = publish_payload t l s topics r.0 r.1 in
      let apart : latest v.times + 5000 ≤ s.ms v.conn = omega (arith, h.wrapped, h.past, due) in
      let on : s.ms v.conn ≤ s.ms q.1 =
        omega (arith, forward.senses v.conn, forward.publishes r.0 r.1) in
      elim (Bool-cases q.0) [
        | inl ok ↦ simp ok (record {
          wrapped = refl;
          past = omega (arith, on, forward.sleeps 10 q.1);
          spaced = Spaced-cons 5000 _ v.times apart h.spaced;
        })
        | inr bad ↦ simp bad (record {
          wrapped = refl;
          past = on;
          spaced = Spaced-cons 5000 _ v.times apart h.spaced;
        })
      ]

  round-Paced : (v : Loop t l s topics) → Paced v → Paced (round t l s topics v)
  unfolding round
  round-Paced v h =
      let test =
        leb (pub_interval_ms t l s topics) (since_last t l s topics (s.ms v.conn) v.last_pub) in
      elim (Bool-cases test) [
        | inl due ↦ simp due (publish_state-Paced v h (leb→le _ _ due))
        | inr early ↦ simp early (record {
          wrapped = h.wrapped;
          past = omega (arith, h.past, forward.sleeps 10 v.conn);
          spaced = h.spaced;
        })
      ]

  rounds-Paced : (n : ℕ) (v : Loop t l s topics) → Paced v → Paced (rounds t l s topics n v)
  unfolding rounds
  rounds-Paced zero v h = h
  rounds-Paced (suc n) v h = elim (Bool-cases v.stopped) [
    | inl over ↦ simp over h
    | inr on ↦ simp on (rounds-Paced n (round t l s topics v) (round-Paced v h))
  ]

  -- However long the loop of the session runs, two rounds that publish are at least five seconds apart, also
  -- where the 32 bits of the clock wrap in between, and the first is at least five seconds after the boot.
  -- Time goes on while the board sleeps, reads its sensors and publishes.
  pub rounds-Spaced :
      (n : ℕ) (c : t.Conn) → Spaced 5000 (rounds t l s topics n (begin_loop t l s topics c)).times
  unfolding latest Spaced
  rounds-Spaced n c =
      (rounds-Paced n (begin_loop t l s topics c)
        (record { wrapped = omega arith; past = omega arith; spaced = refl })).spaced
