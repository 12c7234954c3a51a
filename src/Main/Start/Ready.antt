-- ===== src/Main/Start/Ready.antt =====
-- When `wifi_connect` and `sync_time_with_sntp` of mqtt_client/main.c let the firmware go on.
use assessing_pq_mqtt_m_tls.Common.{
  ℕ, zero, suc, ◌+◌, ◌*◌, ◌≤◌, ◌<◌, ◌≡◌, refl, ap, ◌∙◌, List, [], ◌∷◌, some, Bool, true, false, not,
  ◌&&◌, leb, arith, Bool-cases, Option-cases, inl, inr, some-injective, none-ne-some, subst,
}
use assessing_pq_mqtt_m_tls.Plain.{is_ok}
use assessing_pq_mqtt_m_tls.Main.Start.{
  Board, LinkStatus, link_up, link_down, link_join, link_noip, link_fail, link_nonet, link_badauth,
  unknown, is_up, is_refused, has_valid_ip, timeout_ms, wifi_rounds, wifi_fuel, wifi_attempt,
  wifi_attempts, wifi_connect, current_time_is_sane, Clock, mqtt_sntp_set_system_time, answer_all,
  rest_250, restart_sntp, sntp_rounds, sntp_fuel, sync_time_with_sntp,
}

-- Time goes on while the board sleeps, and setting the time of day is no matter of that time.
pub record Ticks (Net : Type 0) (b : Board Net) : Type 0 where
  pub sleeps : (k : ℕ) (n : Net) → b.time_us n + k * 1000 ≤ b.time_us (b.sleep_ms k n)
  pub sets : (sec : ℕ) (n : Net) → b.time_us (b.settimeofday sec n) ≡ b.time_us n

module _ (Net : Type 0) (b : Board Net) where
  -- Success is readiness.
  abbrev Succeeds {ℓ} : {A : Type ℓ} → (A → Bool) → Bool × A → Type 0
  Succeeds ready r = r.0 ≡ true → ready r.1 ≡ true

  abbrev is_online : Net → Bool
  is_online net = is_up (b.link_status net) && has_valid_ip Net b net

  abbrev is_on_time : Clock Net b → Bool
  is_on_time w = current_time_is_sane Net b w.net

  -- The link is up and the address is not 0.0.0.0.
  pub record IsOnline (net : Net) : Type 0 where
    pub linked : b.link_status net ≡ link_up
    pub addressed : (addr : ℕ) × (b.ip net ≡ some addr) × (0 < addr)

  -- The time of day is 2025-01-01 00:00:00 UTC or later.
  abbrev pub IsOnTime : Net → Type 0
  IsOnTime net =
      (sec : ℕ) × (usec : ℕ) × (b.gettimeofday net ≡ some (sec, usec)) × (1735689600 ≤ sec)

  is_up-link_up : (s : LinkStatus) → is_up s ≡ true → s ≡ link_up
  unfolding is_up
  is_up-link_up link_up e = refl
  is_up-link_up link_down e = cc
  is_up-link_up link_join e = cc
  is_up-link_up link_noip e = cc
  is_up-link_up link_fail e = cc
  is_up-link_up link_nonet e = cc
  is_up-link_up link_badauth e = cc
  is_up-link_up unknown e = cc

  has_valid_ip_lem :
      (net : Net) → has_valid_ip Net b net ≡ true → (addr : ℕ) × (b.ip net ≡ some addr) × (0 < addr)
  unfolding has_valid_ip
  has_valid_ip_lem net e = elim (Option-cases (b.ip net)) [
    | inl f ↦ absurd (ground (arith, rw (f, has_valid_ip) at e))
    | inr (addr, f) ↦ (addr, f, ground (arith, rw (f, has_valid_ip) at e))
  ]

  is_online-IsOnline : (net : Net) → is_online net ≡ true → IsOnline net
  is_online-IsOnline net e = record {
    linked = is_up-link_up (b.link_status net) (ground (arith, e));
    addressed = has_valid_ip_lem net (ground (arith, e));
  }

  current_time_is_sane-IsOnTime : (net : Net) → current_time_is_sane Net b net ≡ true → IsOnTime net
  unfolding current_time_is_sane
  current_time_is_sane-IsOnTime net e = elim (Option-cases (b.gettimeofday net)) [
    | inl f ↦ absurd (ground (arith, rw (f, current_time_is_sane) at e))
    | inr ((sec, usec), f) ↦ (sec, usec, f, ground (arith, rw (f, current_time_is_sane) at e))
  ]

  IsOnTime-current_time_is_sane : (net : Net) → IsOnTime net → current_time_is_sane Net b net ≡ true
  unfolding current_time_is_sane
  IsOnTime-current_time_is_sane net (sec, usec, f, h) = rw (f, current_time_is_sane) (ground arith)

  wifi_rounds-online :
      (fuel deadline : ℕ) (net : Net) (r : Bool × Net)
      → wifi_rounds Net b fuel deadline net ≡ some r
      → Succeeds is_online r
  unfolding wifi_rounds
  wifi_rounds-online zero deadline net r e = absurd (none-ne-some _ e)
  wifi_rounds-online (suc fuel) deadline net r e =
      elim (Bool-cases (leb deadline (b.time_us net))) [
        | inl late ↦
            subst (Succeeds is_online) (some-injective _ _ (rw late at e))
              (λ q. absurd (ground (arith, q)))
        | inr early ↦ elim (Bool-cases (is_online net)) [
          | inl up ↦ subst (Succeeds is_online) (some-injective _ _ (rw (early, up) at e)) (λ _. up)
          | inr down ↦ elim (Bool-cases (is_refused (b.link_status net))) [
            | inl bad ↦
                subst (Succeeds is_online) (some-injective _ _ (rw (early, down, bad) at e))
                  (λ q. absurd (ground (arith, q)))
            | inr more ↦ wifi_rounds-online fuel deadline _ r (rw (early, down, more) at e)
          ]
        ]
      ]

  wifi_attempt-online : (net : Net) → Succeeds is_online (wifi_attempt Net b net)
  unfolding wifi_attempt
  wifi_attempt-online net =
      let r = b.wifi_connect_async net in
      elim (Bool-cases (not (is_ok r.0))) [
        | inl bad ↦ simp bad (λ q. absurd (ground (arith, q)))
        | inr ok ↦
            simp ok
              (elim (Option-cases
                (wifi_rounds Net b (wifi_fuel Net b) (timeout_ms Net b 60000 r.1) r.1)) [
                  | inl e ↦ simp e (λ q. absurd (ground (arith, q)))
                  | inr (s, e) ↦ simp e (wifi_rounds-online _ _ r.1 s e)
                ])
      ]

  wifi_attempts-online : (n : ℕ) (net : Net) → Succeeds is_online (wifi_attempts Net b n net)
  unfolding wifi_attempts
  wifi_attempts-online zero net = λ q. absurd (ground (arith, q))
  wifi_attempts-online (suc n) net = elim (Bool-cases (wifi_attempt Net b net).0) [
    | inl up ↦ simp up (λ _. wifi_attempt-online net up)
    | inr down ↦ simp down (wifi_attempts-online n _)
  ]

  sntp_rounds-on_time :
      (fuel deadline : ℕ) (w : Clock Net b) (r : Bool × Clock Net b)
      → sntp_rounds Net b fuel deadline w ≡ some r
      → Succeeds is_on_time r
  unfolding sntp_rounds
  sntp_rounds-on_time zero deadline w r e = absurd (none-ne-some _ e)
  sntp_rounds-on_time (suc fuel) deadline w r e =
      elim (Bool-cases (leb deadline (b.time_us w.net))) [
        | inl late ↦
            subst (Succeeds is_on_time) (some-injective _ _ (rw late at e))
              (λ q. absurd (ground (arith, q)))
        | inr early ↦ elim (Bool-cases (w.sntp_time_set && is_on_time w)) [
          | inl set ↦
              subst (Succeeds is_on_time) (some-injective _ _ (rw (early, set) at e))
                (λ _. ground (arith, set))
          | inr unset ↦ sntp_rounds-on_time fuel deadline _ r (rw (early, unset) at e)
        ]
      ]

  sync-on_time : (w : Clock Net b) → Succeeds is_on_time (sync_time_with_sntp Net b w)
  unfolding sync_time_with_sntp
  sync-on_time w =
      let w₁ : Clock Net b = record { sntp_time_set = false; net = restart_sntp Net b w.net } in
      elim (Bool-cases (is_on_time w)) [
        | inl sane ↦ simp sane (λ _. refl)
        | inr wrong ↦
            simp wrong
              (elim (Option-cases
                (sntp_rounds Net b (sntp_fuel Net b) (timeout_ms Net b 60000 w₁.net) w₁)) [
                  | inl e ↦ simp e (λ q. absurd (ground (arith, q)))
                  | inr (r, e) ↦ simp e (sntp_rounds-on_time _ _ w₁ r e)
                ])
      ]

  pub sync_time_with_sntp-IsOnTime :
      (w : Clock Net b)
      → (sync_time_with_sntp Net b w).0 ≡ true
      → IsOnTime (sync_time_with_sntp Net b w).1.net
  sync_time_with_sntp-IsOnTime w e = current_time_is_sane-IsOnTime _ (sync-on_time w e)

  pub sync_time_with_sntp-IsOnTime_before :
      (w : Clock Net b) → IsOnTime w.net → sync_time_with_sntp Net b w ≡ (true, w)
  unfolding sync_time_with_sntp
  sync_time_with_sntp-IsOnTime_before w h = rw (IsOnTime-current_time_is_sane w.net h)

  -- A wait for SNTP that fails has not stopped before its deadline.
  sntp_rounds-late :
      (fuel deadline : ℕ) (w : Clock Net b) (r : Bool × Clock Net b)
      → sntp_rounds Net b fuel deadline w ≡ some r
      → r.0 ≡ false
      → deadline ≤ b.time_us r.1.net
  unfolding sntp_rounds
  sntp_rounds-late zero deadline w r e n = absurd (none-ne-some _ e)
  sntp_rounds-late (suc fuel) deadline w r e n =
      elim (Bool-cases (leb deadline (b.time_us w.net))) [
        | inl late ↦
            subst (λ (q : Bool × Clock Net b). deadline ≤ b.time_us q.1.net)
              (some-injective _ _ (rw late at e)) (ground (arith, late))
        | inr early ↦ elim (Bool-cases (w.sntp_time_set && is_on_time w)) [
          | inl set ↦ absurd (
              ground (
                arith,
                n,
                ap (λ (q : Bool × Clock Net b). q.0) (some-injective _ _ (rw (early, set) at e)),
              ))
          | inr unset ↦ sntp_rounds-late fuel deadline _ r (rw (early, unset) at e) n
        ]
      ]

  module _ (ticks : Ticks Net b) where
    wifi_rounds-some :
        (fuel deadline : ℕ) (net : Net)
        → 0 < fuel
        → deadline + 500000 ≤ b.time_us net + fuel * 500000
        → (r : Bool × Net) × (wifi_rounds Net b fuel deadline net ≡ some r)
    unfolding wifi_rounds
    wifi_rounds-some zero deadline net p h = absurd (omega (arith, p))
    wifi_rounds-some (suc fuel) deadline net p h =
        elim (Bool-cases (leb deadline (b.time_us net))) [
          | inl late ↦ simp late (_, refl)
          | inr early ↦ simp early (elim (Bool-cases (is_online net)) [
            | inl up ↦ simp up (_, refl)
            | inr down ↦ simp down (elim (Bool-cases (is_refused (b.link_status net))) [
              | inl bad ↦ simp bad (_, refl)
              | inr more ↦ simp more (
                  wifi_rounds-some fuel deadline (b.sleep_ms 500 net) (ground (arith, early, h))
                    (omega (arith, h, ticks.sleeps 500 net)))
            ])
          ])
        ]

    answer_all-time_us :
        (secs : List ℕ) (w : Clock Net b)
        → b.time_us (answer_all Net b secs w).net ≡ b.time_us w.net
    unfolding answer_all mqtt_sntp_set_system_time
    answer_all-time_us [] w = refl
    answer_all-time_us (sec ∷ secs) w = answer_all-time_us secs _ ∙ ticks.sets sec w.net

    sntp_rounds-some :
        (fuel deadline : ℕ) (w : Clock Net b)
        → 0 < fuel
        → deadline + 250000 ≤ b.time_us w.net + fuel * 250000
        → (r : Bool × Clock Net b) × (sntp_rounds Net b fuel deadline w ≡ some r)
    unfolding sntp_rounds
    sntp_rounds-some zero deadline w p h = absurd (omega (arith, p))
    sntp_rounds-some (suc fuel) deadline w p h =
        let later : b.time_us w.net + 250 * 1000 ≤ b.time_us (rest_250 Net b w).net = omega (
          arith,
          answer_all-time_us (b.answers 250 w.net) (record w { net = b.sleep_ms 250 w.net }),
          ticks.sleeps 250 w.net,
        ) in
        elim (Bool-cases (leb deadline (b.time_us w.net))) [
          | inl late ↦ simp late (_, refl)
          | inr early ↦ simp early (elim (Bool-cases (w.sntp_time_set && is_on_time w)) [
            | inl set ↦ simp set (_, refl)
            | inr unset ↦ simp unset (
                sntp_rounds-some fuel deadline (rest_250 Net b w) (ground (arith, early, h))
                  (omega (arith, h, later)))
          ])
        ]

    -- The waits of `wifi_connect` and `sync_time_with_sntp` end, each in the fuel that it is given, where
    -- time goes on while the board sleeps.
    pub start_rounds_total :
        (net : Net) (w : Clock Net b)
        → ((r : Bool × Net) × (wifi_rounds Net b (wifi_fuel Net b) (timeout_ms Net b 60000 net) net
              ≡ some r))
          × ((r : Bool × Clock Net b) × (sntp_rounds Net b
                  (sntp_fuel Net b)
                  (timeout_ms Net b 60000 w.net)
                  w
                ≡ some r))
    start_rounds_total net w = (
      wifi_rounds-some (wifi_fuel Net b) _ net (omega arith) (omega arith),
      sntp_rounds-some (sntp_fuel Net b) _ w (omega arith) (omega arith),
    )

    sync-late :
        (w : Clock Net b)
        → (sync_time_with_sntp Net b w).0 ≡ false
        → b.time_us (restart_sntp Net b w.net) + 60000000
          ≤ b.time_us (sync_time_with_sntp Net b w).1.net
    unfolding sync_time_with_sntp
    sync-late w =
        let w₁ : Clock Net b = record { sntp_time_set = false; net = restart_sntp Net b w.net } in
        elim (Bool-cases (is_on_time w)) [
          | inl sane ↦ simp sane (λ q. absurd (ground (arith, q)))
          | inr wrong ↦
              let (r, e) =
                sntp_rounds-some (sntp_fuel Net b) (timeout_ms Net b 60000 w₁.net) w₁ (omega arith)
                  (omega arith) in
              simp wrong (simp e (sntp_rounds-late _ _ w₁ r e))
        ]

    -- `wifi_connect` succeeds only where the link is up and the board has an address other than
    -- 0.0.0.0. `sync_time_with_sntp` succeeds at once and changes nothing where the time of day is in
    -- 2025 or later; it succeeds only where that is so at its end; and it fails only if at least a minute
    -- has passed since SNTP was started anew. Time goes on while the board sleeps.
    pub start-Succeeds :
        (net : Net) (w : Clock Net b)
        → let r = wifi_connect Net b net in
          let q = sync_time_with_sntp Net b w in
          (r.0 ≡ true → IsOnline r.1)
          × (IsOnTime w.net → q ≡ (true, w))
          × (q.0 ≡ true → IsOnTime q.1.net)
          × (q.0 ≡ false → b.time_us (restart_sntp Net b w.net) + 60000000 ≤ b.time_us q.1.net)
    unfolding wifi_connect
    start-Succeeds net w = (
      λ e. is_online-IsOnline _ (wifi_attempts-online 5 net e),
      sync_time_with_sntp-IsOnTime_before w,
      sync_time_with_sntp-IsOnTime w,
      sync-late w,
    )
