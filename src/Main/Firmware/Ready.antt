-- ===== src/Main/Firmware/Ready.antt =====
-- What `main` of mqtt_client/main.c makes sure of before it connects.
use assessing_pq_mqtt_m_tls.Common.{
  zero, suc, ◌<◌, ◌≤◌, ◌≡◌, ◌≢◌, ◌⊎◌, refl, ap, ℤ, pos, negsuc, Option, some, none, Bool, true,
  false, not, leb, is_zero, arith, Bool-cases, inl, inr,
}
use assessing_pq_mqtt_m_tls.Main.Start.{Board, Clock, wifi_connect, sync_time_with_sntp}
use assessing_pq_mqtt_m_tls.Main.Start.Ready.{
  IsOnTime, sync_time_with_sntp-IsOnTime, sync_time_with_sntp-IsOnTime_before,
}
use assessing_pq_mqtt_m_tls.Main.Firmware.{
  Build, Stop, no_wifi_chip, no_network, no_time, placeholder_certificates, needs_time,
  has_placeholders, Chip, check_certificates, set_clock, prepare,
}

module _ (Net : Type 0) (b : Board Net) (chip : Chip Net) (build : Build) where
  -- TLS or the benchmark.
  abbrev pub NeedsTime : Type 0
  NeedsTime = (build.bench ≡ true) ⊎ (build.plain ≡ false)

  -- Where TLS is used the certificates and the key are there; with it or in the benchmark, the time of
  -- day is set.
  pub record IsReady (net : Net) : Type 0 where
    pub certificates :
        build.plain ≡ false
        → (1 < build.ca_cert_len) × (1 < build.client_cert_len) × (1 < build.client_key_len)
    pub on_time : NeedsTime → IsOnTime Net b net

  -- The network that `wifi_connect` is called on, and what it gives.
  abbrev pub joined : Net → Bool × Net
  joined net = wifi_connect Net b (chip.enable_sta_mode (chip.init_with_country net).1)

  -- Why `main` stops, from the network it starts on; or that it is ready.
  abbrev pub Prepared : Net → Option Stop × Net → Type 0
  Prepared net₀ (none, net) =
      ((chip.init_with_country net₀).0 ≡ pos 0) × ((joined net₀).0 ≡ true) × IsReady net
  Prepared net₀ (some no_wifi_chip, net) = (chip.init_with_country net₀).0 ≢ pos 0
  Prepared net₀ (some no_network, net) = (joined net₀).0 ≡ false
  Prepared net₀ (some no_time, net) = NeedsTime × (¬ IsOnTime Net b (joined net₀).1)
  Prepared net₀ (some placeholder_certificates, net) =
      (build.plain ≡ false)
      × ((build.ca_cert_len ≤ 1) ⊎ (build.client_cert_len ≤ 1) ⊎ (build.client_key_len ≤ 1))

  is_zero-pos : (e : ℤ) → not (is_zero e) ≡ false → e ≡ pos 0
  is_zero-pos (pos zero) h = refl
  is_zero-pos (pos (suc n)) h = absurd (ground (arith, h))
  is_zero-pos (negsuc n) h = absurd (ground (arith, h))

  needs_time-NeedsTime : needs_time build ≡ true → NeedsTime
  unfolding needs_time
  needs_time-NeedsTime h = elim (Bool-cases build.bench) [
    | inl e ↦ inl e
    | inr e ↦ inr (ground (arith, rw e at h))
  ]

  NeedsTime-needs_time : NeedsTime → needs_time build ≡ true
  unfolding needs_time
  NeedsTime-needs_time (inl e) = rw e
  NeedsTime-needs_time (inr e) = ground (arith, e)

  has_placeholders_lem :
      has_placeholders build ≡ true
      → (build.plain ≡ false)
        × ((build.ca_cert_len ≤ 1) ⊎ (build.client_cert_len ≤ 1) ⊎ (build.client_key_len ≤ 1))
  unfolding has_placeholders
  has_placeholders_lem h = (
    ground (arith, h),
    elim (Bool-cases (leb build.ca_cert_len 1)) [
      | inl e ↦ inl (ground (arith, e))
      | inr e ↦ elim (Bool-cases (leb build.client_cert_len 1)) [
        | inl f ↦ inr (inl (ground (arith, f)))
        | inr f ↦ inr (inr (ground (arith, e, f, h)))
      ]
    ],
  )

  module _ (net₀ : Net) (init : (chip.init_with_country net₀).0 ≡ pos 0)
      (online : (joined net₀).0 ≡ true) where
    check_certificates-Prepared :
        (net : Net)
        → (needs_time build ≡ true → IsOnTime Net b net)
        → Prepared net₀ (check_certificates Net b chip build net)
    unfolding check_certificates
    check_certificates-Prepared net h = elim (Bool-cases (has_placeholders build)) [
      | inl bad ↦ rw bad (has_placeholders_lem bad)
      | inr good ↦ rw good (
        init,
        online,
        record {
          certificates = λ e.
              unfold has_placeholders in
              (ground (arith, good, e), ground (arith, good, e), ground (arith, good, e));
          on_time = λ k. h (NeedsTime-needs_time k);
        },
      )
    ]

    set_clock-Prepared : Prepared net₀ (set_clock Net b chip build (joined net₀).1)
    unfolding set_clock
    set_clock-Prepared =
        let net = (joined net₀).1 in
        let w : Clock Net b = record { sntp_time_set = false; net = net } in
        elim (Bool-cases (not (needs_time build))) [
          | inl free ↦
              rw free (check_certificates-Prepared net (λ e. absurd (ground (arith, e, free))))
          | inr bound ↦ elim (Bool-cases (sync_time_with_sntp Net b w).0) [
            | inr unset ↦
                rw (bound, unset)
                  (
                    needs_time-NeedsTime (ground (arith, bound)),
                    λ h. absurd (
                        ground (
                          arith,
                          unset,
                          ap (λ (r : Bool × Clock Net b). r.0)
                              (sync_time_with_sntp-IsOnTime_before Net b w h),
                        )),
                  )
            | inl set ↦
                rw (bound, set)
                  (check_certificates-Prepared (sync_time_with_sntp Net b w).1.net
                    (λ _. sync_time_with_sntp-IsOnTime Net b w set))
          ]
        ]

  -- `main` goes on to its connections only where the Wi-Fi chip and the network are there; where, with
  -- TLS, none of the certificates and the key is a placeholder of at most one byte; and where, with TLS or
  -- in the benchmark, the time of day is in 2025 or later. It stops for the chip only where that gives an
  -- error; for the network only where `wifi_connect` fails; for the time only with TLS or in the
  -- benchmark, where the time of day was not set at first; and for placeholders only with TLS, where
  -- there is one.
  pub prepare-Prepared : (net : Net) → Prepared net (prepare Net b chip build net)
  unfolding prepare
  prepare-Prepared net = elim (Bool-cases (not (is_zero (chip.init_with_country net).0))) [
    | inl bad ↦ rw bad (λ e. absurd (ground (arith, rw e at bad)))
    | inr good ↦ elim (Bool-cases (joined net).0) [
      | inl online ↦ rw (good, online) (set_clock-Prepared net (is_zero-pos _ good) online)
      | inr offline ↦ rw (good, offline) offline
    ]
  ]
