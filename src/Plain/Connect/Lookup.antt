-- ===== src/Plain/Connect/Lookup.antt =====
-- How `resolve_host` of mqtt_client/plain_transport.c resolves a name.
use assessing_pq_mqtt_m_tls.Common.{
  ℕ, zero, suc, ◌+◌, ◌≡◌, ◌⊎◌, refl, sym, ap, ℤ, List, Option, some, none, Bool, true, false, not,
  ltb, arith, Bool-cases, Option-cases, some-injective, none-ne-some, inl, inr,
}
use assessing_pq_mqtt_m_tls.Plain.{is_ok, Lwip, wrap32}
use assessing_pq_mqtt_m_tls.Transport.{err_timeout}
use assessing_pq_mqtt_m_tls.Plain.Connect.{
  err_val, Dns, Dialer, Resolution, resolved, unresolved, in_progress, resolve_rounds, dial_fuel,
  resolve_host,
}

pub Resolution-cases :
    (r : Resolution)
    → ((addr : ℕ) × (r ≡ resolved addr)) ⊎ ((e : ℤ) × (late : Bool) × (r ≡ unresolved e late))
Resolution-cases (resolved addr) = inl (addr, refl)
Resolution-cases (unresolved e late) = inr (e, late, refl)

module _ (lwip : Lwip) (dialer : Dialer lwip) where
  pub resolve_host_code :
      (host : List ℕ) (net : lwip.Net) (e : ℤ)
      → (resolve_host lwip dialer host net).0 ≡ unresolved e true
      → e ≡ err_timeout
  unfolding resolve_host
  resolve_host_code host net e h =
      let r = dialer.dns_gethostbyname host net in
      let loop =
        resolve_rounds lwip dialer (dial_fuel lwip dialer) (wrap32 (wrap32 (lwip.ms r.2) + 10000))
          (record { dns_done = false; dns_err = false; dns_result = 0 }) r.2 in
      elim (Bool-cases (is_ok r.0)) [
        | inl known ↦ absurd (ground (arith, rw known at h))
        | inr unknown ↦ elim (Bool-cases (not (in_progress lwip dialer r.0))) [
          | inl bad ↦ absurd (ground (arith, rw (unknown, bad) at h))
          | inr asked ↦ elim (Option-cases loop) [
            | inl f ↦ ground (arith, rw (unknown, asked, f) at h)
            | inr ((true, d, net₂), f) ↦ ground (arith, rw (unknown, asked, f) at h)
            | inr ((false, d, net₂), f) ↦ absurd (ground (arith, rw (unknown, asked, f) at h))
          ]
        ]
      ]

  -- What `dns_gethostbyname` gives, and the wait for its callback.
  abbrev pub asked : List ℕ → lwip.Net → ℤ × ℕ × lwip.Net
  asked host net = dialer.dns_gethostbyname host net

  abbrev pub answered : List ℕ → lwip.Net → Option (Bool × Dns × lwip.Net)
  answered host net =
      let n = (asked host net).2 in
      resolve_rounds lwip dialer (dial_fuel lwip dialer) (wrap32 (wrap32 (lwip.ms n) + 10000))
        (record { dns_done = false; dns_err = false; dns_result = 0 }) n

  -- How a name is resolved: lwIP knows it, or refuses it; its callback brings the address, or an error; or
  -- the callback is late.
  pub data Lookup (host : List ℕ) (net : lwip.Net) (r : Resolution) : Type 0 where
    known : is_ok (asked host net).0 ≡ true → r ≡ resolved (asked host net).1 → Lookup host net r
    refused :
        is_ok (asked host net).0 ≡ false
        → in_progress lwip dialer (asked host net).0 ≡ false
        → r ≡ unresolved (asked host net).0 false
        → Lookup host net r
    called_back :
        in_progress lwip dialer (asked host net).0 ≡ true
        → (d : Dns) (net' : lwip.Net) → answered host net ≡ some (false, d, net')
        → d.dns_done ≡ true
        → ((d.dns_err ≡ false) × (r ≡ resolved d.dns_result))
          ⊎ ((d.dns_err ≡ true) × (r ≡ unresolved err_val false))
        → Lookup host net r
    never_called :
        in_progress lwip dialer (asked host net).0 ≡ true
        → ((answered host net ≡ none)
            ⊎ ((d : Dns) × (net' : lwip.Net) × (answered host net ≡ some (true, d, net'))))
        → r ≡ unresolved err_timeout true
        → Lookup host net r

  resolve_rounds_end :
      (fuel deadline : ℕ) (d : Dns) (net : lwip.Net) (d' : Dns) (net' : lwip.Net)
      → resolve_rounds lwip dialer fuel deadline d net ≡ some (false, d', net')
      → d'.dns_done ≡ true
  unfolding resolve_rounds
  resolve_rounds_end zero deadline d net d' net' e = absurd (none-ne-some _ e)
  resolve_rounds_end (suc fuel) deadline d net d' net' e = elim (Bool-cases d.dns_done) [
    | inl stop ↦
        ap (λ (r : Bool × Dns × lwip.Net). r.1.dns_done) (sym (some-injective _ _ (rw stop at e)))
    | inr go ↦ elim (Bool-cases (ltb deadline (wrap32 (lwip.ms net)))) [
      | inl over ↦ absurd (
          ground (
            arith,
            ap (λ (r : Bool × Dns × lwip.Net). r.0) (some-injective _ _ (rw (go, over) at e)),
          ))
      | inr early ↦ resolve_rounds_end fuel deadline _ _ d' net' (rw (go, early) at e)
    ]
  ]

  pub resolve_host-Lookup :
      (host : List ℕ) (net : lwip.Net) → Lookup host net (resolve_host lwip dialer host net).0
  unfolding resolve_host
  resolve_host-Lookup host net =
      let r = asked host net in
      elim (Bool-cases (is_ok r.0)) [
        | inl ok ↦ rw ok (known ok refl)
        | inr bad ↦ elim (Bool-cases (in_progress lwip dialer r.0)) [
          | inr no_wait ↦ rw (bad, no_wait) (refused bad no_wait refl)
          | inl wait ↦ elim (Option-cases (answered host net)) [
            | inl f ↦ rw (bad, wait, f) (never_called wait (inl f) refl)
            | inr ((true, d, net'), f) ↦
                rw (bad, wait, f) (never_called wait (inr (d, net', f)) refl)
            | inr ((false, d, net'), f) ↦
                let done = resolve_rounds_end _ _ _ _ d net' f in
                rw (bad, wait, f)
                  (called_back wait d net' f done
                    (elim (Bool-cases d.dns_err) [ inl e ↦ inr (e, rw e) | inr e ↦ inl (e, rw e) ]))
          ]
        ]
      ]
