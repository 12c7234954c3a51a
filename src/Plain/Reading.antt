-- ===== src/Plain/Reading.antt =====
-- The loop of `tls_read`.
use assessing_pq_mqtt_m_tls.Common.{
  ℕ, zero, suc, ◌+◌, ◌-◌, ◌^◌, ◌≤◌, ◌<◌, ◌≡◌, refl, sym, ap, ◌∙◌, ◌⊎◌, List, [], ◌∷◌, ◌++◌, some,
  true, length, ltb, ◌==◌, ◌||◌, arith, length-append, append_assoc, Bool-cases, Option-cases,
  some-injective, none-ne-some, subst, inl, inr,
}
use assessing_pq_mqtt_m_tls.Ring.{rx_buf_cap, rx_pop}
use assessing_pq_mqtt_m_tls.Ring.Window.{IsValid, contents}
use assessing_pq_mqtt_m_tls.Ring.Bytes.{rx_pop_lem}
use assessing_pq_mqtt_m_tls.Plain.{
  TlsConn, handle_all, delivered_all, Lwip, wrap32, read_rounds, read_fuel,
}
use assessing_pq_mqtt_m_tls.Plain.Delivery.{NetLaws, handle_all-Took}

length-nil : (xs : List ℕ) → length xs ≡ 0 → xs ≡ []
length-nil [] e = refl
length-nil (x ∷ xs) e = absurd (omega (arith, e))

module _ (lwip : Lwip) (laws : NetLaws lwip) where
  open lwip use {Net, ms, sleep_ms}

  -- A valid ring with room for all that is still to come.
  pub record HasRoom (c : TlsConn) (net : Net) : Type 0 where
    pub valid : IsValid c.rx
    pub room : length (contents c.rx) + length (laws.pending net) ≤ rx_buf_cap

  -- The bytes that a program has still to read.
  abbrev pub unread : TlsConn → Net → List ℕ
  unread c net = contents c.rx ++ laws.pending net

  sleep-HasRoom :
      (c : TlsConn) (net : Net)
      → HasRoom c net
      → HasRoom (handle_all (sleep_ms net).0 c) (sleep_ms net).1
        × (unread (handle_all (sleep_ms net).0 c) (sleep_ms net).1 ≡ unread c net)
  sleep-HasRoom c net h =
      let events = (sleep_ms net).0 in
      let p = laws.sleep-pending net in
      let lp = length-append (delivered_all events) (laws.pending (sleep_ms net).1) in
      let t = handle_all-Took events c h.valid (omega (arith, h.room, ap length p, lp)) in
      (
        record {
          valid = t.valid;
          room = omega (
            arith,
            h.room,
            ap length p,
            lp,
            ap length t.holds,
            length-append (contents c.rx) (delivered_all events),
          );
        },
        ap (λ (xs : List ℕ). xs ++ laws.pending (sleep_ms net).1) t.holds
            ∙ append_assoc (contents c.rx) (delivered_all events) (laws.pending (sleep_ms net).1)
            ∙ ap (λ (xs : List ℕ). contents c.rx ++ xs) (sym p),
      )

  -- What some bytes read leave.
  pub record Reads (want : ℕ) (c : TlsConn) (net : Net) (r : List ℕ × TlsConn × Net) : Type 0 where
    pub fits : length r.0 ≤ want
    pub stream : unread c net ≡ r.0 ++ unread r.1 r.2
    pub left : HasRoom r.1 r.2
    pub silent : laws.sent r.2 ≡ laws.sent net

  pop-Reads :
      (want : ℕ) (c : TlsConn) (net : Net)
      → HasRoom c net
      → Reads want c net ((rx_pop c.rx want).0, record c { rx = (rx_pop c.rx want).1 }, net)
  pop-Reads want c net h =
      let (v, l, e) = rx_pop_lem c.rx want h.valid in
      record {
        fits = omega (arith, l);
        stream =
            ap (λ (xs : List ℕ). xs ++ laws.pending net) e
            ∙ append_assoc (rx_pop c.rx want).0 (contents (rx_pop c.rx want).1) (laws.pending net);
        left = record {
          valid = v;
          room = omega (
            arith,
            h.room,
            ap length e,
            length-append (rx_pop c.rx want).0 (contents (rx_pop c.rx want).1),
          );
        };
        silent = refl;
      }

  -- A round that stores `got` and then sleeps, before rounds that store `more`.
  joined-Reads :
      (want : ℕ) (c c₁ : TlsConn) (net : Net) (got more : List ℕ) (c₂ : TlsConn) (net₂ : Net)
      → Reads want c net (got, c₁, net)
      → Reads (want - length got) (handle_all (sleep_ms net).0 c₁) (sleep_ms net).1 (more, c₂, net₂)
      → Reads want c net (got ++ more, c₂, net₂)
  joined-Reads want c c₁ net got more c₂ net₂ p q =
      let (_, s) = sleep-HasRoom c₁ net p.left in
      record {
        fits = omega (arith, p.fits, q.fits, length-append got more);
        stream =
            p.stream
            ∙ ap (λ (xs : List ℕ). got ++ xs) (sym s ∙ q.stream)
            ∙ sym (append_assoc got more (unread c₂ net₂));
        left = q.left;
        silent = q.silent ∙ laws.sleep-sent net;
      }

  -- Whatever the loop stores, on any fuel, is the next part of the stream.
  pub read_rounds-Reads :
      (fuel want deadline : ℕ) (c : TlsConn) (net : Net) (r : List ℕ × TlsConn × Net)
      → HasRoom c net
      → read_rounds lwip fuel want deadline c net ≡ some r
      → Reads want c net r
  unfolding read_rounds
  read_rounds-Reads zero want deadline c net r h e = absurd (ground arith)
  read_rounds-Reads (suc fuel) want deadline c net r h e =
      let got = (rx_pop c.rx want).0 in
      let c₁ : TlsConn = record c { rx = (rx_pop c.rx want).1 } in
      let p = pop-Reads want c net h in
      let rest =
        read_rounds lwip fuel (want - length got) deadline (handle_all (sleep_ms net).0 c₁)
          (sleep_ms net).1 in
      elim (Bool-cases (length got == want || c.tcp_error || c.remote_closed)) [
        | inl stop ↦ subst (Reads want c net) (some-injective _ _ (rw stop at e)) p
        | inr go ↦ elim (Bool-cases (ltb deadline (wrap32 (ms net)))) [
          | inl late ↦ subst (Reads want c net) (some-injective _ _ (rw (go, late) at e)) (record {
            fits = p.fits;
            stream = p.stream;
            left = record { valid = p.left.valid; room = p.left.room };
            silent = refl;
          })
          | inr early ↦ elim (Option-cases rest) [
            | inl f ↦ absurd (none-ne-some _ (rw (go, early, f) at e))
            | inr ((more, c₂, net₂), f) ↦
                subst (Reads want c net) (some-injective _ _ (rw (go, early, f) at e)) (
                  joined-Reads want c c₁ net got more c₂ net₂ p (
                    read_rounds-Reads fuel (want - length got) deadline _ _ _
                      ((sleep-HasRoom c₁ net p.left).0) f))
          ]
        ]
      ]

  -- What has stopped a read that has stored nothing: the ring is empty, and the connection is broken,
  -- closed by the peer, or late.
  pub record Stopped (c : TlsConn) : Type 0 where
    pub empty : contents c.rx ≡ []
    pub reason : (c.tcp_error ≡ true) ⊎ (c.remote_closed ≡ true) ⊎ (c.io_timed_out ≡ true)

  pop-empty :
      (want : ℕ) (c : TlsConn)
      → IsValid c.rx
      → 0 < want
      → (rx_pop c.rx want).0 ≡ []
      → contents (rx_pop c.rx want).1 ≡ []
  pop-empty want c v p e =
      let (v', l, f) = rx_pop_lem c.rx want v in
      length-nil _ (
        ground (
          arith,
          l,
          ap length f,
          ap length e,
          length-append (rx_pop c.rx want).0 (contents (rx_pop c.rx want).1),
        ))

  append-nil_split : (xs ys : List ℕ) → xs ++ ys ≡ [] → (xs ≡ []) × (ys ≡ [])
  append-nil_split [] ys e = (refl, e)
  append-nil_split (x ∷ xs) ys e = cc

  pub nothing_read :
      (fuel want deadline : ℕ) (c : TlsConn) (net : Net) (r : List ℕ × TlsConn × Net)
      → HasRoom c net
      → 0 < want
      → read_rounds lwip fuel want deadline c net ≡ some r
      → r.0 ≡ []
      → Stopped r.1
  unfolding read_rounds
  nothing_read zero want deadline c net r h p e z = absurd (ground arith)
  nothing_read (suc fuel) want deadline c net r h p e z =
      let got = (rx_pop c.rx want).0 in
      let c₁ : TlsConn = record c { rx = (rx_pop c.rx want).1 } in
      let rest =
        read_rounds lwip fuel (want - length got) deadline (handle_all (sleep_ms net).0 c₁)
          (sleep_ms net).1 in
      elim (Bool-cases (length got == want || c.tcp_error || c.remote_closed)) [
        | inl stop ↦
            let f = some-injective _ _ (rw stop at e) in
            let g : got ≡ [] = ap (λ (q : List ℕ × TlsConn × Net). q.0) f ∙ z in
            subst (λ (q : List ℕ × TlsConn × Net). Stopped q.1) f
              (record {
                empty = pop-empty want c h.valid p g;
                reason = elim (Bool-cases c.tcp_error) [
                  | inl bad ↦ inl bad
                  | inr fine ↦ inr (inl (ground (arith, stop, fine, ap length g)))
                ];
              })
        | inr go ↦ elim (Bool-cases (ltb deadline (wrap32 (ms net)))) [
          | inl late ↦
              let f = some-injective _ _ (rw (go, late) at e) in
              let g : got ≡ [] = ap (λ (q : List ℕ × TlsConn × Net). q.0) f ∙ z in
              subst (λ (q : List ℕ × TlsConn × Net). Stopped q.1) f
                (record { empty = pop-empty want c h.valid p g; reason = inr (inr refl) })
          | inr early ↦ elim (Option-cases rest) [
            | inl f ↦ absurd (none-ne-some _ (rw (go, early, f) at e))
            | inr ((more, c₂, net₂), f) ↦
                let k = some-injective _ _ (rw (go, early, f) at e) in
                let (g, m) =
                  append-nil_split got more (ap (λ (q : List ℕ × TlsConn × Net). q.0) k ∙ z) in
                let left = (pop-Reads want c net h).left in
                subst (λ (q : List ℕ × TlsConn × Net). Stopped q.1) k
                  (nothing_read fuel (want - length got) deadline _ _ (more, c₂, net₂)
                    ((sleep-HasRoom c₁ net left).0) (omega (arith, p, ap length g)) f m)
          ]
        ]
      ]

  -- The loop ends, with a result: fuel for every millisecond up to the deadline is enough, where the
  -- 32-bit clock does not wrap on the way.
  read_rounds_end :
      (fuel want deadline : ℕ) (c : TlsConn) (net : Net)
      → deadline + 1001 < 2 ^ 32
      → ms net ≤ deadline + 1000
      → deadline + 2 - ms net ≤ fuel
      → 0 < fuel
      → (r : List ℕ × TlsConn × Net) × (read_rounds lwip fuel want deadline c net ≡ some r)
  unfolding read_rounds
  read_rounds_end zero want deadline c net k l m z = absurd (omega arith)
  read_rounds_end (suc fuel) want deadline c net k l m z =
      let got = (rx_pop c.rx want).0 in
      let c₁ : TlsConn = record c { rx = (rx_pop c.rx want).1 } in
      elim (Bool-cases (length got == want || c.tcp_error || c.remote_closed)) [
        | inl stop ↦ ((got, c₁, net), rw stop refl)
        | inr go ↦ elim (Bool-cases (ltb deadline (wrap32 (ms net)))) [
          | inl late ↦ ((got, record c₁ { io_timed_out = true }, net), rw (go, late) refl)
          | inr early ↦
              let w : ms net ≤ deadline = ground arith in
              let ((more, c₂, net₂), f) =
                read_rounds_end fuel (want - length got) deadline (handle_all (sleep_ms net).0 c₁)
                  (sleep_ms net).1 k (omega (arith, laws.sleep_soon net))
                  (omega (arith, laws.sleep_later net)) (omega arith) in
              ((got ++ more, c₂, net₂), rw (go, early, f) refl)
        ]
      ]

  -- `tls_read` returns: with the fuel that it has its loop ends, unless the 32-bit clock is less than
  -- 16.002 seconds from its end.
  pub read_rounds_total :
      (want : ℕ) (c : TlsConn) (net : Net)
      → ms net + 16001 < 2 ^ 32
      → (r : List ℕ × TlsConn × Net) × (read_rounds lwip
            (read_fuel lwip)
            want
            (wrap32 (wrap32 (ms net) + 15000))
            c
            net
          ≡ some r)
  read_rounds_total want c net h =
      let d : wrap32 (wrap32 (ms net) + 15000) ≡ ms net + 15000 = omega arith in
      rw d (
        read_rounds_end 15002 want (ms net + 15000) c net (omega arith) (omega arith) (omega arith)
          (omega arith))
