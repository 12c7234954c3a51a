-- ===== src/Mqtt/Stream/Sending.antt =====
-- What `send_all` of mqtt_client/mqtt.c has handed to the transport when it returns.
use assessing_pq_mqtt_m_tls.Common.{
  ℕ, zero, suc, ◌≤◌, ◌≡◌, refl, sym, ap, ◌∙◌, ◌⊎◌, inl, inr, List, [], ◌∷◌, ◌++◌, Bool, true, false,
  arith, length, take, drop, take-append-drop, append_assoc, append-nil,
}
use assessing_pq_mqtt_m_tls.Transport.{Transport, Laws, WriteResult, write_failed, wrote}
use assessing_pq_mqtt_m_tls.Mqtt.Stream.{send_from, send_all}

WriteResult-cases :
    (r : WriteResult) → ((r ≡ write_failed) ⊎ (r ≡ wrote 0)) ⊎ ((m : ℕ) × (r ≡ wrote (suc m)))
WriteResult-cases write_failed = inl (inl refl)
WriteResult-cases (wrote zero) = inl (inr refl)
WriteResult-cases (wrote (suc m)) = inr (m, refl)

module _ (t : Transport) (laws : Laws t) where
  open t use {Conn, tls_write}
  open laws use {IsGood, incoming, sent, write-IsGood, write-incoming, write-sent}

  -- The connection `c'` is left by a write that failed or took nothing.
  pub record Refused (c' : Conn) : Type 0 where
    pub place : Conn
    pub bytes : List ℕ
    pub refusal : ((tls_write place bytes).0 ≡ write_failed) ⊎ ((tls_write place bytes).0 ≡ wrote 0)
    pub left : c' ≡ (tls_write place bytes).1

  -- What a call of `send_from` keeps, what it has sent when it succeeds, and why it does not.
  pub record Sends (c : Conn) (tail : List ℕ) (out : Bool × Conn) : Type 0 where
    pub good : IsGood out.1
    pub unread : incoming out.1 ≡ incoming c
    pub stuck : out.0 ≡ false → Refused out.1
    pub all_sent : out.0 ≡ true → sent out.1 ≡ sent c ++ tail

  send_from-Sends :
      (c : Conn) (ahead : ℕ) (xs : List ℕ)
      → IsGood c
      → ahead ≤ length xs
      → Sends c (drop ahead xs) (send_from t c ahead xs)
  unfolding send_from
  send_from-Sends c zero [] g h = record {
    good = g;
    unread = refl;
    stuck = λ p. cc;
    all_sent = λ _. sym (append-nil (sent c));
  }
  send_from-Sends c (suc ahead) [] g h = absurd (omega arith)
  send_from-Sends c (suc ahead) (x ∷ xs) g h = send_from-Sends c ahead xs g (omega arith)
  send_from-Sends c zero (x ∷ xs) g h =
      let g' = write-IsGood c (x ∷ xs) g in
      let u' = write-incoming c (x ∷ xs) g in
      elim (WriteResult-cases (tls_write c (x ∷ xs)).0) [
        | inl (inl e) ↦
            let w : Refused (tls_write c (x ∷ xs)).1 = record {
              place = c;
              bytes = x ∷ xs;
              refusal = inl e;
              left = refl;
            } in
            rw (e, send_from)
              (record { good = g'; unread = u'; stuck = λ _. w; all_sent = λ p. cc })
        | inl (inr e) ↦
            let w : Refused (tls_write c (x ∷ xs)).1 = record {
              place = c;
              bytes = x ∷ xs;
              refusal = inr e;
              left = refl;
            } in
            rw (e, send_from)
              (record { good = g'; unread = u'; stuck = λ _. w; all_sent = λ p. cc })
        | inr (m, e) ↦
            let (le, s) = write-sent c (x ∷ xs) (suc m) g e in
            let ih = send_from-Sends (tls_write c (x ∷ xs)).1 m xs g' (omega arith) in
            rw (e, send_from)
              (record {
                good = ih.good;
                unread = ih.unread ∙ u';
                stuck = ih.stuck;
                all_sent = λ p.
                    ih.all_sent p
                    ∙ rw s (
                        append_assoc (sent c) (take (suc m) (x ∷ xs)) (drop m xs)
                        ∙ ap (λ (zs : List ℕ). sent c ++ (x ∷ zs)) (take-append-drop m xs));
              })
      ]

  -- Whatever the transport answers, `send_all` reads nothing and leaves the connection in a good
  -- state; if it returns true, the transport has taken exactly the bytes of the buffer, in order, and if false, a write
  -- failed or took nothing.
  pub send_all-Sends : (c : Conn) (buf : List ℕ) → IsGood c → Sends c buf (send_all t c buf)
  unfolding send_all
  send_all-Sends c buf g = send_from-Sends c 0 buf g (omega arith)
