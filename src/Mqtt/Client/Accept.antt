-- ===== src/Mqtt/Client/Accept.antt =====
-- `mqtt_connect_internal` of mqtt_client/mqtt.c, from the call to the broker's answer.
use assessing_pq_mqtt_m_tls.Common.{
  ◌>>=◌, ℕ, zero, suc, ◌-◌, ◌≤◌, ◌<◌, ◌≡◌, refl, sym, ◌∙◌, ◌⊎◌, inl, inr, pos, List, [], ◌∷◌, ◌++◌,
  true, false, Option, some, none, arith, length, drop-append, length-append, Bool-cases,
  Option-cases, ltb, ◌==◌, ◌!=◌, ◌||◌, !=_of_eq, !=_of_ne,
}
use assessing_pq_mqtt_m_tls.Transport.{Transport, Laws, ReadResult, read_failed, received}
use assessing_pq_mqtt_m_tls.Mqtt.Packet.{ConnectArgs, connect_packet}
use assessing_pq_mqtt_m_tls.Mqtt.Packet.Format.{read_connect, read_ack_by, read_ack_body}
use assessing_pq_mqtt_m_tls.Mqtt.Packet.Connect.{
  FitsU16, connect_fields, connect_size, connect_packet-none, read_connect-connect_packet,
}
use assessing_pq_mqtt_m_tls.Mqtt.RemLen.{decode_either}
use assessing_pq_mqtt_m_tls.Mqtt.RemLen.RoundTrip.{decode_either-lt, decode_either-Suffix}
use assessing_pq_mqtt_m_tls.Mqtt.Stream.{send_all, recv_byte, recv_remlen, remlen_error, drain}
use assessing_pq_mqtt_m_tls.Mqtt.Stream.Sending.{Refused, send_all-Sends}
use assessing_pq_mqtt_m_tls.Mqtt.Stream.Receiving.{
  IsShort, Kept, Kept-trans, Cut, cut_here, Cut-after, recv_byte-Cut, recv_byte-Kept,
  recv_byte-incoming, recv_remlen_lem, recv_remlen-either, drain-Drains,
}
use assessing_pq_mqtt_m_tls.Mqtt.Client.{
  Outcome, err_mqtt_send, err_mqtt_packet, pair, fail, finish_connect, skip_rest, read_code,
  read_length, read_connack, mqtt_connect_internal,
}

-- What an outcome says of a CONNACK, where `ack` is what a reader of the stream makes of it. It
-- succeeds on return code 0 alone; an error code above 0 is the broker's; and there is no other error but
-- that of a packet which the reader refuses, and that of a stream which is `Lost`.
pub data Answers (ack : Option (ℕ × List ℕ)) (rest : List ℕ) (Lost : Type 0) (o : Outcome)
    : Type 0 where
  accepted :
      o.success ≡ true → o.error_code ≡ pos 0 → ack ≡ some (0, rest) → Answers ack rest Lost o
  refused :
      (k : ℕ)
      → o.success ≡ false
      → o.error_code ≡ pos (suc k)
      → ack ≡ some (suc k, rest)
      → Answers ack rest Lost o
  malformed : o ≡ fail err_mqtt_packet → ack ≡ none → Answers ack rest Lost o
  lost : o ≡ fail err_mqtt_packet → Lost → Answers ack rest Lost o

pair-received : (r : ReadResult) (b₀ b₁ : ℕ) → pair r ≡ some (b₀, b₁) → r ≡ received (b₀ ∷ b₁ ∷ [])
pair-received (received (x ∷ y ∷ [])) b₀ b₁ e = ground arith
pair-received (received (x ∷ y ∷ z ∷ xs)) b₀ b₁ e = cc
pair-received (received (x ∷ [])) b₀ b₁ e = cc
pair-received (received []) b₀ b₁ e = cc
pair-received read_failed b₀ b₁ e = cc

-- The body of a CONNACK of length n whose last n - 2 bytes are `xs`.
read_ack_body-split :
    (n b₀ b₁ : ℕ) (xs rest : List ℕ)
    → 2 ≤ n
    → length xs ≡ n - 2
    → read_ack_body n (b₀ ∷ b₁ ∷ (xs ++ rest)) ≡ some (b₁, rest)
unfolding read_ack_body
read_ack_body-split n b₀ b₁ xs rest h l =
    ground (arith, l, length-append xs rest, rw l at (drop-append xs rest))

pair-IsShort :
    (r : ReadResult)
    → pair r ≡ none
    → ((xs : List ℕ) → r ≡ received xs → length xs ≤ 2)
    → IsShort 2 r
pair-IsShort (received (x ∷ y ∷ [])) e h = cc
pair-IsShort (received (x ∷ y ∷ z ∷ xs)) e h = omega (arith, h (x ∷ y ∷ z ∷ xs) refl)
pair-IsShort (received (x ∷ [])) e h = omega arith
pair-IsShort (received []) e h = omega arith
pair-IsShort read_failed e h = tt

module _ (t : Transport) (laws : Laws t) where
  open t use {Conn, tls_read, time_us_64}
  open laws use {IsGood, incoming, sent, read-IsGood, read-sent, read-incoming}

  -- What a part of the handshake that starts at `c` ends in, where `ack` is what a reader of the
  -- stream makes of the whole CONNACK.
  pub record Ends (c : Conn) (ack : Option (ℕ × List ℕ)) (out : Outcome × Conn) : Type 0 where
    pub kept : Kept t laws c out.1
    pub answers : Answers ack (incoming out.1) (Cut t laws c out.1) out.0

  Answers-after :
      (c b : Conn) (ack : Option (ℕ × List ℕ)) (xs : List ℕ) (o : Outcome) (d : Conn)
      → incoming c ≡ xs ++ incoming b
      → Answers ack (incoming d) (Cut t laws b d) o
      → Answers ack (incoming d) (Cut t laws c d) o
  Answers-after c b ack xs o d f (accepted p q r) = accepted p q r
  Answers-after c b ack xs o d f (refused k p q r) = refused k p q r
  Answers-after c b ack xs o d f (malformed p q) = malformed p q
  Answers-after c b ack xs o d f (lost p q) = lost p (Cut-after t laws c b d xs f q)

  Ends-after :
      (a b : Conn) (ack : Option (ℕ × List ℕ)) (xs : List ℕ) (out : Outcome × Conn)
      → Kept t laws a b
      → incoming a ≡ xs ++ incoming b
      → Ends b ack out
      → Ends a ack out
  Ends-after a b ack xs out k f e = record {
    kept = Kept-trans t laws k e.kept;
    answers = Answers-after a b ack xs out.0 out.1 f e.answers;
  }

  stays_lost :
      (a c : Conn) (ack : Option (ℕ × List ℕ))
      → Kept t laws a c
      → Cut t laws a c
      → Ends a ack (fail err_mqtt_packet, c)
  stays_lost a c ack k l = record { kept = k; answers = lost refl l }

  stays_malformed :
      (a c : Conn) (ack : Option (ℕ × List ℕ))
      → Kept t laws a c
      → ack ≡ none
      → Ends a ack (fail err_mqtt_packet, c)
  stays_malformed a c ack k e = record { kept = k; answers = malformed refl e }

  finish_connect-Ends :
      (c : Conn) (t0 code : ℕ) (ack : Option (ℕ × List ℕ))
      → IsGood c
      → ack ≡ some (code, incoming c)
      → Ends c ack (finish_connect t c t0 code)
  unfolding finish_connect
  finish_connect-Ends c t0 zero ack g e = record {
    kept = record { good = g; unsent = refl };
    answers = accepted refl refl e;
  }
  finish_connect-Ends c t0 (suc k) ack g e =
      rw not_zero
        (record { kept = record { good = g; unsent = refl }; answers = refused k refl refl e })
    where
      not_zero : (suc k != 0x00) ≡ true
      not_zero = ground arith

  skip_rest-Ends :
      (c : Conn) (t0 rlen b₀ b₁ : ℕ)
      → IsGood c
      → 2 ≤ rlen
      → Ends c (read_ack_body rlen (b₀ ∷ b₁ ∷ incoming c)) (skip_rest t c t0 rlen b₁)
  unfolding skip_rest
  skip_rest-Ends c t0 rlen b₀ b₁ g h =
      let d = drain-Drains t laws c (rlen - 2) g in
      elim (Bool-cases (ltb 2 rlen)) [
        | inr e ↦ rw e (
            finish_connect-Ends c t0 b₁ _ g
              (read_ack_body-split rlen b₀ b₁ [] (incoming c) h (ground arith)))
        | inl e ↦ elim (Bool-cases (drain t c (rlen - 2)).0) [
          | inr n ↦ rw (e, n) (stays_lost c _ _ d.kept (d.cut n))
          | inl y ↦
              let (xs, l, i) = d.taken y in
              rw (e, y)
                (Ends-after c _ _ xs _ d.kept i (
                  finish_connect-Ends _ t0 b₁ _ d.kept.good (
                    rw i
                      (read_ack_body-split rlen b₀ b₁ xs (incoming (drain t c (rlen - 2)).1) h l))))
        ]
      ]

  read_code-Ends :
      (c : Conn) (t0 rlen : ℕ)
      → IsGood c
      → 2 ≤ rlen
      → Ends c (read_ack_body rlen (incoming c)) (read_code t c t0 rlen)
  unfolding read_code
  read_code-Ends c t0 rlen g h =
      let c' = (tls_read c 2).1 in
      let k : Kept t laws c c' = record { good = read-IsGood c 2 g; unsent = read-sent c 2 g } in
      elim (Option-cases (pair (tls_read c 2).0)) [
        | inl e ↦
            rw (e, read_code)
              (stays_lost c c' _ k
                (cut_here t laws c 2 (pair-IsShort _ e (λ xs f. (read-incoming c 2 xs g f).0))))
        | inr ((b₀, b₁), e) ↦
            let f = (read-incoming c 2 (b₀ ∷ b₁ ∷ []) g (pair-received _ b₀ b₁ e)).1 in
            rw (e, read_code)
              (Ends-after c c' _ (b₀ ∷ b₁ ∷ []) _ k f
                (rw f (skip_rest-Ends c' t0 rlen b₀ b₁ k.good h)))
      ]

  read_ack_body-none : (n : ℕ) (bs : List ℕ) → n < 2 → read_ack_body n bs ≡ none
  unfolding read_ack_body
  read_ack_body-none n [] h = refl
  read_ack_body-none n (b ∷ []) h = refl
  read_ack_body-none n (b ∷ b' ∷ bs) h = ground arith

  read_length-Ends :
      (c : Conn) (t0 : ℕ)
      → IsGood c
      → Ends c
          (decode_either (incoming c) >>= λ (n, rest). read_ack_body n rest)
          (read_length t c t0)
  unfolding read_length
  read_length-Ends c t0 g =
      let c' = (recv_remlen t c).1 in
      let rlen = (recv_remlen t c).0 in
      let k = (recv_remlen_lem t laws c g).0 in
      elim (recv_remlen-either t laws c g) [
        | inl (bad, cut) ↦
            let e : (rlen == remlen_error || ltb rlen 2) ≡ true = ground (arith, bad) in
            rw e (stays_lost c c' _ k cut)
        | inr i ↦ elim (Bool-cases (rlen == remlen_error || ltb rlen 2)) [
          | inl e ↦
              let low : rlen < 2 =
                ground (arith, e, decode_either-lt (incoming c) rlen (incoming c') i) in
              rw (e, i) (stays_malformed c c' _ k (read_ack_body-none rlen (incoming c') low))
          | inr e ↦
              let (xs, f) = decode_either-Suffix (incoming c) rlen (incoming c') i in
              rw (e, i)
                (Ends-after c c' _ xs _ k f (read_code-Ends c' t0 rlen k.good (ground arith)))
        ]
      ]

  read_connack-Ends :
      (c : Conn) (t0 : ℕ)
      → IsGood c
      → Ends c (read_ack_by decode_either (incoming c)) (read_connack t c t0)
  unfolding read_connack read_ack_by
  read_connack-Ends c t0 g =
      let c' = (recv_byte t c).1 in
      let k = recv_byte-Kept t laws c g in
      elim (Option-cases (recv_byte t c).0) [
        | inl e ↦ rw (e, read_connack) (stays_lost c c' _ k (recv_byte-Cut t laws c g e))
        | inr (b, e) ↦
            let f = recv_byte-incoming t laws c b g e in
            rw (e, read_connack)
              (elim (Bool-cases (b == 0x20)) [
                | inl y ↦
                    rw (!=_of_eq b 0x20 y)
                      (Ends-after c c' _ (b ∷ []) _ k f (rw (f, y) (read_length-Ends c' t0 k.good)))
                | inr n ↦ rw (!=_of_ne b 0x20 n) (stays_malformed c c' _ k (rw (f, n) refl))
              ])
      ]

  -- The CONNECT packet of `mqtt_connect_internal` is either not built, and nothing is sent, where it
  -- takes more than 251 bytes after its fixed header; or not sent as a whole, where a write fails or takes
  -- nothing; or sent, and then the outcome is what a reader of the MQTT 3.1.1 format
  -- makes of the broker's answer, where the reader also takes a length of four marked bytes, which
  -- the format forbids, for the number of its groups. The outcome is success on a CONNACK with return
  -- code 0 and on nothing else; a positive error code for the CONNACK that carries that code; and the
  -- packet error only for an answer that the reader refuses, or where a read gave less than it was
  -- asked for. After an answer that was understood the stream stands just behind the CONNACK.
  -- The lengths of the identifier and the will fit 16 bits, and so does the keep-alive.
  pub mqtt_connect_internal_lem :
      (c : Conn) (a : ConnectArgs)
      → IsGood c
      → FitsU16 a
      → let (o, c') = mqtt_connect_internal t c a in
        ((251 < connect_size (connect_fields a)) × (o ≡ fail err_mqtt_packet) × (c' ≡ c))
        ⊎ ((o ≡ fail err_mqtt_send) × Refused t laws c' × IsGood c')
        ⊎ ((pkt : List ℕ) × (sent c' ≡ sent c ++ pkt)
            × (read_connect pkt ≡ some (connect_fields a))
            × Answers (read_ack_by decode_either (incoming c)) (incoming c') (Cut t laws c c') o
            × IsGood c')
  unfolding mqtt_connect_internal
  mqtt_connect_internal_lem c a g f = elim (Option-cases (connect_packet a)) [
    | inl e ↦
        inl
          (connect_packet-none a f e, rw (e, mqtt_connect_internal), rw (e, mqtt_connect_internal))
    | inr (pkt, e) ↦
        let s = send_all-Sends t laws c pkt g in
        let r = read_connack-Ends (send_all t c pkt).1 (time_us_64 c) s.good in
        elim (Bool-cases (send_all t c pkt).0) [
          | inr n ↦ rw (e, mqtt_connect_internal, n) (inr (inl (refl, s.stuck n, s.good)))
          | inl y ↦
              rw (e, mqtt_connect_internal, y)
                (inr (
                  inr (
                    pkt,
                    r.kept.unsent ∙ s.all_sent y,
                    read_connect-connect_packet a pkt f e,
                    rw s.unread at (Answers-after c _ _ [] _ _ (sym s.unread) r.answers),
                    r.kept.good,
                  )))
        ]
  ]
