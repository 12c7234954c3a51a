-- ===== src/Plain/Stream.antt =====
-- The plain transport implements the interface that the MQTT client uses.
use assessing_pq_mqtt_m_tls.Common.{
  ℕ, zero, ◌+◌, ◌^◌, ◌≤◌, ◌<◌, ◌≡◌, ◌⊎◌, none-ne-some, refl, sym, ap, ◌∙◌, subst, List, [], ◌∷◌,
  ◌++◌, Option, some, none, false, not, length, take, take_all, ltb, ◌==◌, ◌||◌, arith, Bool-cases,
  Option-cases, inl, inr,
}
use assessing_pq_mqtt_m_tls.Transport.{
  Transport, Laws, WriteResult, wrote, ReadResult, read_failed, received,
}
use assessing_pq_mqtt_m_tls.Plain.{
  TlsConn, is_ok, Lwip, World, wrap32, read_rounds, read_fuel, read_result, tls_read, tls_write,
  tls_close,
}
use assessing_pq_mqtt_m_tls.Plain.Delivery.{NetLaws}
use assessing_pq_mqtt_m_tls.Plain.Reading.{
  HasRoom, unread, Reads, read_rounds-Reads, read_rounds_total, Stopped, nothing_read,
}

abbrev pub plain_transport : Lwip → Transport
plain_transport lwip = record {
  Conn = World lwip;
  tls_write = tls_write lwip;
  tls_read = tls_read lwip;
  tls_close = tls_close lwip;
  time_us_64 = λ w. lwip.time_us w.net;
}

module _ (lwip : Lwip) (laws : NetLaws lwip) where
  -- A connection with a valid ring that has room for what is to come; a closed one is good too.
  abbrev pub IsOpen : Option TlsConn → lwip.Net → Type 0
  IsOpen none net = zero ≡ zero
  IsOpen (some c) net = HasRoom lwip laws c net

  abbrev pub incoming_bytes : Option TlsConn → lwip.Net → List ℕ
  incoming_bytes none net = laws.pending net
  incoming_bytes (some c) net = unread lwip laws c net

  -- A write's result and what it leaves, against the law of the interface.
  pub record Writes (w : World lwip) (buf : List ℕ) (r : WriteResult × World lwip) : Type 0 where
    pub open_after : IsOpen r.1.conn r.1.net
    pub unread_same : incoming_bytes r.1.conn r.1.net ≡ incoming_bytes w.conn w.net
    pub taken :
        (n : ℕ)
        → r.0 ≡ wrote n
        → (n ≤ length buf) × (laws.sent r.1.net ≡ laws.sent w.net ++ take n buf)

  -- A write leaves the bytes that are still to be read, and when it reports n bytes, TCP has taken
  -- the first n bytes of the buffer, and nothing else.
  pub tls_write-Writes :
      (conn : Option TlsConn) (net : lwip.Net) (buf : List ℕ)
      → IsOpen conn net
      → Writes
          (record { conn = conn; net = net })
          buf
          (tls_write lwip (record { conn = conn; net = net }) buf)
  unfolding tls_write
  tls_write-Writes none net buf h = record {
    open_after = h;
    unread_same = refl;
    taken = λ n e. absurd (ground arith);
  }
  tls_write-Writes (some c) net buf h =
      let same = laws.write-pending net buf in
      elim (Bool-cases (not c.pcb || c.tcp_error || ltb 65535 (length buf))) [
        | inl k ↦
            rw k
              (record { open_after = h; unread_same = refl; taken = λ n e. absurd (ground arith) })
        | inr k ↦ elim (Bool-cases (is_ok (lwip.tcp_write net buf).0)) [
          | inl ok ↦
              rw (k, ok)
                (record {
                  open_after = record { valid = h.valid; room = rw same (h.room) };
                  unread_same = rw same refl;
                  taken = λ n e.
                      let f : length buf ≡ n = ground arith in
                      (
                        omega (arith, f),
                        laws.write-sent net buf ok
                            ∙ ap (λ (xs : List ℕ). laws.sent net ++ xs)
                                (sym (take_all n buf (omega (arith, f)))),
                      );
                })
          | inr bad ↦
              rw (k, bad)
                (record {
                  open_after = record { valid = h.valid; room = rw same (h.room) };
                  unread_same = rw same refl;
                  taken = λ n e. absurd (ground arith);
                })
        ]
      ]

  -- Why a read of `len` bytes fails: there is no connection, the length is above 65535, or there is nothing
  -- in the ring, and the connection is broken, closed by the peer, or late.
  abbrev pub Ended : Option TlsConn → ℕ → Option TlsConn → Type 0
  Ended none len after = zero ≡ zero
  Ended (some c) len none = ⊥
  Ended (some c) len (some c') = (65535 < len) ⊎ Stopped lwip laws c'

  pub record Receives (w : World lwip) (len : ℕ) (r : ReadResult × World lwip) : Type 0 where
    pub open_after : IsOpen r.1.conn r.1.net
    pub silent : laws.sent r.1.net ≡ laws.sent w.net
    pub next :
        (xs : List ℕ)
        → r.0 ≡ received xs
        → (length xs ≤ len) × (incoming_bytes w.conn w.net ≡ xs ++ incoming_bytes r.1.conn r.1.net)
    -- a read that fails takes nothing
    pub kept : r.0 ≡ read_failed → incoming_bytes r.1.conn r.1.net ≡ incoming_bytes w.conn w.net
    -- and it fails for a cause, where the 32-bit clock does not wrap meanwhile
    pub cause : lwip.ms w.net + 16001 < 2 ^ 32 → r.0 ≡ read_failed → Ended w.conn len r.1.conn

  result-Receives :
      (c : TlsConn) (net : lwip.Net) (len : ℕ) (got : List ℕ) (c' : TlsConn) (net' : lwip.Net)
      → Reads lwip laws len (record c { io_timed_out = false }) net (got, c', net')
      → (got ≡ [] → Stopped lwip laws c')
      → Receives
          (record { conn = some c; net = net })
          len
          (read_result lwip got, record { conn = some c'; net = net' })
  result-Receives c net len [] c' net' p q = record {
    open_after = p.left;
    silent = p.silent;
    next = λ xs e. absurd (ground arith);
    kept = λ _. sym p.stream;
    cause = λ _ _. inr (q refl);
  }
  result-Receives c net len (x ∷ got) c' net' p q = record {
    open_after = p.left;
    silent = p.silent;
    next = λ xs e.
        let f : x ∷ got ≡ xs = ground arith in
        subst
          (λ (ys : List ℕ).
            (length ys ≤ len) × (unread lwip laws c net ≡ ys ++ unread lwip laws c' net'))
          f (p.fits, p.stream);
    kept = λ e. absurd (ground arith);
    cause = λ _ e. absurd (ground arith);
  }

  -- Where lwIP and the network keep their laws and the ring has room for what the peer has sent, a
  -- read of at most `len` bytes gives the next bytes of the stream, with none lost, repeated or out of
  -- order; the others are still to be read, the ring has room for them, and nothing is sent. A read that
  -- fails takes nothing from the stream; and where the 32-bit clock does not wrap within 16 seconds, it
  -- fails only for a length above 65535, without a connection, or with nothing in the ring on a connection
  -- that is broken, closed by the peer, or late.
  pub tls_read-Receives :
      (conn : Option TlsConn) (net : lwip.Net) (len : ℕ)
      → IsOpen conn net
      → Receives
          (record { conn = conn; net = net })
          len
          (tls_read lwip (record { conn = conn; net = net }) len)
  unfolding tls_read
  tls_read-Receives none net len h = record {
    open_after = h;
    silent = refl;
    next = λ xs e. absurd (ground arith);
    kept = λ _. refl;
    cause = λ _ _. refl;
  }
  tls_read-Receives (some c) net len h =
      let c₀ : TlsConn = record c { io_timed_out = false } in
      let h₀ : HasRoom lwip laws c₀ net = record { valid = h.valid; room = h.room } in
      let loop =
        read_rounds lwip (read_fuel lwip) len (wrap32 (wrap32 (lwip.ms net) + 15000)) c₀ net in
      elim (Bool-cases (ltb 65535 len)) [
        | inl k ↦ rw k (record {
          open_after = h;
          silent = refl;
          next = λ xs e. absurd (ground arith);
          kept = λ _. refl;
          cause = λ _ _. inl (ground (arith, k));
        })
        | inr k ↦ elim (Bool-cases (len == 0)) [
          | inl z ↦
              rw (k, z)
                (record {
                  open_after = h₀;
                  silent = refl;
                  next = λ xs e.
                      let f : [] ≡ xs = ground arith in
                      subst
                        (λ (ys : List ℕ).
                          (length ys ≤ len)
                          × (unread lwip laws c net ≡ ys ++ unread lwip laws c net))
                        f (omega arith, refl);
                  kept = λ e. absurd (ground arith);
                  cause = λ _ e. absurd (ground arith);
                })
          | inr z ↦ elim (Option-cases loop) [
            | inl f ↦
                rw (k, z, f)
                  (record {
                    open_after = h;
                    silent = refl;
                    next = λ xs e. absurd (ground arith);
                    kept = λ _. refl;
                    cause = λ clock _.
                        absurd (
                          none-ne-some _
                            (sym f ∙ (read_rounds_total lwip laws len c₀ net clock).1));
                  })
            | inr ((got, c', net'), f) ↦
                rw (k, z, f)
                  (result-Receives c net len got c' net'
                    (read_rounds-Reads lwip laws _ _ _ _ _ _ h₀ f)
                    (nothing_read lwip laws _ len _ c₀ net _ h₀ (ground (arith, z)) f))
          ]
        ]
      ]

  -- The laws of the interface, from the two theorems above.
  pub plain_transport-Laws : Laws (plain_transport lwip)
  plain_transport-Laws = record {
    IsGood = λ w. IsOpen w.conn w.net;
    incoming = λ w. incoming_bytes w.conn w.net;
    sent = λ w. laws.sent w.net;
    write-IsGood = λ w xs h. (tls_write-Writes w.conn w.net xs h).open_after;
    write-incoming = λ w xs h. (tls_write-Writes w.conn w.net xs h).unread_same;
    write-sent = λ w xs n h e. (tls_write-Writes w.conn w.net xs h).taken n e;
    read-IsGood = λ w n h. (tls_read-Receives w.conn w.net n h).open_after;
    read-sent = λ w n h. (tls_read-Receives w.conn w.net n h).silent;
    read-incoming = λ w n xs h e. (tls_read-Receives w.conn w.net n h).next xs e;
  }
