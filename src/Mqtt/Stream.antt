-- ===== src/Mqtt/Stream.antt =====
-- The byte-level helpers of mqtt_client/mqtt.c over the transport: `send_all`, `recv_byte`,
-- `recv_remlen`, `drain`. Each returns its result and the connection afterwards.
pub mod Sending
pub mod Receiving
use assessing_pq_mqtt_m_tls.Common.{
  ℕ, zero, suc, ◌+◌, ◌-◌, ◌*◌, ◌^◌, ◌%◌, List, [], ◌∷◌, Option, none, some, Bool, true, false,
  length, ltb, ◌==◌, ◌!=◌, ◌&&◌, bit_and, bit_or, min, if◌then◌else◌,
}
use assessing_pq_mqtt_m_tls.Transport.{
  Transport, WriteResult, write_failed, wrote, ReadResult, read_failed, received,
}

-- `tls_read(conn, out, 1) == 1`
abbrev pub single : ReadResult → Option ℕ
single (received (b ∷ [])) = some b
single (received (b ∷ b' ∷ bs)) = none
single (received []) = none
single read_failed = none

-- `(uint32_t)-1`
abbrev pub remlen_error : ℕ
remlen_error = 2 ^ 32 - 1

-- `val |= (uint32_t)(b & 0x7F) << shift`
abbrev pub add_group : ℕ → ℕ → ℕ → ℕ
add_group val b shift = bit_or val (bit_and b 0x7F * 2 ^ shift % 2 ^ 32)

module _ (t : Transport) where
  open t use {Conn, tls_write, tls_read}

  -- The loop of `send_all`, over the bytes from `buf + sent - ahead` on. A byte that the last
  -- write took (there are `ahead` of them) is passed over; at the first other one `tls_write` is
  -- called on the rest, and a result n <= 0 ends the loop.
  unfoldable pub send_from : Conn → ℕ → List ℕ → Bool × Conn
  send_from c ahead [] = (true, c)
  send_from c (suc ahead) (x ∷ xs) = send_from c ahead xs
  send_from c zero (x ∷ xs) =
      let (r, c') = tls_write c (x ∷ xs) in
      elim r [
        | write_failed ↦ (false, c')
        | wrote n ↦ elim n [ zero ↦ (false, c') | suc m ↦ send_from c' m xs ]
      ]

  unfoldable pub send_all : Conn → List ℕ → Bool × Conn
  send_all c buf = send_from c 0 buf

  unfoldable pub recv_byte : Conn → Option ℕ × Conn
  recv_byte c = let (r, c') = tls_read c 1 in (single r, c')

  -- The rounds of the loop, `more` of them at most after this one. A round that is not the last
  -- has shift < 21, so the condition `shift < 28` is tested at every round that has another one.
  unfoldable pub recv_rounds : ℕ → Conn → ℕ → ℕ → ℕ × Conn
  recv_rounds zero c val shift =
      let (o, c') = recv_byte c in
      elim o [ none ↦ (remlen_error, c') | some b ↦ (add_group val b shift, c') ]
  recv_rounds (suc more) c val shift =
      let (o, c') = recv_byte c in
      elim o [
        | none ↦ (remlen_error, c')
        | some b ↦
            let rest = recv_rounds more c' (add_group val b shift) (shift + 7) in
            if bit_and b 0x80 != 0 && ltb (shift + 7) 28 then rest else (add_group val b shift, c')
      ]

  unfoldable pub recv_remlen : Conn → ℕ × Conn
  recv_remlen c = recv_rounds 3 c 0 0

  -- The loop of `drain`, with n bytes to go of which the last read took `ahead`.
  unfoldable pub drain_from : Conn → ℕ → ℕ → Bool × Conn
  drain_from c ahead zero = (true, c)
  drain_from c (suc ahead) (suc n) = drain_from c ahead n
  drain_from c zero (suc n) =
      let (r, c') = tls_read c (if ltb (suc n) 32 then suc n else 32) in
      elim r [
        | read_failed ↦ (false, c')
        | received bs ↦ elim bs [ [] ↦ (false, c') | x ∷ xs ↦ drain_from c' (length xs) n ]
      ]

  unfoldable pub drain : Conn → ℕ → Bool × Conn
  drain c n = drain_from c 0 n
