-- ===== src/Ring.antt =====
-- The receive ring of mqtt_client/plain_transport.c (`rx_ring_t`, `rx_push`, `rx_pop`);
-- mqtt_client/tls_transport.c has the same code.
pub mod Window
pub mod Bytes
mod Tests
use assessing_pq_mqtt_m_tls.Common.{
  ℕ, zero, suc, ◌+◌, ◌-◌, ◌%◌, ◌^◌, List, [], ◌∷◌, get_or, set, replicate, ltb, if◌then◌else◌,
}

-- RX_BUF_CAP
abbrev pub rx_buf_cap : ℕ
rx_buf_cap = 16384

-- `data` is a keyword of the model's language.
pub record RxRing : Type 0 where
  pub bytes : List ℕ
  pub head : ℕ
  pub tail : ℕ
  pub avail : ℕ

-- What `calloc` gives.
unfoldable pub empty_ring : RxRing
empty_ring = record { bytes = replicate rx_buf_cap 0; head = 0; tail = 0; avail = 0 }

-- The body of the loop of `rx_push`: `avail` is a `uint16_t`.
abbrev pub put : RxRing → ℕ → RxRing
put r x = record r {
  bytes = set r.bytes r.head x;
  head = (r.head + 1) % rx_buf_cap;
  avail = (r.avail + 1) % 2 ^ 16;
}

-- `src` holds the n bytes; the loop ends early when the ring is full.
unfoldable pub rx_push : RxRing → List ℕ → RxRing
rx_push r [] = r
rx_push r (x ∷ src) = let rest = rx_push (put r x) src in if ltb r.avail rx_buf_cap then rest else r

-- The body of the loop of `rx_pop`.
abbrev pub advance : RxRing → RxRing
advance r = record r { tail = (r.tail + 1) % rx_buf_cap; avail = (r.avail + 2 ^ 16 - 1) % 2 ^ 16 }

-- `got` rounds of the loop, and the bytes that they write to `dst`.
unfoldable pub pop_rounds : ℕ → RxRing → List ℕ × RxRing
pop_rounds zero r = ([], r)
pop_rounds (suc got) r =
    let (dst, r') = pop_rounds got (advance r) in (get_or r.bytes r.tail 0 ∷ dst, r')

-- `want` is a `uint16_t`.
unfoldable pub rx_pop : RxRing → ℕ → List ℕ × RxRing
rx_pop r want = pop_rounds (if ltb want r.avail then want else r.avail) r
