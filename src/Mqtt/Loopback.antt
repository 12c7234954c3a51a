-- ===== src/Mqtt/Loopback.antt =====
-- A transport to run the client of mqtt_client/mqtt.c on: the peer's bytes are there from the start,
-- a write takes 100 bytes at most, and a read takes what there is.
use assessing_pq_mqtt_m_tls.Common.{
  ℕ, ◌≤◌, ◌≡◌, refl, ap, List, [], ◌∷◌, ◌++◌, arith, length, length-take, take, drop,
  take-append-drop, min,
}
use assessing_pq_mqtt_m_tls.Transport.{Transport, Laws, wrote, ReadResult, read_failed, received}

pub record Line : Type 0 where
  pub inbox : List ℕ
  pub outbox : List ℕ
  pub clock : ℕ

abbrev some_bytes : List ℕ → ReadResult
some_bytes [] = read_failed
some_bytes (x ∷ xs) = received (x ∷ xs)

abbrev pub loopback : Transport
loopback = record {
  Conn = Line;
  tls_write = λ c xs. (
    wrote (min (length xs) 100),
    record c { outbox = c.outbox ++ take (min (length xs) 100) xs },
  );
  tls_read = λ c n. (some_bytes (take n c.inbox), record c { inbox = drop n c.inbox });
  tls_close = λ c. c;
  time_us_64 = λ c. c.clock;
}

pub wrote-injective : (m n : ℕ) → wrote m ≡ wrote n → m ≡ n
wrote-injective m n e = ground arith

pub read_back :
    (n : ℕ) (inbox xs : List ℕ)
    → some_bytes (take n inbox) ≡ received xs
    → (length xs ≤ n) × (inbox ≡ xs ++ drop n inbox)
read_back n inbox xs e = (
  ground (arith, same (take n inbox) e, length-take n inbox),
  ground (arith, same (take n inbox) e, take-append-drop n inbox),
)
  where
    same : (ys : List ℕ) → some_bytes ys ≡ received xs → ys ≡ xs
    same [] p = cc
    same (y ∷ ys) p = ground arith

abbrev pub loopback_laws : Laws loopback
loopback_laws = record {
  IsGood = λ c. Unit {0};
  incoming = λ c. c.inbox;
  sent = λ c. c.outbox;
  write-IsGood = λ c xs g. tt;
  write-incoming = λ c xs g. refl;
  write-sent = λ c xs n g e. (
    ground (arith, wrote-injective _ n e),
    ap (λ k. c.outbox ++ take k xs) (wrote-injective _ n e),
  );
  read-IsGood = λ c n g. tt;
  read-sent = λ c n g. refl;
  read-incoming = λ c n xs g e. read_back n c.inbox xs e;
}
