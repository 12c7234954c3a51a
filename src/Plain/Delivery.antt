-- ===== src/Plain/Delivery.antt =====
-- What lwIP and the network promise, and the callbacks as a stream of bytes into the receive ring.
use assessing_pq_mqtt_m_tls.Common.{
  ℕ, ◌+◌, ◌-◌, ◌≤◌, ◌<◌, ◌≡◌, sym, ap, ◌∙◌, List, [], ◌∷◌, ◌++◌, some, none, true, length, take_all,
  arith, length-append, append_assoc, append-nil, Bool-cases, inl, inr,
}
use assessing_pq_mqtt_m_tls.Ring.{RxRing, rx_buf_cap, rx_push}
use assessing_pq_mqtt_m_tls.Ring.Window.{IsValid, contents, length-window}
use assessing_pq_mqtt_m_tls.Ring.Bytes.{rx_push_lem}
use assessing_pq_mqtt_m_tls.Plain.{
  is_ok, TlsConn, Event, connected, arrived, broken, on_connected, push_chain, joined, on_recv,
  on_err, handle, handle_all, delivered, delivered_all, Lwip,
}

-- `pending` is what the peer has sent and no callback has brought yet, `sent` what TCP has taken from
-- the program. Time goes on while the code sleeps, by at most a second for one millisecond asked for.
pub record NetLaws (lwip : Lwip) : Type 0 where
  pub pending : lwip.Net → List ℕ
  pub sent : lwip.Net → List ℕ
  pub sleep-pending :
      (n : lwip.Net) → pending n ≡ delivered_all (lwip.sleep_ms n).0 ++ pending (lwip.sleep_ms n).1
  pub sleep-sent : (n : lwip.Net) → sent (lwip.sleep_ms n).1 ≡ sent n
  pub sleep_later : (n : lwip.Net) → lwip.ms n < lwip.ms (lwip.sleep_ms n).1
  pub sleep_soon : (n : lwip.Net) → lwip.ms (lwip.sleep_ms n).1 ≤ lwip.ms n + 1000
  pub write-pending : (n : lwip.Net) (xs : List ℕ) → pending (lwip.tcp_write n xs).1 ≡ pending n
  pub write-sent :
      (n : lwip.Net) (xs : List ℕ)
      → is_ok (lwip.tcp_write n xs).0 ≡ true
      → sent (lwip.tcp_write n xs).1 ≡ sent n ++ xs

-- A ring after bytes that it had room for.
pub record Took (r r' : RxRing) (xs : List ℕ) : Type 0 where
  pub valid : IsValid r'
  pub holds : contents r' ≡ contents r ++ xs

rx_push-Took :
    (r : RxRing) (xs : List ℕ)
    → IsValid r
    → length (contents r) + length xs ≤ rx_buf_cap
    → Took r (rx_push r xs) xs
rx_push-Took r xs v h =
    let (w, e) = rx_push_lem r xs v in
    record {
      valid = w;
      holds =
          e
          ∙ ap (λ (ys : List ℕ). contents r ++ ys)
              (take_all (rx_buf_cap - r.avail) xs
                (omega (arith, length-window r.bytes r.tail r.avail)));
    }

Took-trans :
    (r r' r'' : RxRing) (xs ys : List ℕ) → Took r r' xs → Took r' r'' ys → Took r r'' (xs ++ ys)
Took-trans r r' r'' xs ys t u = record {
  valid = u.valid;
  holds = u.holds ∙ ap (λ (zs : List ℕ). zs ++ ys) t.holds ∙ append_assoc (contents r) xs ys;
}

nothing-Took : (r : RxRing) → IsValid r → Took r r []
nothing-Took r v = record { valid = v; holds = sym (append-nil (contents r)) }

push_chain-Took :
    (r : RxRing) (chain : List (List ℕ))
    → IsValid r
    → length (contents r) + length (joined chain) ≤ rx_buf_cap
    → Took r (push_chain r chain) (joined chain)
unfolding push_chain joined
push_chain-Took r [] v h = nothing-Took r v
push_chain-Took r (payload ∷ chain) v h =
    let t = rx_push-Took r payload v (omega (arith, length-append payload (joined chain))) in
    Took-trans r (rx_push r payload) _ payload (joined chain) t (
      push_chain-Took (rx_push r payload) chain t.valid (
        omega (
          arith,
          length-append payload (joined chain),
          ap length t.holds,
          length-append (contents r) payload,
        )))

handle-Took :
    (e : Event) (c : TlsConn)
    → IsValid c.rx
    → length (contents c.rx) + length (delivered e) ≤ rx_buf_cap
    → Took c.rx (handle e c).rx (delivered e)
unfolding handle delivered on_connected on_recv on_err
handle-Took (connected err) c v h = elim (Bool-cases (is_ok err)) [
  | inl k ↦ rw k (nothing-Took c.rx v)
  | inr k ↦ rw k (nothing-Took c.rx v)
]
handle-Took (arrived none err) c v h = nothing-Took c.rx v
handle-Took (arrived (some chain) err) c v h = elim (Bool-cases (is_ok err)) [
  | inl k ↦ rw k (push_chain-Took c.rx chain v (rw k at h))
  | inr k ↦ rw k (nothing-Took c.rx v)
]
handle-Took (broken err) c v h = nothing-Took c.rx v

-- Where the ring has room for what the callbacks bring, it has all of it afterwards, in order.
pub handle_all-Took :
    (events : List Event) (c : TlsConn)
    → IsValid c.rx
    → length (contents c.rx) + length (delivered_all events) ≤ rx_buf_cap
    → Took c.rx (handle_all events c).rx (delivered_all events)
unfolding handle_all delivered_all
handle_all-Took [] c v h = nothing-Took c.rx v
handle_all-Took (e ∷ events) c v h =
    let t = handle-Took e c v (omega (arith, length-append (delivered e) (delivered_all events))) in
    Took-trans c.rx (handle e c).rx _ (delivered e) (delivered_all events) t (
      handle_all-Took events (handle e c) t.valid (
        omega (
          arith,
          length-append (delivered e) (delivered_all events),
          ap length t.holds,
          length-append (contents c.rx) (delivered e),
        )))
