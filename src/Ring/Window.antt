-- ===== src/Ring/Window.antt =====
-- The bytes that lie in a ring's array from an index on, round the end, and the ring's invariant.
use assessing_pq_mqtt_m_tls.Common.{
  ℕ, zero, suc, ◌+◌, ◌-◌, ◌%◌, ◌≤◌, ◌<◌, ◌≡◌, refl, ap, ap₂, ◌∙◌, List, [], ◌∷◌, ◌++◌, arith,
  length, get_or, set, get_or-set_ne,
}
use assessing_pq_mqtt_m_tls.Ring.{RxRing, rx_buf_cap}

abbrev pub window : List ℕ → ℕ → ℕ → List ℕ
window bytes t zero = []
window bytes t (suc n) = get_or bytes t 0 ∷ window bytes ((t + 1) % rx_buf_cap) n

-- The bytes that are waiting, the oldest first.
abbrev pub contents : RxRing → List ℕ
contents r = window r.bytes r.tail r.avail

pub record IsValid (r : RxRing) : Type 0 where
  pub whole : length r.bytes ≡ rx_buf_cap
  pub tail_in : r.tail < rx_buf_cap
  pub avail_in : r.avail ≤ rx_buf_cap
  pub head_at : r.head ≡ (r.tail + r.avail) % rx_buf_cap

pub length-window : (bytes : List ℕ) (t n : ℕ) → length (window bytes t n) ≡ n
length-window bytes t zero = refl
length-window bytes t (suc n) = ap suc (length-window bytes ((t + 1) % rx_buf_cap) n)

-- The last byte of a window, split off.
pub window_snoc :
    (bytes : List ℕ) (t n : ℕ)
    → t < rx_buf_cap
    → window bytes t (suc n) ≡ window bytes t n ++ (get_or bytes ((n + t) % rx_buf_cap) 0 ∷ [])
window_snoc bytes t zero h = ap (λ (k : ℕ). get_or bytes k 0 ∷ []) (omega arith)
window_snoc bytes t (suc n) h =
    let next : (n + (t + 1) % rx_buf_cap) % rx_buf_cap ≡ (suc n + t) % rx_buf_cap = omega arith in
    ap (λ (ys : List ℕ). get_or bytes t 0 ∷ ys)
      (window_snoc bytes ((t + 1) % rx_buf_cap) n (omega arith)
        ∙ ap (λ (k : ℕ). window bytes ((t + 1) % rx_buf_cap) n ++ (get_or bytes k 0 ∷ [])) next)

-- A write behind a window does not show in it.
pub window-set :
    (bytes : List ℕ) (x t n m : ℕ)
    → t < rx_buf_cap
    → n ≤ m
    → m < rx_buf_cap
    → window (set bytes ((t + m) % rx_buf_cap) x) t n ≡ window bytes t n
window-set bytes x t zero m ht hn hm = refl
window-set bytes x t (suc n) m ht hn hm =
    let same : (t + m) % rx_buf_cap ≡ ((t + 1) % rx_buf_cap + (m - 1)) % rx_buf_cap = omega arith in
    ap₂ ◌∷◌ (get_or-set_ne bytes ((t + m) % rx_buf_cap) t x 0 (omega arith)) (
      ap (λ (k : ℕ). window (set bytes k x) ((t + 1) % rx_buf_cap) n) same
      ∙ window-set bytes x ((t + 1) % rx_buf_cap) n (m - 1) (omega arith) (omega arith)
          (omega arith))
