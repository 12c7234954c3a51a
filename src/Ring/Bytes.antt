-- ===== src/Ring/Bytes.antt =====
-- The receive ring as a bounded queue of bytes.
use assessing_pq_mqtt_m_tls.Common.{
  ℕ, zero, suc, ◌+◌, ◌-◌, ◌%◌, ◌^◌, ◌≤◌, ◌<◌, ◌≡◌, refl, sym, ap, ap₂, ◌∙◌, List, [], ◌∷◌, ◌++◌,
  arith, length, get_or, set, take, length-set, get_or-set_self, append_assoc, append-nil, ltb,
  if◌then◌else◌, append-full, take_all, length-append, inl, inr, Bool-cases, min, length-replicate,
  take-nil,
}
use assessing_pq_mqtt_m_tls.Ring.{
  RxRing, rx_buf_cap, empty_ring, put, rx_push, advance, pop_rounds, rx_pop,
}
use assessing_pq_mqtt_m_tls.Ring.Window.{
  IsValid, window, contents, length-window, window_snoc, window-set,
}

pub empty_ring-IsValid : IsValid empty_ring × (contents empty_ring ≡ [])
unfolding empty_ring
empty_ring-IsValid = (
  record {
    whole = length-replicate {A = ℕ} rx_buf_cap 0;
    tail_in = omega arith;
    avail_in = omega arith;
    head_at = refl;
  },
  refl,
)

put-IsValid : (r : RxRing) (x : ℕ) → IsValid r → r.avail < rx_buf_cap → IsValid (put r x)
put-IsValid r x v h = record {
  whole = length-set r.bytes r.head x ∙ v.whole;
  tail_in = v.tail_in;
  avail_in = omega arith;
  head_at = omega arith;
}

contents-put :
    (r : RxRing) (x : ℕ)
    → IsValid r
    → r.avail < rx_buf_cap
    → contents (put r x) ≡ contents r ++ (x ∷ [])
contents-put r x v h =
    ap (window (set r.bytes r.head x) r.tail) {y = suc r.avail} (omega arith)
    ∙ window_snoc (set r.bytes r.head x) r.tail r.avail v.tail_in
    ∙ ap₂ (λ (ys : List ℕ) (y : ℕ). ys ++ (y ∷ [])) unchanged written
  where
    unchanged : window (set r.bytes r.head x) r.tail r.avail ≡ window r.bytes r.tail r.avail
    unchanged =
        ap (λ (k : ℕ). window (set r.bytes k x) r.tail r.avail) v.head_at
        ∙ window-set r.bytes x r.tail r.avail r.avail v.tail_in (omega arith) h

    written : get_or (set r.bytes r.head x) ((r.avail + r.tail) % rx_buf_cap) 0 ≡ x
    written =
        ap (λ (k : ℕ). get_or (set r.bytes r.head x) k 0) {y = r.head} (omega arith)
        ∙ get_or-set_self r.bytes r.head x 0 (omega arith)

take_more : (k : ℕ) (x : ℕ) (xs : List ℕ) → 0 < k → take k (x ∷ xs) ≡ x ∷ take (k - 1) xs
take_more zero x xs h = absurd (omega arith)
take_more (suc k) x xs h = ap (λ (n : ℕ). x ∷ take n xs) (omega arith)

-- `rx_push` keeps the ring valid, and appends as many of the bytes as fit: the first ones. The
-- others are dropped.
pub rx_push_lem :
    (r : RxRing) (src : List ℕ)
    → IsValid r
    → IsValid (rx_push r src)
      × (contents (rx_push r src) ≡ contents r ++ take (rx_buf_cap - r.avail) src)
unfolding rx_push
rx_push_lem r [] v = (
  v,
  sym (ap (λ (ys : List ℕ). contents r ++ ys) (take-nil (rx_buf_cap - r.avail)) ∙ append-nil _),
)
rx_push_lem r (x ∷ src) v = elim (Bool-cases (ltb r.avail rx_buf_cap)) [
  | inl room ↦
      let h : r.avail < rx_buf_cap = ground arith in
      let ih = rx_push_lem (put r x) src (put-IsValid r x v h) in
      rw room (
        ih.0,
        ih.1
            ∙ ap (λ (ys : List ℕ). ys ++ take (rx_buf_cap - (put r x).avail) src)
                (contents-put r x v h)
            ∙ append_assoc (contents r) (x ∷ []) (take (rx_buf_cap - (put r x).avail) src)
            ∙ ap (λ (ys : List ℕ). contents r ++ ys)
                (ap (λ (k : ℕ). x ∷ take k src) {y = rx_buf_cap - r.avail - 1} (omega arith)
                  ∙ sym (take_more (rx_buf_cap - r.avail) x src (omega arith))),
      )
  | inr full ↦ rw full (
    v,
    sym (ap (λ (k : ℕ). contents r ++ take k (x ∷ src)) {y = 0} (ground arith) ∙ append-nil _),
  )
]

advance-IsValid : (r : RxRing) → IsValid r → 0 < r.avail → IsValid (advance r)
advance-IsValid r v h = record {
  whole = v.whole;
  tail_in = omega arith;
  avail_in = omega arith;
  head_at = omega arith;
}

contents-advance :
    (r : RxRing)
    → IsValid r
    → 0 < r.avail
    → contents r ≡ get_or r.bytes r.tail 0 ∷ contents (advance r)
contents-advance r v h =
    ap (window r.bytes r.tail) {y = suc ((r.avail + 2 ^ 16 - 1) % 2 ^ 16)} (omega arith)

pop_rounds_lem :
    (got : ℕ) (r : RxRing)
    → IsValid r
    → got ≤ r.avail
    → IsValid (pop_rounds got r).1
      × (length (pop_rounds got r).0 ≡ got)
      × (contents r ≡ (pop_rounds got r).0 ++ contents (pop_rounds got r).1)
unfolding pop_rounds
pop_rounds_lem zero r v h = (v, refl, refl)
pop_rounds_lem (suc got) r v h =
    let (v', l, e) =
      pop_rounds_lem got (advance r) (advance-IsValid r v (omega arith)) (omega arith) in
    (
      v',
      ap suc l,
      contents-advance r v (omega arith) ∙ ap (λ (ys : List ℕ). get_or r.bytes r.tail 0 ∷ ys) e,
    )

-- `rx_pop` keeps the ring valid and takes the oldest bytes, `want` of them or all there are; the
-- others stay, in order.
pub rx_pop_lem :
    (r : RxRing) (want : ℕ)
    → IsValid r
    → IsValid (rx_pop r want).1
      × (length (rx_pop r want).0 ≡ min want (length (contents r)))
      × (contents r ≡ (rx_pop r want).0 ++ contents (rx_pop r want).1)
unfolding rx_pop
rx_pop_lem r want v =
    let got : ℕ = if ltb want r.avail then want else r.avail in
    let (v', l, e) = pop_rounds_lem got r v (ground arith) in
    (v', l ∙ ground (arith, length-window r.bytes r.tail r.avail), e)

-- Bytes pushed into a valid ring that has room for all of them come out in order, behind those that
-- were waiting: nothing is lost, duplicated or reordered.
pub rx_pop-rx_push :
    (r : RxRing) (src : List ℕ)
    → IsValid r
    → length (contents r) + length src ≤ rx_buf_cap
    → (rx_pop (rx_push r src) (length (contents r) + length src)).0 ≡ contents r ++ src
rx_pop-rx_push r src v h =
    let (v', e) = rx_push_lem r src v in
    let total = length (contents r) + length src in
    let (w, l, f) = rx_pop_lem (rx_push r src) total v' in
    let room : length src ≤ rx_buf_cap - r.avail =
      omega (arith, length-window r.bytes r.tail r.avail) in
    let whole : contents (rx_push r src) ≡ contents r ++ src =
      e ∙ ap (λ (ys : List ℕ). contents r ++ ys) (take_all _ src room) in
    let count : length (contents (rx_push r src)) ≡ total =
      ap length whole ∙ length-append (contents r) src in
    append-full _ _ (ground (arith, l, count, ap length f)) ∙ sym f ∙ whole
