-- ===== src/Mqtt/Stream/Receiving.antt =====
-- What `recv_remlen` and `drain` of mqtt_client/mqtt.c take from the stream.
use assessing_pq_mqtt_m_tls.Common.{
  ℕ, zero, suc, ◌+◌, ◌*◌, ◌/◌, ◌%◌, ◌^◌, ◌≤◌, ◌<◌, ◌≡◌, refl, sym, ap, ◌∙◌, ◌⊎◌, inl, inr, List, [],
  ◌∷◌, ◌++◌, Bool, true, false, none, some, ◌≢◌, arith, length, length-append, ◌-◌, if◌then◌else◌,
  append_assoc, bit_and-0x7f, bit_and-0x80, bit_or-shifted, bit_and, Option-cases, Bool-cases, ◌!=◌,
  ltb, lt→ltb, ◌==◌,
}
use native.Mathlib.Nat.{suc-sub-suc, sub-zero}
use assessing_pq_mqtt_m_tls.Transport.{Transport, Laws, ReadResult, read_failed, received}
use assessing_pq_mqtt_m_tls.Mqtt.RemLen.{
  decode_groups, decode_remlen, overlong_groups, decode_overlong, decode_either,
}
use assessing_pq_mqtt_m_tls.Mqtt.Stream.{
  single, recv_byte, remlen_error, add_group, recv_rounds, recv_remlen, drain_from, drain,
}

single-received : (r : ReadResult) (b : ℕ) → single r ≡ some b → r ≡ received (b ∷ [])
single-received (received (x ∷ [])) b e = ground arith
single-received (received (x ∷ x' ∷ xs)) b e = cc
single-received (received []) b e = cc
single-received read_failed b e = cc

-- Fewer bytes than were asked for.
abbrev pub IsShort : ℕ → ReadResult → Type 0
IsShort n read_failed = Unit {0}
IsShort n (received xs) = length xs < n

single-IsShort :
    (r : ReadResult)
    → single r ≡ none
    → ((xs : List ℕ) → r ≡ received xs → length xs ≤ 1)
    → IsShort 1 r
single-IsShort (received (x ∷ [])) e h = cc
single-IsShort (received (x ∷ x' ∷ xs)) e h = omega (arith, h (x ∷ x' ∷ xs) refl)
single-IsShort (received []) e h = omega arith
single-IsShort read_failed e h = tt

ReadResult-cases :
    (r : ReadResult)
    → ((r ≡ read_failed) ⊎ (r ≡ received [])) ⊎ ((x : ℕ) × (ys : List ℕ) × (r ≡ received (x ∷ ys)))
ReadResult-cases read_failed = inl (inl refl)
ReadResult-cases (received []) = inl (inr refl)
ReadResult-cases (received (x ∷ ys)) = inr (x, ys, refl)

-- One group, where its bits fit 32 bits and lie above those of `val`.
add_group_lem :
    (val b s : ℕ) → val < 2 ^ s → 128 * 2 ^ s ≤ 2 ^ 28 → add_group val b s ≡ val + b % 128 * 2 ^ s
add_group_lem val b s h k =
    rw (bit_and-0x7f b) (ground (arith, bit_or-shifted s val (b % 128), small (2 ^ s) k))
  where
    small : (p : ℕ) → 128 * p ≤ 2 ^ 28 → b % 128 * p % 2 ^ 32 ≡ b % 128 * p
    small p q = grind arith

mul_below : (x p : ℕ) → x ≤ 127 → x * p ≤ 127 * p
mul_below x p h = grind arith

room : (b p val : ℕ) → val < p → val + b % 128 * p < 128 * p
room b p val h = omega (arith, mul_below (b % 128) p (omega arith))

module _ (t : Transport) (laws : Laws t) where
  open t use {Conn, tls_read}
  open laws use {IsGood, incoming, sent, read-IsGood, read-sent, read-incoming}

  -- The good connections that have sent as much as `c` had.
  pub record Kept (c c' : Conn) : Type 0 where
    pub good : IsGood c'
    pub unsent : sent c' ≡ sent c

  pub Kept-trans : {a b c : Conn} → Kept a b → Kept b c → Kept a c
  Kept-trans k l = record { good = l.good; unsent = l.unsent ∙ k.unsent }

  pub recv_byte-Kept : (c : Conn) → IsGood c → Kept c (recv_byte t c).1
  unfolding recv_byte
  recv_byte-Kept c g = record { good = read-IsGood c 1 g; unsent = read-sent c 1 g }

  pub recv_byte-incoming :
      (c : Conn) (b : ℕ)
      → IsGood c
      → (recv_byte t c).0 ≡ some b
      → incoming c ≡ b ∷ incoming (recv_byte t c).1
  unfolding recv_byte
  recv_byte-incoming c b g e =
      (read-incoming c 1 (b ∷ []) g (single-received (tls_read c 1).0 b e)).1

  -- The connection `c'` is left by a read that gave less than it was asked for, after `c` has given
  -- the bytes `before`.
  pub record Cut (c c' : Conn) : Type 0 where
    pub place : Conn
    pub asked : ℕ
    pub before : List ℕ
    pub stream : incoming c ≡ before ++ incoming place
    pub short : IsShort asked (tls_read place asked).0
    pub left : c' ≡ (tls_read place asked).1

  abbrev pub cut_here : (c : Conn) (n : ℕ) → IsShort n (tls_read c n).0 → Cut c (tls_read c n).1
  cut_here c n h = record {
    place = c;
    asked = n;
    before = [];
    stream = refl;
    short = h;
    left = refl;
  }

  pub Cut-after : (c b d : Conn) (xs : List ℕ) → incoming c ≡ xs ++ incoming b → Cut b d → Cut c d
  Cut-after c b d xs f k = record {
    place = k.place;
    asked = k.asked;
    before = xs ++ k.before;
    stream =
        f
        ∙ ap (λ (ys : List ℕ). xs ++ ys) k.stream
        ∙ sym (append_assoc xs k.before (incoming k.place));
    short = k.short;
    left = k.left;
  }

  pub recv_byte-Cut : (c : Conn) → IsGood c → (recv_byte t c).0 ≡ none → Cut c (recv_byte t c).1
  unfolding recv_byte
  recv_byte-Cut c g e =
      cut_here c 1 (single-IsShort (tls_read c 1).0 e (λ xs f. (read-incoming c 1 xs g f).0))

  -- A result of `recv_rounds` is the error, where a read was cut short, or `val` with the groups that
  -- the format reads, or those that it forbids.
  Reads : ℕ → ℕ → Conn → ℕ → ℕ × Conn → Type 0
  Reads more s c val (v, c') =
      Kept c c'
      × (((v ≡ remlen_error) × Cut c c')
          ⊎ ((w : ℕ) × (decode_groups more (incoming c) ≡ some (w, incoming c'))
              × (v ≡ val + w * 2 ^ s))
          ⊎ ((w : ℕ) × (decode_groups more (incoming c) ≡ none)
              × (overlong_groups more (incoming c) ≡ some (w, incoming c'))
              × (v ≡ val + w * 2 ^ s)))

  Rounds : ℕ → ℕ → Type 0
  Rounds more s =
      (c : Conn) (val : ℕ)
      → IsGood c
      → val < 2 ^ s
      → Reads more s c val (recv_rounds t more c val s)

  last_round : Rounds 0 21
  unfolding Rounds Reads recv_rounds decode_groups overlong_groups
  last_round c val g h = elim (Option-cases (recv_byte t c).0) [
    | inl e ↦ rw (e, recv_rounds) (recv_byte-Kept c g, inl (refl, recv_byte-Cut c g e))
    | inr (b, e) ↦
        let f = recv_byte-incoming c b g e in
        let ag = add_group_lem val b 21 h (omega arith) in
        rw (e, recv_rounds)
          (
            recv_byte-Kept c g,
            inr (elim (Bool-cases (b / 128 % 2 == 0)) [
              | inl last ↦ inl (b % 128, ground (arith, f, last), ag)
              | inr marked ↦ inr (b % 128, ground (arith, f, marked), ground (arith, f, marked), ag)
            ]),
          )
  ]

  -- One round's byte before what the later rounds read.
  join_groups :
      (more s : ℕ) (c c' : Conn) (b val : ℕ) (out : ℕ × Conn)
      → 2 ^ (s + 7) ≡ 128 * 2 ^ s
      → b / 128 % 2 ≢ 0
      → incoming c ≡ b ∷ incoming c'
      → Kept c c'
      → Reads more (s + 7) c' (val + b % 128 * 2 ^ s) out
      → Reads (suc more) s c val out
  unfolding Reads decode_groups overlong_groups
  join_groups more s c c' b val out scale marked f k (k', inl (e, cut)) =
      (Kept-trans k k', inl (e, Cut-after c c' out.1 (b ∷ []) f cut))
  join_groups more s c c' b val out scale marked f k (k', inr (inl (w, d, e))) = (
    Kept-trans k k',
    inr (
        inl
          (b % 128 + 128 * w, ground (arith, f, d), omega (arith, e, ap (λ (p : ℕ). w * p) scale))),
  )
  join_groups more s c c' b val out scale marked f k (k', inr (inr (w, n, d, e))) = (
    Kept-trans k k',
    inr (
        inr (
          b % 128 + 128 * w,
          ground (arith, f, n),
          ground (arith, f, d),
          omega (arith, e, ap (λ (p : ℕ). w * p) scale),
        )),
  )

  next_round :
      (more s : ℕ)
      → 128 * 2 ^ s ≤ 2 ^ 28
      → s + 7 < 28
      → 2 ^ (s + 7) ≡ 128 * 2 ^ s
      → Rounds more (s + 7)
      → Rounds (suc more) s
  unfolding Rounds recv_rounds
  next_round more s fits low scale ih c val g h = elim (Option-cases (recv_byte t c).0) [
    | inl e ↦
        rw (e, recv_rounds) (unfold Reads in (recv_byte-Kept c g, inl (refl, recv_byte-Cut c g e)))
    | inr (b, e) ↦
        let ag = add_group_lem val b s h fits in
        let k = recv_byte-Kept c g in
        let f = recv_byte-incoming c b g e in
        elim (Bool-cases (bit_and b 0x80 != 0)) [
          | inl m ↦
              rw (e, recv_rounds, m, lt→ltb (s + 7) 28 low, ag)
                (join_groups more s c (recv_byte t c).1 b val _ scale
                  (ground (arith, bit_and-0x80 b)) f k
                  (ih (recv_byte t c).1 (val + b % 128 * 2 ^ s) k.good
                    (rw scale (room b (2 ^ s) val h))))
          | inr m ↦
              rw (e, recv_rounds, m, ag)
                (unfold Reads decode_groups in
                  (k, inr (inl (b % 128, ground (arith, f, bit_and-0x80 b), refl))))
        ]
  ]

  -- `recv_remlen` sends nothing and leaves the connection in a good state. It returns `(uint32_t)-1`,
  -- and that only where a read gave less than it was asked for; or the value that the format gives the
  -- next bytes of the stream, and takes those bytes alone; or, where the next bytes are four marked
  -- groups, which the format forbids, the number that these would stand for.
  pub recv_remlen_lem :
      (c : Conn)
      → IsGood c
      → let (v, c') = recv_remlen t c in
        Kept c c'
        × (((v ≡ remlen_error) × Cut c c')
            ⊎ (decode_remlen (incoming c) ≡ some (v, incoming c'))
            ⊎ ((decode_remlen (incoming c) ≡ none)
                × (decode_overlong (incoming c) ≡ some (v, incoming c'))))
  unfolding recv_remlen Rounds Reads decode_remlen decode_overlong
  recv_remlen_lem c g = finish (recv_remlen t c) (rounds c 0 g (omega arith))
    where
      rounds : Rounds 3 0
      rounds = next_round 2 0 (omega arith) (omega arith) refl (
          next_round 1 7 (omega arith) (omega arith) refl
            (next_round 0 14 (omega arith) (omega arith) refl last_round))

      finish :
          (out : ℕ × Conn)
          → Reads 3 0 c 0 out
          → Kept c out.1
            × (((out.0 ≡ remlen_error) × Cut c out.1)
                ⊎ (decode_remlen (incoming c) ≡ some (out.0, incoming out.1))
                ⊎ ((decode_remlen (incoming c) ≡ none)
                    × (decode_overlong (incoming c) ≡ some (out.0, incoming out.1))))
      finish (v, c') (k, inl e) = (k, inl e)
      finish (v, c') (k, inr (inl (w, d, e))) = (k, inr (inl (ground (arith, d, e))))
      finish (v, c') (k, inr (inr (w, n, d, e))) = (k, inr (inr (n, ground (arith, d, e))))

  -- As `decode_either` sees it.
  pub recv_remlen-either :
      (c : Conn)
      → IsGood c
      → let (v, c') = recv_remlen t c in
        ((v ≡ remlen_error) × Cut c c') ⊎ (decode_either (incoming c) ≡ some (v, incoming c'))
  unfolding decode_either
  recv_remlen-either c g = elim (recv_remlen_lem c g).1 [
    | inl e ↦ inl e
    | inr (inl d) ↦ inr (rw (d, decode_either))
    | inr (inr (n, d)) ↦ inr (rw (n, decode_either) d)
  ]

  -- What a call of `drain` keeps, and the bytes that it has taken when it succeeds.
  pub record Drains (c : Conn) (n : ℕ) (out : Bool × Conn) : Type 0 where
    pub kept : Kept c out.1
    pub cut : out.0 ≡ false → Cut c out.1
    pub taken : out.0 ≡ true → (xs : List ℕ) × (length xs ≡ n) × (incoming c ≡ xs ++ incoming out.1)

  abbrev chunk : ℕ → ℕ
  chunk n = if ltb (suc n) 32 then suc n else 32

  drain_from-Drains :
      (c : Conn) (ahead n : ℕ)
      → IsGood c
      → ahead ≤ n
      → Drains c (n - ahead) (drain_from t c ahead n)
  unfolding drain_from
  drain_from-Drains c ahead zero g h = record {
    kept = record { good = g; unsent = refl };
    cut = λ p. cc;
    taken = λ _. ([], omega arith, refl);
  }
  drain_from-Drains c (suc ahead) (suc n) g h =
      rw suc-sub-suc (drain_from-Drains c ahead n g (omega arith))
  drain_from-Drains c zero (suc n) g h =
      let k : Kept c (tls_read c (chunk n)).1 = record {
        good = read-IsGood c (chunk n) g;
        unsent = read-sent c (chunk n) g;
      } in
      elim (ReadResult-cases (tls_read c (chunk n)).0) [
        | inl (inl e) ↦
            rw (e, drain_from)
              (record { kept = k; cut = λ _. cut_here c (chunk n) (rw e tt); taken = λ p. cc })
        | inl (inr e) ↦
            rw (e, drain_from)
              (record {
                kept = k;
                cut = λ _. cut_here c (chunk n) (rw e (ground arith));
                taken = λ p. cc;
              })
        | inr (x, ys, e) ↦
            let (le, f) = read-incoming c (chunk n) (x ∷ ys) g e in
            let ih =
              drain_from-Drains (tls_read c (chunk n)).1 (length ys) n k.good
                (ground (arith, le)) in
            rw (e, drain_from)
              (record {
                kept = Kept-trans k ih.kept;
                cut = λ p. Cut-after c _ _ (x ∷ ys) f (ih.cut p);
                taken = λ p.
                    let (xs, l, i) = ih.taken p in
                    (
                      x ∷ (ys ++ xs),
                      ground (arith, l, le, length-append ys xs),
                      f
                          ∙ ap (λ (zs : List ℕ). x ∷ zs)
                              (ap (λ (zs : List ℕ). ys ++ zs) i ∙ sym (append_assoc ys xs _)),
                    );
              })
      ]

  -- `drain` sends nothing and leaves the connection in a good state; if it returns true, it has
  -- taken exactly n bytes of the stream, and if false, a read gave less than it was asked for.
  pub drain-Drains : (c : Conn) (n : ℕ) → IsGood c → Drains c n (drain t c n)
  unfolding drain
  drain-Drains c n g = rw sub-zero at (drain_from-Drains c 0 n g (omega arith))
