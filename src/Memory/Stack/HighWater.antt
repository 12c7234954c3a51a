-- ===== src/Memory/Stack/HighWater.antt =====
-- What the scan of the painted stack finds.
use assessing_pq_mqtt_m_tls.Common.{
  ℕ, zero, suc, ◌+◌, ◌-◌, ◌*◌, ◌%◌, ◌^◌, ◌≤◌, ◌<◌, ◌≡◌, ◌≢◌, refl, ap, ◌∙◌, true, false, ◌==◌,
  arith, if◌then◌else◌,
}
use assessing_pq_mqtt_m_tls.Memory.Stack.{
  Words, stack_guard_word, stack_paint_word, fill, rounds, Painted, paint_bounds, paint,
  guard_corrupted, first_touched, stack_guard_corrupted, stack_high_water,
}

fill_below : (count from v a : ℕ) (mem : Words) → a < from → fill count from v mem a ≡ mem a
unfolding fill
fill_below zero from v a mem h = refl
fill_below (suc count) from v a mem h =
    fill_below count (from + 4) v a (λ b. if b == from then v else mem b) (omega arith)
    ∙ ground arith

fill_inside :
    (count from v k : ℕ) (mem : Words) → k < count → fill count from v mem (from + 4 * k) ≡ v
unfolding fill
fill_inside zero from v k mem h = absurd (omega arith)
fill_inside (suc count) from v zero mem h =
    fill_below count (from + 4) v (from + 4 * 0) (λ b. if b == from then v else mem b) (omega arith)
    ∙ ground arith
fill_inside (suc count) from v (suc k) mem h =
    ap (fill count (from + 4) v (λ b. if b == from then v else mem b)) {y = from + 4 + 4 * k}
      (omega arith)
    ∙ fill_inside count (from + 4) v k (λ b. if b == from then v else mem b) (omega arith)

intact :
    (count from : ℕ) (mem : Words)
    → ((k : ℕ) → k < count → mem (from + 4 * k) ≡ stack_guard_word)
    → guard_corrupted count from mem ≡ false
unfolding guard_corrupted
intact zero from mem h = refl
intact (suc count) from mem h =
    let here : mem from ≡ stack_guard_word = ap mem {x = from} (omega arith) ∙ h 0 (omega arith) in
    let ih = intact count (from + 4) mem (λ k l. ap mem (omega arith) ∙ h (suc k) (omega arith)) in
    ground (arith, here, ih)

touched_at :
    (count p k : ℕ) (mem : Words)
    → k ≤ count
    → ((j : ℕ) → j < k → mem (p + 4 * j) ≡ stack_paint_word)
    → (k < count → mem (p + 4 * k) ≢ stack_paint_word)
    → first_touched count p mem ≡ p + 4 * k
unfolding first_touched
touched_at zero p k mem h below at = omega arith
touched_at (suc count) p zero mem h below at =
    let here : mem p ≢ stack_paint_word = λ e. at (omega arith) (ap mem (omega arith) ∙ e) in
    ground (arith, here)
touched_at (suc count) p (suc k) mem h below at =
    let here : mem p ≡ stack_paint_word = ap mem {x = p} (omega arith) ∙ below 0 (omega arith) in
    let ih =
      touched_at count (p + 4) k mem (omega arith)
        (λ j l. ap mem (omega arith) ∙ below (suc j) (omega arith))
        (λ l e. at (omega arith) (ap mem (omega arith) ∙ e)) in
    ground (arith, here, ih)

-- A painted stack: aligned bounds in order, none of them null.
pub record Layout (p : Painted) : Type 0 where
  pub is_painted : p.painted ≡ true
  pub not_null : 0 < p.paint_begin
  pub guard_above : p.paint_begin ≤ p.guard_end
  pub end_above : p.guard_end ≤ p.paint_end
  pub begin_aligned : p.paint_begin % 4 ≡ 0
  pub guard_aligned : p.guard_end % 4 ≡ 0
  pub end_aligned : p.paint_end % 4 ≡ 0

-- Where `runtime_memory_begin` paints the stack at all, the words lie in order, on word boundaries,
-- above the bottom and at least 128 bytes below its own frame.
pub paint_bounds-Layout :
    (bottom top current : ℕ)
    → 0 < bottom
    → bottom + 67 < 2 ^ 32
    → 128 < current
    → (paint_bounds bottom top current).painted ≡ true
    → Layout (paint_bounds bottom top current)
      × (bottom ≤ (paint_bounds bottom top current).paint_begin)
      × ((paint_bounds bottom top current).paint_end + 128 ≤ current)
      × (current ≤ top)
unfolding paint_bounds
paint_bounds-Layout bottom top current h k l e = ground arith

-- What the program leaves of the paint when its stack has grown down to `limit`.
pub record GrownTo (p : Painted) (before after : Words) (limit : ℕ) : Type 0 where
  pub within_low : p.guard_end ≤ limit
  pub within_high : limit ≤ p.paint_end
  pub aligned : limit % 4 ≡ 0
  pub kept : (a : ℕ) → p.paint_begin ≤ a → a < limit → after a ≡ before a
  pub touched : limit < p.paint_end → after limit ≢ stack_paint_word

module _ (p : Painted) (mem after : Words) (limit : ℕ) (l : Layout p)
    (g : GrownTo p (paint p mem) after limit) where
  guard_words :
      (k : ℕ)
      → k < rounds p.paint_begin p.guard_end
      → after (p.paint_begin + 4 * k) ≡ stack_guard_word
  unfolding paint
  guard_words k h =
      g.kept (p.paint_begin + 4 * k) (omega arith) (omega arith)
      ∙ rw l.is_painted (
          fill_below (rounds p.guard_end p.paint_end) p.guard_end stack_paint_word
            (p.paint_begin + 4 * k)
            (fill (rounds p.paint_begin p.guard_end) p.paint_begin stack_guard_word mem)
            (omega arith)
          ∙ fill_inside (rounds p.paint_begin p.guard_end) p.paint_begin stack_guard_word k mem h)

  paint_words :
      (k : ℕ) → k < rounds p.guard_end limit → after (p.guard_end + 4 * k) ≡ stack_paint_word
  unfolding paint
  paint_words k h =
      g.kept (p.guard_end + 4 * k) (omega arith) (omega arith)
      ∙ rw l.is_painted (
          fill_inside (rounds p.guard_end p.paint_end) p.guard_end stack_paint_word k
            (fill (rounds p.paint_begin p.guard_end) p.paint_begin stack_guard_word mem)
            (omega arith))

  guard_intact : stack_guard_corrupted p after ≡ false
  unfolding stack_guard_corrupted
  guard_intact =
      ground (arith, intact (rounds p.paint_begin p.guard_end) p.paint_begin after guard_words)

  -- If the program has left the painted words below `limit` as they were and overwritten the one at
  -- `limit`, then `runtime_memory_end` reports the guard as intact, and the bytes from `limit` up to
  -- the top of the stack as the high water.
  pub stack_high_water_lem :
      (bottom top : ℕ)
      → (stack_guard_corrupted p after ≡ false)
        × (stack_high_water bottom top p after ≡ top - limit)
  unfolding stack_high_water
  stack_high_water_lem bottom top =
      let count = rounds p.guard_end p.paint_end in
      let k = rounds p.guard_end limit in
      let scan : first_touched count p.guard_end after ≡ p.guard_end + 4 * k =
        touched_at count p.guard_end k after (omega arith) paint_words
          (λ h e. g.touched (omega arith) (ap after {x = limit} (omega arith) ∙ e)) in
      (guard_intact, rw guard_intact (ground (arith, scan)))
