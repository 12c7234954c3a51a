-- ===== src/Memory/Stack.antt =====
-- The stack of mqtt_client/runtime_memory.c: how `runtime_memory_begin` paints it and what
-- `runtime_memory_end` reads back. Memory is a function from the addresses of words.
pub mod HighWater
use assessing_pq_mqtt_m_tls.Common.{
  ℕ, zero, suc, ◌+◌, ◌-◌, ◌*◌, ◌/◌, ◌%◌, ◌^◌, Bool, true, false, ◌&&◌, ◌||◌, ltb, leb, ◌==◌, ◌!=◌,
  if◌then◌else◌,
}

abbrev pub Words : Type 0
Words = ℕ → ℕ

abbrev pub stack_guard_word : ℕ
stack_guard_word = 0xD15EA5ED

abbrev pub stack_paint_word : ℕ
stack_paint_word = 0xA55A3CC3

-- `for (p = from; p < to; ++p) *p = v;` with `count` rounds
unfoldable pub fill : ℕ → ℕ → ℕ → Words → Words
fill zero from v mem = mem
fill (suc count) from v mem = fill count (from + 4) v (λ a. if a == from then v else mem a)

-- The rounds of a loop over the words from `from` up to `to`.
abbrev pub rounds : ℕ → ℕ → ℕ
rounds from to = (to - from + 3) / 4

-- `x & ~(uintptr_t)3u`
abbrev pub align_down : ℕ → ℕ
align_down x = x - x % 4

-- `paint_begin`, `stack_guard_end`, `paint_end`; `painted` is false where they are null.
pub record Painted : Type 0 where
  pub painted : Bool
  pub paint_begin : ℕ
  pub guard_end : ℕ
  pub paint_end : ℕ

-- The bounds that `runtime_memory_begin` sets, for a frame at `current`; STACK_PAINT_GUARD_BYTES is
-- 128 and STACK_LIMIT_GUARD_BYTES is 64.
unfoldable pub paint_bounds : ℕ → ℕ → ℕ → Painted
paint_bounds bottom top current =
    let safe_end = if ltb 128 current then current - 128 else current in
    let paint_begin = align_down ((bottom + 3) % 2 ^ 32) in
    let paint_end = align_down safe_end in
    let guard_end = align_down ((bottom + 64 + 3) % 2 ^ 32) in
    if ltb current bottom || (ltb top current || ltb paint_end paint_begin)
    then record { painted = false; paint_begin = 0; guard_end = 0; paint_end = 0 }
    else record {
      painted = true;
      paint_begin = paint_begin;
      guard_end = if ltb paint_end guard_end then paint_end else guard_end;
      paint_end = paint_end;
    }

-- The two loops that write the words.
unfoldable pub paint : Painted → Words → Words
paint p mem =
    if p.painted
    then fill (rounds p.guard_end p.paint_end) p.guard_end stack_paint_word
        (fill (rounds p.paint_begin p.guard_end) p.paint_begin stack_guard_word mem)
    else mem

-- `for (g = from; ...; ++g) if (*g != STACK_GUARD_WORD) stack_guard_corrupted = true;`
unfoldable pub guard_corrupted : ℕ → ℕ → Words → Bool
guard_corrupted zero from mem = false
guard_corrupted (suc count) from mem =
    mem from != stack_guard_word || guard_corrupted count (from + 4) mem

-- `while (p < paint_end && *p == STACK_PAINT_WORD) ++p;`
unfoldable pub first_touched : ℕ → ℕ → Words → ℕ
first_touched zero p mem = p
first_touched (suc count) p mem =
    let next = first_touched count (p + 4) mem in if mem p == stack_paint_word then next else p

-- `paint_begin && paint_end`: neither is null.
unfoldable pub stack_guard_corrupted : Painted → Words → Bool
stack_guard_corrupted p mem =
    p.paint_begin != 0
    && (p.paint_end != 0 && guard_corrupted (rounds p.paint_begin p.guard_end) p.paint_begin mem)

unfoldable pub stack_high_water : ℕ → ℕ → Painted → Words → ℕ
stack_high_water bottom top p mem =
    if p.paint_begin != 0 && p.paint_end != 0
    then (if stack_guard_corrupted p mem
        then top - bottom
        else top - first_touched (rounds p.guard_end p.paint_end) p.guard_end mem)
    else 0
