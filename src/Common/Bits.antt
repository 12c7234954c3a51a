-- ===== src/Common/Bits.antt =====
-- `bit_and` and `bit_or` as arithmetic, from the digit recursion that they stand for.
use Prim.Native.Nat.{ℕ, zero, suc, ◌+◌, ◌*◌, ◌/◌, ◌%◌, ◌^◌, ◌≤◌, ◌<◌, min, max}
use Prim.Native.Nat.{bit_and, bit_or, digits, bit_and-bitwise, bit_or-bitwise}
use mathlib.Core.Path.{◌≡◌, refl, ap}
use native.Mathlib.Omega.{arith}
use native.Mathlib.Nat.{pow-suc}

module _ (z : ℕ → ℕ) (f : ℕ → ℕ → ℕ) where
  -- more digits to go than the first number has change nothing
  digits_enough : (n m a b : ℕ) → a ≤ n → a ≤ m → digits z f n a b ≡ digits z f m a b
  digits_enough zero zero a b p q = refl
  digits_enough zero (suc m) zero b p q = refl
  digits_enough zero (suc m) (suc a) b p q = absurd (omega arith)
  digits_enough (suc n) zero zero b p q = refl
  digits_enough (suc n) zero (suc a) b p q = absurd (omega arith)
  digits_enough (suc n) (suc m) zero b p q = refl
  digits_enough (suc n) (suc m) (suc a) b p q =
      let ih = digits_enough n m (suc a / 2) (b / 2) (omega arith) (omega arith) in
      ap (λ (t : ℕ). t * 2 + f (suc a % 2) (b % 2)) ih

zero-bit_and : (b : ℕ) → bit_and 0 b ≡ 0
zero-bit_and b = bit_and-bitwise 0 b

pub zero-bit_or : (b : ℕ) → bit_or 0 b ≡ b
zero-bit_or b = bit_or-bitwise 0 b

pub bit_and-halves : (a b : ℕ) → bit_and a b ≡ bit_and (a / 2) (b / 2) * 2 + min (a % 2) (b % 2)
bit_and-halves zero b = omega (arith, zero-bit_and b, zero-bit_and (b / 2))
bit_and-halves (suc a) b = omega (
  arith,
  bit_and-bitwise (suc a) b,
  bit_and-bitwise (suc a / 2) (b / 2),
  digits_enough (λ _. zero) min a (suc a / 2) (suc a / 2) (b / 2) (omega arith) (omega arith),
)

pub bit_or-halves : (a b : ℕ) → bit_or a b ≡ bit_or (a / 2) (b / 2) * 2 + max (a % 2) (b % 2)
bit_or-halves zero b = omega (arith, zero-bit_or b, zero-bit_or (b / 2))
bit_or-halves (suc a) b = omega (
  arith,
  bit_or-bitwise (suc a) b,
  bit_or-bitwise (suc a / 2) (b / 2),
  digits_enough (λ c. c) max a (suc a / 2) (suc a / 2) (b / 2) (omega arith) (omega arith),
)

bit_and-zero_below : (n a : ℕ) → a ≤ n → bit_and a 0 ≡ 0
bit_and-zero_below n zero h = refl
bit_and-zero_below zero (suc a) h = absurd (omega arith)
bit_and-zero_below (suc n) (suc a) h =
    omega (arith, bit_and-halves (suc a) 0, bit_and-zero_below n (suc a / 2) (omega arith))

bit_or-zero_below : (n a : ℕ) → a ≤ n → bit_or a 0 ≡ a
bit_or-zero_below n zero h = refl
bit_or-zero_below zero (suc a) h = absurd (omega arith)
bit_or-zero_below (suc n) (suc a) h =
    omega (arith, bit_or-halves (suc a) 0, bit_or-zero_below n (suc a / 2) (omega arith))

pub bit_and-zero : (a : ℕ) → bit_and a 0 ≡ 0
bit_and-zero a = bit_and-zero_below a a (omega arith)

pub bit_or-zero : (a : ℕ) → bit_or a 0 ≡ a
bit_or-zero a = bit_or-zero_below a a (omega arith)

-- A mask of k ones keeps k bits.
bit_and-0x1 : (a : ℕ) → bit_and a 0x1 ≡ a % 2
bit_and-0x1 a = omega (arith, bit_and-halves a 0x1, bit_and-zero (a / 2))

bit_and-0x3 : (a : ℕ) → bit_and a 0x3 ≡ a % 4
bit_and-0x3 a = omega (arith, bit_and-halves a 0x3, bit_and-0x1 (a / 2))

bit_and-0x7 : (a : ℕ) → bit_and a 0x7 ≡ a % 8
bit_and-0x7 a = omega (arith, bit_and-halves a 0x7, bit_and-0x3 (a / 2))

bit_and-0xf : (a : ℕ) → bit_and a 0xf ≡ a % 16
bit_and-0xf a = omega (arith, bit_and-halves a 0xf, bit_and-0x7 (a / 2))

bit_and-0x1f : (a : ℕ) → bit_and a 0x1f ≡ a % 32
bit_and-0x1f a = omega (arith, bit_and-halves a 0x1f, bit_and-0xf (a / 2))

pub bit_and-0x3f : (a : ℕ) → bit_and a 0x3f ≡ a % 64
bit_and-0x3f a = omega (arith, bit_and-halves a 0x3f, bit_and-0x1f (a / 2))

pub bit_and-0x7f : (a : ℕ) → bit_and a 0x7f ≡ a % 128
bit_and-0x7f a = omega (arith, bit_and-halves a 0x7f, bit_and-0x3f (a / 2))

pub bit_and-0xff : (a : ℕ) → bit_and a 0xff ≡ a % 256
bit_and-0xff a = omega (arith, bit_and-halves a 0xff, bit_and-0x7f (a / 2))

-- A mask of the single bit 7.
bit_and-0x2 : (a : ℕ) → bit_and a 0x2 ≡ a / 2 % 2 * 2
bit_and-0x2 a = omega (arith, bit_and-halves a 0x2, bit_and-0x1 (a / 2))

bit_and-0x8 : (a : ℕ) → bit_and a 0x8 ≡ a / 8 % 2 * 8
bit_and-0x8 a =
    omega (arith, bit_and-halves a 0x8, bit_and-halves (a / 2) 0x4, bit_and-0x2 (a / 2 / 2))

bit_and-0x20 : (a : ℕ) → bit_and a 0x20 ≡ a / 32 % 2 * 32
bit_and-0x20 a =
    omega (arith, bit_and-halves a 0x20, bit_and-halves (a / 2) 0x10, bit_and-0x8 (a / 2 / 2))

pub bit_and-0x80 : (a : ℕ) → bit_and a 0x80 ≡ a / 128 % 2 * 128
bit_and-0x80 a =
    omega (arith, bit_and-halves a 0x80, bit_and-halves (a / 2) 0x40, bit_and-0x20 (a / 2 / 2))

-- The bits of `x << s` lie above those of a number below 2 ^ s.
pub bit_or-shifted : (s a x : ℕ) → a < 2 ^ s → bit_or a (x * 2 ^ s) ≡ a + x * 2 ^ s
bit_or-shifted zero zero x h = omega (arith, zero-bit_or (x * 2 ^ 0))
bit_or-shifted zero (suc a) x h = absurd (omega arith)
bit_or-shifted (suc s) a x h = omega (
  arith,
  bit_or-halves a (x * 2 ^ suc s),
  bit_or-shifted s (a / 2) x (omega (arith, pow-suc 2 s)),
  ap (λ (t : ℕ). x * t) (pow-suc 2 s),
  ap (λ (t : ℕ). bit_or (a / 2) t) half,
  half,
)
  where
    half : x * 2 ^ suc s / 2 ≡ x * 2 ^ s
    half = omega (arith, ap (λ (t : ℕ). x * t) (pow-suc 2 s))

pub bit_or-0x80 : (b : ℕ) → b < 128 → bit_or b 0x80 ≡ b + 128
bit_or-0x80 b h = bit_or-shifted 7 b 1 h
