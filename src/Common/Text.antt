-- ===== src/Common/Text.antt =====
-- Texts as the lists of their characters.
use Prim.Native.Char.{code}
use Prim.Native.String.{String}
use Prim.Native.Nat.{ℕ}
use mathlib.Core.Path.{◌≡◌, refl}
use mathlib.Core.Bool.{Bool, true, false, ◌&&◌}
use mathlib.Core.Option.{Option, none, some}
use mathlib.Core.List.{List, [], ◌∷◌, ◌++◌}
use native.Mathlib.Omega.{arith}
use assessing_pq_mqtt_m_tls.Common.Choice.{◌==◌, if◌then◌else◌}

abbrev pub codes : String → List ℕ
codes String.[] = []
codes (String.◌∷◌ c s) = code c ∷ codes s

-- Equal lists.
unfoldable pub same : List ℕ → List ℕ → Bool
same [] [] = true
same (x ∷ xs) (y ∷ ys) = (x == y) && same xs ys
same [] (_ ∷ _) = false
same (_ ∷ _) [] = false

pub same-itself : (xs : List ℕ) → same xs xs ≡ true
unfolding same
same-itself [] = refl
same-itself (x ∷ xs) = ground (arith, same-itself xs)

pub same-append : (xs a b : List ℕ) → same (xs ++ a) (xs ++ b) ≡ same a b
unfolding same
same-append [] a b = refl
same-append (x ∷ xs) a b = ground (arith, same-append xs a b)

-- What follows the given characters, where the text begins with them.
unfoldable pub strip : List ℕ → List ℕ → Option (List ℕ)
strip [] text = some text
strip (_ ∷ _) [] = none
strip (m ∷ mark) (c ∷ text) = let rest = strip mark text in if m == c then rest else none

pub strip-append : (mark rest : List ℕ) → strip mark (mark ++ rest) ≡ some rest
unfolding strip
strip-append [] rest = refl
strip-append (m ∷ mark) rest = ground (arith, strip-append mark rest)
