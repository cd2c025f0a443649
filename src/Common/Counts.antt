-- ===== src/Common/Counts.antt =====
-- How often a number stands in a list.
use Prim.Native.Nat.{ℕ, ◌+◌}
use mathlib.Core.Path.{◌≡◌}
use mathlib.Core.Bool.{Bool, true, false}
use mathlib.Core.List.{List, [], ◌∷◌, ◌++◌}
use native.Mathlib.Omega.{arith}
use stream_mo_e.Common.Tests.{◌==◌}

abbrev pub mark : Bool → ℕ
mark true = 1
mark false = 0

-- How often a number stands in a list.
abbrev pub occurs : ℕ → List ℕ → ℕ
occurs v [] = 0
occurs v (x ∷ xs) = mark (x == v) + occurs v xs

pub occurs-append : (v : ℕ) (xs ys : List ℕ) → occurs v (xs ++ ys) ≡ occurs v xs + occurs v ys
occurs-append v [] ys = omega arith
occurs-append v (x ∷ xs) ys = omega (arith, occurs-append v xs ys)
