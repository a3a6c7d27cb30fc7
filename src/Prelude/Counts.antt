-- ===== src/Prelude/Counts.antt =====
-- How often a number stands in a list.
use Prim.Native.Nat.{ℕ, ◌+◌, ◌≤◌}
use mathlib.Core.Path.{◌≡◌}
use mathlib.Core.Bool.{Bool, true, false}
use mathlib.Core.List.{List, [], ◌∷◌, ◌++◌}
use native.Mathlib.Omega.{arith}
use sponge_bob.Prelude.Tests.{◌==◌}
use sponge_bob.Prelude.Lists.{length}

-- One if the test holds, zero if not.
abbrev pub indicator : Bool → ℕ
indicator true = 1
indicator false = 0

abbrev pub count : ℕ → List ℕ → ℕ
count a [] = 0
count a (x ∷ xs) = indicator (x == a) + count a xs

pub count-append : (k : ℕ) (us vs : List ℕ) → count k (us ++ vs) ≡ count k us + count k vs
count-append k [] vs = omega arith
count-append k (u ∷ us) vs = omega (arith, count-append k us vs)

pub count-le-length : (k : ℕ) (xs : List ℕ) → count k xs ≤ length xs
count-le-length k [] = omega arith
count-le-length k (x ∷ xs) = ground (arith, count-le-length k xs)
