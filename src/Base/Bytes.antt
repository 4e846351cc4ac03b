-- ===== src/Base/Bytes.antt =====
-- C strings as lists of bytes without the closing NUL, and checks over small ranges of numbers.
use Prim.Native.Nat.{ℕ, zero, suc, ◌<◌}
use mathlib.Core.Path.{◌≡◌}
use mathlib.Core.Bool.{Bool, true, false, ◌&&◌}
use mathlib.Core.List.{List, [], ◌∷◌}
use native.Mathlib.Omega.{arith}
use ops_ipapps.Base.Tests.{◌==◌}

abbrev pub Text : Type 0
Text = List ℕ

-- strncmp(a, b, n) == 0
abbrev pub strncmp_eq : Text → Text → ℕ → Bool
strncmp_eq a b zero = true
strncmp_eq [] [] (suc n) = true
strncmp_eq [] (y ∷ ys) (suc n) = false
strncmp_eq (x ∷ xs) [] (suc n) = false
strncmp_eq (x ∷ xs) (y ∷ ys) (suc n) = (x == y) && strncmp_eq xs ys n

-- A table is true in each of its first rows.
unfoldable pub holds_up_to : (ℕ → Bool) → ℕ → Bool
holds_up_to row zero = true
holds_up_to row (suc rows) = holds_up_to row rows && row rows

pub holds_up_to-row :
    (row : ℕ → Bool) (i rows : ℕ) → i < rows → holds_up_to row rows ≡ true → row i ≡ true
unfolding holds_up_to
holds_up_to-row row i zero below table = absurd (omega arith)
holds_up_to-row row i (suc rows) below table = ground (holds_up_to-row row i rows, arith)
