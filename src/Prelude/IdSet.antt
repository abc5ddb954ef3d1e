-- ===== src/Prelude/IdSet.antt =====
-- `Set<number>`: the members in the order of their insertion.
use mathlib.Core.Path.{◌≡◌}
use mathlib.Core.Bool.{Bool, false, ◌||◌}
use mathlib.Core.List.{List, [], ◌∷◌, ◌++◌}
use native.Mathlib.Omega.{arith}
use Prim.Native.Nat.{ℕ}
use hdns.Prelude.Tests.{◌==◌, if◌then◌else◌}

unfoldable pub has : List ℕ → ℕ → Bool
has [] i = false
has (x ∷ xs) i = x == i || has xs i

unfoldable pub add : List ℕ → ℕ → List ℕ
unfolding has
add xs i = if has xs i then xs else xs ++ i ∷ []

unfoldable pub delete : List ℕ → ℕ → List ℕ
delete [] i = []
delete (x ∷ xs) i = let rest = delete xs i in if x == i then rest else x ∷ rest

pub has-concat : (xs : List ℕ) (i j : ℕ) → has (xs ++ i ∷ []) j ≡ (has xs j || i == j)
unfolding has
has-concat [] i j = ground arith
has-concat (x ∷ xs) i j = ground (arith, has-concat xs i j)

pub has-add : (xs : List ℕ) (i j : ℕ) → has (add xs i) j ≡ (i == j || has xs j)
unfolding add
has-add xs i j = ground (arith, has-concat xs i j)

pub has-delete :
    (xs : List ℕ) (i j : ℕ) → has (delete xs i) j ≡ (if i == j then false else has xs j)
unfolding has delete
has-delete [] i j = ground arith
has-delete (x ∷ xs) i j = ground (arith, has-delete xs i j)
