-- ===== src/Prelude/IdMap.antt =====
-- `Map<number, V>`: the entries in the order of their insertion.
use mathlib.Core.Path.{◌≡◌, refl}
use mathlib.Core.Option.{Option, none, some}
use mathlib.Core.List.{List, [], ◌∷◌}
use native.Mathlib.Omega.{arith}
use Prim.Native.Nat.{ℕ}
use hdns.Prelude.Tests.{◌==◌, if◌then◌else◌}

module _ {ℓ} {V : Type ℓ} where
  unfoldable pub get : List (ℕ × V) → ℕ → Option V
  get [] i = none
  get ((j, v) ∷ m) i = let rest = get m i in if j == i then some v else rest

  unfoldable pub set : List (ℕ × V) → ℕ → V → List (ℕ × V)
  set [] i v = (i, v) ∷ []
  set ((j, w) ∷ m) i v = let rest = set m i v in if j == i then (i, v) ∷ m else (j, w) ∷ rest

  pub get-set :
      (m : List (ℕ × V)) (i j : ℕ) (v : V)
      → get (set m i v) j ≡ (if i == j then some v else get m j)
  unfolding get set
  get-set [] i j v = refl
  get-set ((k, w) ∷ m) i j v = ground (arith, get-set m i j v)
