-- ===== src/Base/Arrays.antt =====
-- Reading a list after a write.
use Prim.Native.Nat.{ℕ, zero, suc}
use mathlib.Core.Path.{◌≡◌}
use mathlib.Core.List.{List, [], ◌∷◌}
use mathlib.Core.Option.{some}
use native.Mathlib.Omega.{arith}
use trapfetch.Base.Tests.{◌==◌, if◌then◌else◌}
use trapfetch.Base.Lists.{get_elem?, set}

pub get_elem?-set {ℓ} :
    {A : Type ℓ} (xs : List A) (i j : ℕ) (v : A) {x : A}
    → get_elem? xs i ≡ some x
    → get_elem? (set xs i v) j ≡ (if i == j then some v else get_elem? xs j)
get_elem?-set [] i j v e = ground (arith, e)
get_elem?-set (y ∷ xs) zero zero v e = ground arith
get_elem?-set (y ∷ xs) zero (suc j) v e = ground arith
get_elem?-set (y ∷ xs) (suc i) zero v e = ground arith
get_elem?-set (y ∷ xs) (suc i) (suc j) v e = ground (arith, get_elem?-set xs i j v e)
