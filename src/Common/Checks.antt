-- ===== src/Common/Checks.antt =====
-- Boolean tests that evaluate on concrete tables, and what they show.
use mathlib.Core.Path.{◌≡◌}
use mathlib.Core.Logic.{◌≢◌, ite}
use mathlib.Core.Bool.{Bool, true, false, ◌&&◌}
use mathlib.Core.List.{List, [], ◌∷◌}
use native.Mathlib.Omega.{arith}
use better_pg_keeper.Common.Lists.{All}
use better_pg_keeper.Common.Keyed.{Distinct}

pub ne_by : {A : Type 0} (dec : Discrete A) (x y : A) → ite (dec x y) false true ≡ true → x ≢ y
ne_by dec x y h = elim (dec x y) [ yes e ↦ ground (arith, e) | no n ↦ n ]

module _ {A K : Type 0} (key : A → K) (dec : Discrete K) where
  unfoldable pub lacks : K → List A → Bool
  lacks k [] = true
  lacks k (x ∷ xs) = ite (dec (key x) k) false (lacks k xs)

  unfoldable pub are_distinct : List A → Bool
  unfolding lacks
  are_distinct [] = true
  are_distinct (x ∷ xs) = lacks (key x) xs && are_distinct xs

  All-of_lacks : (k : K) (xs : List A) → lacks k xs ≡ true → All (λ y. key y ≢ k) xs
  unfolding lacks
  All-of_lacks k [] h = tt
  All-of_lacks k (x ∷ xs) h = elim (dec (key x) k) [
    | yes e ↦ ground (arith, e)
    | no n ↦ (n, All-of_lacks k xs (ground arith))
  ]

  pub Distinct-of : (xs : List A) → are_distinct xs ≡ true → Distinct key xs
  unfolding are_distinct
  Distinct-of [] h = tt
  Distinct-of (x ∷ xs) h = (All-of_lacks (key x) xs (ground arith), Distinct-of xs (ground arith))
