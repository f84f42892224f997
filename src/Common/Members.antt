-- ===== src/Common/Members.antt =====
-- Membership with its position kept: the library's `Memᴰ`, which can be matched.
use mathlib.Core.Path.{◌≡◌, refl}
use mathlib.Core.Bool.{Bool, true}
use mathlib.Core.Logic.{inl, inr}
use mathlib.Core.Option.{some}
use mathlib.Core.List.{List, [], ◌∷◌, Memᴰ}
use native.Mathlib.Omega.{arith}
use better_pg_keeper.Common.Tests.{Bool-cases}
use better_pg_keeper.Common.Lists.{All}
use better_pg_keeper.Common.Keyed.{find_by}
use better_pg_keeper.Common.Sort.{filter, insert_sorted, sort_by}

module _ {A : Type 0} where
  pub All-Memᴰ : (P : A → Type 0) {x : A} {xs : List A} → All P xs → Memᴰ x xs → P x
  All-Memᴰ P a (Memᴰ.head e) = rw e a.0
  All-Memᴰ P a (Memᴰ.tail m) = All-Memᴰ P a.1 m

  -- To be in a list, as a property of all its elements.
  pub All-of_Memᴰ : (P : A → Type 0) (xs : List A) → ((x : A) → Memᴰ x xs → P x) → All P xs
  All-of_Memᴰ P [] h = tt
  All-of_Memᴰ P (x ∷ xs) h = (h x (Memᴰ.head refl), All-of_Memᴰ P xs (λ y m. h y (Memᴰ.tail m)))

  pub filter-Memᴰ :
      (p : A → Bool) {x : A} (xs : List A) → p x ≡ true → Memᴰ x xs → Memᴰ x (filter p xs)
  unfolding filter
  filter-Memᴰ p [] h m = elim m [ ]
  filter-Memᴰ p (y ∷ ys) h (Memᴰ.head e) = rw (← e, filter) (rw (h, filter) (Memᴰ.head refl))
  filter-Memᴰ p (y ∷ ys) h (Memᴰ.tail m) = elim (Bool-cases (p y)) [
    | inl e ↦ rw (e, filter) (Memᴰ.tail (filter-Memᴰ p ys h m))
    | inr e ↦ rw (e, filter) (filter-Memᴰ p ys h m)
  ]

move_past :
    {A : Type 0} {x y z : A} {zs ws : List A}
    → (Memᴰ x (y ∷ zs) → Memᴰ x ws)
    → Memᴰ x (y ∷ z ∷ zs)
    → Memᴰ x (z ∷ ws)
move_past f (Memᴰ.head e) = Memᴰ.tail (f (Memᴰ.head e))
move_past f (Memᴰ.tail (Memᴰ.head e)) = Memᴰ.head e
move_past f (Memᴰ.tail (Memᴰ.tail m)) = Memᴰ.tail (f (Memᴰ.tail m))

module _ {A : Type 0} (less : A → A → Bool) where
  insert_sorted-Memᴰ :
      {x : A} (y : A) (ys : List A) → Memᴰ x (y ∷ ys) → Memᴰ x (insert_sorted less y ys)
  unfolding insert_sorted
  insert_sorted-Memᴰ y [] m = m
  insert_sorted-Memᴰ y (z ∷ zs) m = elim (Bool-cases (less z y)) [
    | inl e ↦ rw (e, insert_sorted) (move_past (insert_sorted-Memᴰ y zs) m)
    | inr e ↦ rw (e, insert_sorted) m
  ]

  pub sort_by-Memᴰ : {x : A} (xs : List A) → Memᴰ x xs → Memᴰ x (sort_by less xs)
  unfolding sort_by
  sort_by-Memᴰ [] m = elim m [ ]
  sort_by-Memᴰ (y ∷ ys) (Memᴰ.head e) = insert_sorted-Memᴰ y (sort_by less ys) (Memᴰ.head e)
  sort_by-Memᴰ (y ∷ ys) (Memᴰ.tail m) =
      insert_sorted-Memᴰ y (sort_by less ys) (Memᴰ.tail (sort_by-Memᴰ ys m))

module _ {A K : Type 0} (key : A → K) (dec : Discrete K) where
  pub find_by-Memᴰ : (k : K) (xs : List A) {x : A} → find_by key dec k xs ≡ some x → Memᴰ x xs
  unfolding find_by
  find_by-Memᴰ k [] h = absurd (cc)
  find_by-Memᴰ k (y ∷ ys) {x} h = elim (dec (key y) k) [
    | yes p ↦ Memᴰ.head (ground arith)
    | no p ↦ Memᴰ.tail (find_by-Memᴰ k ys (ground arith))
  ]

-- The order of a map's iteration visits its entries, and nothing else.
pub record IsOrder {A : Type 0} (order : List A → List A) : Type 1 where
  pub keeps : (P : A → Type 0) (l : List A) → All P l → All P (order l)
  pub covers : (e : A) (l : List A) → Memᴰ e l → Memᴰ e (order l)
