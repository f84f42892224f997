-- ===== src/Common/Sort.antt =====
-- A stable sort by a strict comparison, as sort.SliceStable and ORDER BY give it, and the rows that
-- pass a test.
use mathlib.Core.Path.{◌≡◌, refl}
use mathlib.Core.Bool.{Bool, true, false}
use mathlib.Core.Logic.{inl, inr}
use mathlib.Core.List.{List, [], ◌∷◌}
use native.Mathlib.Omega.{arith}
use better_pg_keeper.Common.Tests.{if◌then◌else◌, Bool-cases}
use better_pg_keeper.Common.Lists.{All, All-mono}

module _ {ℓ} {A : Type ℓ} where
  -- The library's `filter` takes a decision; this one takes the Boolean that the code computes.
  unfoldable pub filter : (A → Bool) → List A → List A
  filter p [] = []
  filter p (x ∷ xs) = if p x then x ∷ filter p xs else filter p xs

  pub filter-All : (p : A → Bool) (xs : List A) → All (λ x. p x ≡ true) (filter p xs)
  unfolding filter
  filter-All p [] = tt
  filter-All p (x ∷ xs) = elim (Bool-cases (p x)) [
    | inl e ↦ rw (e, filter) (e, filter-All p xs)
    | inr e ↦ rw (e, filter) (filter-All p xs)
  ]

  pub All-filter {κ} :
      (P : A → Type κ) (p : A → Bool) (xs : List A) → All P xs → All P (filter p xs)
  unfolding filter
  All-filter P p [] a = tt
  All-filter P p (x ∷ xs) a = elim (Bool-cases (p x)) [
    | inl e ↦ rw (e, filter) (a.0, All-filter P p xs a.1)
    | inr e ↦ rw (e, filter) (All-filter P p xs a.1)
  ]

module _ {A : Type 0} (less : A → A → Bool) where
  unfoldable pub insert_sorted : A → List A → List A
  insert_sorted x [] = x ∷ []
  insert_sorted x (y ∷ ys) = if less y x then y ∷ insert_sorted x ys else x ∷ y ∷ ys

  unfoldable pub sort_by : List A → List A
  unfolding insert_sorted
  sort_by [] = []
  sort_by (x ∷ xs) = insert_sorted x (sort_by xs)

  abbrev IsSorted : List A → Type 0
  IsSorted [] = Unit
  IsSorted (x ∷ xs) = All (λ y. less y x ≡ false) xs × IsSorted xs

  All-insert_sorted :
      (P : A → Type 0) (x : A) (xs : List A) → P x → All P xs → All P (insert_sorted x xs)
  unfolding insert_sorted
  All-insert_sorted P x [] p a = (p, tt)
  All-insert_sorted P x (y ∷ ys) p a = elim (Bool-cases (less y x)) [
    | inl e ↦ rw (e, insert_sorted) (a.0, All-insert_sorted P x ys p a.1)
    | inr e ↦ rw (e, insert_sorted) (p, a)
  ]

  pub All-sort_by : (P : A → Type 0) (xs : List A) → All P xs → All P (sort_by xs)
  unfolding sort_by
  All-sort_by P [] a = tt
  All-sort_by P (x ∷ xs) a = All-insert_sorted P x (sort_by xs) a.0 (All-sort_by P xs a.1)

  -- A strict weak order: what sort.SliceStable asks of its comparison.
  pub record IsStrictWeak : Type 0 where
    pub asym : (a b : A) → less a b ≡ true → less b a ≡ false
    pub not_less_trans : (a b c : A) → less b a ≡ false → less c b ≡ false → less c a ≡ false

  module _ (w : IsStrictWeak) where
    insert_sorted-IsSorted : (x : A) (xs : List A) → IsSorted xs → IsSorted (insert_sorted x xs)
    unfolding insert_sorted
    insert_sorted-IsSorted x [] s = (tt, tt)
    insert_sorted-IsSorted x (y ∷ ys) s = elim (Bool-cases (less y x)) [
      | inl e ↦
          rw (e, insert_sorted)
            (
              All-insert_sorted (λ z. less z y ≡ false) x ys (w.asym y x e) s.0,
              insert_sorted-IsSorted x ys s.1,
            )
      | inr e ↦
          rw (e, insert_sorted)
            (
              (
                e,
                All-mono (λ z. less z y ≡ false) (λ z. less z x ≡ false)
                    (λ z h. w.not_less_trans x y z e h) ys s.0,
              ),
              s,
            )
    ]

    sort_by-IsSorted : (xs : List A) → IsSorted (sort_by xs)
    unfolding sort_by
    sort_by-IsSorted [] = tt
    sort_by-IsSorted (x ∷ xs) = insert_sorted-IsSorted x (sort_by xs) (sort_by-IsSorted xs)

  -- The rows that pass a test are sorted as they are among the others.
  module _ (w : IsStrictWeak) (p : A → Bool) where
    insert_sorted_front :
        (x : A) (ys : List A) → All (λ y. less y x ≡ false) ys → insert_sorted x ys ≡ x ∷ ys
    unfolding insert_sorted
    insert_sorted_front x [] a = refl
    insert_sorted_front x (y ∷ ys) a = rw a.0 refl

    filter_in-insert_sorted :
        (x : A) (ys : List A)
        → IsSorted ys
        → p x ≡ true
        → filter p (insert_sorted x ys) ≡ insert_sorted x (filter p ys)
    unfolding filter insert_sorted
    filter_in-insert_sorted x [] s h = rw h refl
    filter_in-insert_sorted x (y ∷ ys) s h = elim (Bool-cases (less y x)) [
      | inl e ↦ let rest = filter_in-insert_sorted x ys s.1 h in ground (arith, e, rest)
      | inr e ↦
          let front = insert_sorted_front x (filter p ys) (
            All-filter (λ z. less z x ≡ false) p ys
              (All-mono (λ z. less z y ≡ false) (λ z. less z x ≡ false)
                (λ z l. w.not_less_trans x y z e l) ys s.0)) in
          ground (arith, h, e, front)
    ]

    filter_out-insert_sorted :
        (x : A) (ys : List A) → p x ≡ false → filter p (insert_sorted x ys) ≡ filter p ys
    unfolding filter insert_sorted
    filter_out-insert_sorted x [] h = rw h refl
    filter_out-insert_sorted x (y ∷ ys) h =
        let rest = filter_out-insert_sorted x ys h in ground (arith, h, rest)

    pub sort_by-filter : (xs : List A) → filter p (sort_by xs) ≡ sort_by (filter p xs)
    unfolding sort_by filter
    sort_by-filter [] = refl
    sort_by-filter (x ∷ xs) =
        let rest = sort_by-filter xs in
        elim (Bool-cases (p x)) [
          | inl t ↦
              rw (filter_in-insert_sorted x (sort_by xs) (sort_by-IsSorted w xs) t, rest)
                (rw t refl)
          | inr t ↦ rw (filter_out-insert_sorted x (sort_by xs) t, rest) (rw t refl)
        ]

module _ {A : Type 0} where
  pub filter_swap : (p q : A → Bool) (xs : List A) → filter p (filter q xs) ≡ filter q (filter p xs)
  unfolding filter
  filter_swap p q [] = refl
  filter_swap p q (x ∷ xs) = ground (arith, filter_swap p q xs)

  -- Two tests that agree on the rows pass the same rows.
  pub filter_agree :
      (p q : A → Bool) (xs : List A) → All (λ x. p x ≡ q x) xs → filter p xs ≡ filter q xs
  unfolding filter
  filter_agree p q [] a = refl
  filter_agree p q (x ∷ xs) a = let rest = filter_agree p q xs a.1 in rw (a.0, rest) refl
