-- ===== src/Common/Keyed.antt =====
-- Tables with a key: lists of rows in which a row is found by the value of a key. The state of
-- a database table, and of a Go map, is such a list.
use mathlib.Core.Path.{◌≡◌, refl, sym, subst, ◌∙◌}
use mathlib.Core.Logic.{◌≢◌, ite, if_pos, if_neg}
use mathlib.Core.Option.{Option, none, some}
use mathlib.Core.List.{List, [], ◌∷◌, ◌++◌, map}
use native.Mathlib.Omega.{arith}
use better_pg_keeper.Common.Lists.{All, All-append}

module _ {ℓ κ} {A : Type ℓ} {K : Type κ} (key : A → K) where
  -- No two rows have one key.
  abbrev pub Distinct : List A → Type (ℓ ⊔ κ)
  Distinct [] = Unit
  Distinct (x ∷ xs) = All (λ y. key y ≢ key x) xs × Distinct xs

  pub Distinct-snoc :
      (xs : List A) (x : A) → All (λ y. key y ≢ key x) xs → Distinct xs → Distinct (xs ++ x ∷ [])
  Distinct-snoc [] x h d = (tt, tt)
  Distinct-snoc (y ∷ ys) x h d = (
    All-append (λ z. key z ≢ key y) ys (x ∷ []) d.0 (λ e. h.0 (sym e), tt),
    Distinct-snoc ys x h.1 d.1,
  )

  -- A change of rows that keeps their keys keeps them distinct.
  pub All-ne-map :
      (f : A → A) (k : K)
      → ((x : A) → key (f x) ≡ key x)
      → (xs : List A) → All (λ y. key y ≢ k) xs
      → All (λ y. key y ≢ k) (map f xs)
  All-ne-map f k same [] h = tt
  All-ne-map f k same (x ∷ xs) h = (λ e. h.0 (sym (same x) ∙ e), All-ne-map f k same xs h.1)

  pub Distinct-map :
      (f : A → A)
      → ((x : A) → key (f x) ≡ key x)
      → (xs : List A) → Distinct xs
      → Distinct (map f xs)
  Distinct-map f same [] d = tt
  Distinct-map f same (x ∷ xs) d =
      (All-ne-map f (key (f x)) same xs (rw (same x) d.0), Distinct-map f same xs d.1)

module _ {A K : Type 0} (key : A → K) (dec : Discrete K) where
  -- The first row with the key.
  unfoldable pub find_by : K → List A → Option A
  find_by k [] = none
  find_by k (x ∷ xs) = ite (dec (key x) k) (some x) (find_by k xs)

  pub find_by_ne : (k : K) (xs : List A) → All (λ y. key y ≢ k) xs → find_by k xs ≡ none
  unfolding find_by
  find_by_ne k [] h = refl
  find_by_ne k (x ∷ xs) h = rw (if_neg (dec (key x) k) h.0) (find_by_ne k xs h.1)

  pub ne_of_find_by : (k : K) (xs : List A) → find_by k xs ≡ none → All (λ y. key y ≢ k) xs
  unfolding find_by
  ne_of_find_by k [] h = tt
  ne_of_find_by k (x ∷ xs) h = elim (dec (key x) k) [
    | yes p ↦ ground arith
    | no p ↦ (p, ne_of_find_by k xs (ground arith))
  ]

  pub find_by-key : (k : K) (xs : List A) {x : A} → find_by k xs ≡ some x → key x ≡ k
  unfolding find_by
  find_by-key k [] h = ground arith
  find_by-key k (y ∷ ys) {x} h = elim (dec (key y) k) [
    | yes p ↦ ground arith
    | no p ↦ find_by-key k ys (ground arith)
  ]

  pub find_by-append :
      (k : K) (xs ys : List A)
      → find_by k (xs ++ ys) ≡ elim (find_by k xs) [ none ↦ find_by k ys | some x ↦ some x ]
  unfolding find_by
  find_by-append k [] ys = refl
  find_by-append k (x ∷ xs) ys = ground (arith, find_by-append k xs ys)

  find_by_beyond :
      (x : A) (xs zs : List A)
      → All (λ y. key y ≢ key x) zs
      → All (λ y. find_by (key y) xs ≡ some y) zs
      → All (λ y. find_by (key y) (x ∷ xs) ≡ some y) zs
  unfolding find_by
  find_by_beyond x xs [] h a = tt
  find_by_beyond x xs (z ∷ zs) h a =
      (rw (if_neg (dec (key x) (key z)) (λ e. h.0 (sym e))) a.0, find_by_beyond x xs zs h.1 a.1)

  -- A row of a table of distinct keys is the one that its key finds.
  pub find_by_self : (xs : List A) → Distinct key xs → All (λ x. find_by (key x) xs ≡ some x) xs
  unfolding find_by
  find_by_self [] d = tt
  find_by_self (x ∷ xs) d =
      (if_pos (dec (key x) (key x)) refl _ _, find_by_beyond x xs xs d.0 (find_by_self xs d.1))

  -- A change of rows that keeps their keys acts on what a key finds.
  pub find_by-map :
      (k : K) (f : A → A)
      → ((x : A) → key (f x) ≡ key x)
      → (xs : List A)
      → find_by k (map f xs) ≡ elim (find_by k xs) [ none ↦ none | some x ↦ some (f x) ]
  unfolding find_by
  find_by-map k f same [] = refl
  find_by-map k f same (x ∷ xs) = ground (arith, same x, find_by-map k f same xs)

  pub find_by_All :
      (P : A → Type 0) (k : K) (xs : List A) {x : A} → All P xs → find_by k xs ≡ some x → P x
  unfolding find_by
  find_by_All P k [] a h = ground arith
  find_by_All P k (y ∷ ys) {x} a h = elim (dec (key y) k) [
    | yes p ↦ subst P (ground arith) a.0
    | no p ↦ find_by_All P k ys a.1 (ground arith)
  ]

  -- An update of the rows with one key.
  unfoldable pub update_at : K → (A → A) → List A → List A
  update_at k f = map (λ x. ite (dec (key x) k) (f x) x)

  update_at-key :
      (k : K) (f : A → A)
      → ((x : A) → key (f x) ≡ key x)
      → (x : A) → key (ite (dec (key x) k) (f x) x) ≡ key x
  update_at-key k f same x = ground (arith, same x)

  pub update_at-Distinct :
      (k : K) (f : A → A)
      → ((x : A) → key (f x) ≡ key x)
      → (xs : List A) → Distinct key xs
      → Distinct key (update_at k f xs)
  unfolding update_at
  update_at-Distinct k f same = Distinct-map key _ (update_at-key k f same)

  pub update_at_ne :
      (k : K) (f : A → A) (xs : List A) → All (λ y. key y ≢ k) xs → update_at k f xs ≡ xs
  unfolding update_at
  update_at_ne k f [] h = refl
  update_at_ne k f (x ∷ xs) h = ground (arith, update_at_ne k f xs h.1, h.0)

  pub find_by-update_at :
      (k j : K) (f : A → A)
      → ((x : A) → key (f x) ≡ key x)
      → (xs : List A)
      → find_by j (update_at k f xs)
        ≡ elim (find_by j xs) [ none ↦ none | some x ↦ some (ite (dec k j) (f x) x) ]
  unfolding find_by update_at
  find_by-update_at k j f same [] = refl
  find_by-update_at k j f same (x ∷ xs) = ground (arith, same x, find_by-update_at k j f same xs)

  -- Assignment to a Go map: the value under the key is replaced, or added.
  unfoldable pub assign : A → List A → List A
  assign x [] = x ∷ []
  assign x (y ∷ ys) = ite (dec (key y) (key x)) (x ∷ ys) (y ∷ assign x ys)

  pub find_by-assign :
      (k : K) (x : A) (xs : List A)
      → find_by k (assign x xs) ≡ ite (dec (key x) k) (some x) (find_by k xs)
  unfolding find_by assign
  find_by-assign k x [] = refl
  find_by-assign k x (y ∷ ys) = ground (arith, find_by-assign k x ys)

  All-ne-assign :
      (k : K) (x : A) (xs : List A)
      → key x ≢ k
      → All (λ y. key y ≢ k) xs
      → All (λ y. key y ≢ k) (assign x xs)
  unfolding assign
  All-ne-assign k x [] h a = (h, tt)
  All-ne-assign k x (y ∷ ys) h a = elim (dec (key y) (key x)) [
    | yes p ↦ rw (if_pos (dec (key y) (key x)) p) (h, a.1)
    | no p ↦ rw (if_neg (dec (key y) (key x)) p) (a.0, All-ne-assign k x ys h a.1)
  ]

  pub assign-Distinct : (x : A) (xs : List A) → Distinct key xs → Distinct key (assign x xs)
  unfolding assign
  assign-Distinct x [] d = (tt, tt)
  assign-Distinct x (y ∷ ys) d = elim (dec (key y) (key x)) [
    | yes p ↦ rw (if_pos (dec (key y) (key x)) p, ← p) d
    | no p ↦
        rw (if_neg (dec (key y) (key x)) p)
          (All-ne-assign (key y) x ys (λ e. p (sym e)) d.0, assign-Distinct x ys d.1)
  ]

  pub All-assign : (P : A → Type 0) (x : A) (xs : List A) → P x → All P xs → All P (assign x xs)
  unfolding assign
  All-assign P x [] h a = (h, tt)
  All-assign P x (y ∷ ys) h a = elim (dec (key y) (key x)) [
    | yes p ↦ rw (if_pos (dec (key y) (key x)) p) (h, a.1)
    | no p ↦ rw (if_neg (dec (key y) (key x)) p) (a.0, All-assign P x ys h a.1)
  ]

  -- `delete` on a Go map.
  unfoldable pub erase_by : K → List A → List A
  erase_by k [] = []
  erase_by k (x ∷ xs) = ite (dec (key x) k) (erase_by k xs) (x ∷ erase_by k xs)

  pub find_by-erase_by :
      (k j : K) (xs : List A) → find_by j (erase_by k xs) ≡ ite (dec k j) none (find_by j xs)
  unfolding find_by erase_by
  find_by-erase_by k j [] = ground arith
  find_by-erase_by k j (x ∷ xs) = ground (arith, find_by-erase_by k j xs)
