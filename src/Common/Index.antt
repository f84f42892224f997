-- ===== src/Common/Index.antt =====
-- A Go map filled from a list, under a text made of each element.
use Prim.Native.String.{String}
use mathlib.Core.Path.{◌≡◌, refl, sym, ap}
use mathlib.Core.Logic.{◌⊎◌, inl, inr, if_pos, if_neg}
use mathlib.Core.Option.{some}
use mathlib.Core.List.{List, [], ◌∷◌, Memᴰ}
use better_pg_keeper.Common.Lists.{All}
use better_pg_keeper.Common.Text.{str_dec}
use better_pg_keeper.Common.Keyed.{find_by, assign, find_by-assign, All-assign}

abbrev pub entry_key {ℓ} : {A : Type ℓ} → String × A → String
entry_key e = e.0

module _ {A : Type 0} (key : A → String) where
  unfoldable pub index_by : List A → List (String × A) → List (String × A)
  unfolding assign
  index_by [] m = m
  index_by (x ∷ xs) m = index_by xs (assign entry_key str_dec (key x, x) m)

  pub index_by-All :
      (P : String × A → Type 0) (xs : List A) (m : List (String × A))
      → All (λ x. P (key x, x)) xs
      → All P m
      → All P (index_by xs m)
  unfolding index_by
  index_by-All P [] m a b = b
  index_by-All P (x ∷ xs) m a b = index_by-All P xs _ a.1 (All-assign entry_key str_dec P _ m a.0 b)

  -- The entry of `r` is in the map.
  abbrev pub IsIndexed : A → List (String × A) → Type 0
  IsIndexed r m = find_by entry_key str_dec (key r) m ≡ some (key r, r)

  index_by_step :
      (r x : A) (m : List (String × A))
      → (key x ≡ key r → x ≡ r)
      → IsIndexed r m ⊎ (x ≡ r)
      → IsIndexed r (assign entry_key str_dec (key x, x) m)
  index_by_step r x m u h =
      let law = find_by-assign entry_key str_dec (key r) (key x, x) m in
      elim (str_dec (key x) (key r)) [
        | yes p ↦ rw (law, if_pos (str_dec (key x) (key r)) p, u p) refl
        | no p ↦
            rw (law, if_neg (str_dec (key x) (key r)) p)
              (elim h [ inl there ↦ there | inr e ↦ absurd (p (ap key e)) ])
      ]

  index_by_keeps :
      (r : A) (xs : List A) (m : List (String × A))
      → All (λ x. key x ≡ key r → x ≡ r) xs
      → IsIndexed r m
      → IsIndexed r (index_by xs m)
  unfolding index_by
  index_by_keeps r [] m u h = h
  index_by_keeps r (x ∷ xs) m u h = index_by_keeps r xs _ u.1 (index_by_step r x m u.0 (inl h))

  -- An element whose text no other element has is found under it.
  pub index_by-IsIndexed :
      (r : A) (xs : List A) (m : List (String × A))
      → All (λ x. key x ≡ key r → x ≡ r) xs
      → Memᴰ r xs
      → IsIndexed r (index_by xs m)
  unfolding index_by
  index_by-IsIndexed r [] m u e = elim e [ ]
  index_by-IsIndexed r (x ∷ xs) m u (Memᴰ.head e) =
      index_by_keeps r xs _ u.1 (index_by_step r x m u.0 (inr (sym e)))
  index_by-IsIndexed r (x ∷ xs) m u (Memᴰ.tail e) = index_by-IsIndexed r xs _ u.1 e
