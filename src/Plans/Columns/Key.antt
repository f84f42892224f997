-- ===== src/Plans/Columns/Key.antt =====
-- internal/plans/plans.go, IndexColumns: the shape of the proposed key.
use better_pg_keeper.Common.{
  ◌≤◌, ◌≡◌, ◌≢◌, refl, sym, Bool, true, false, some, List, [], ◌∷◌, ◌++◌, length, length-append,
  Bool-cases, Option-cases, inl, inr, arith, All, All-append, Memᴰ, Distinct, All-of_Memᴰ,
  append_nil, ltb,
}
use better_pg_keeper.Plans.Split.{Text, split_and}
use better_pg_keeper.Plans.Columns.{
  Matchers, Found, text_dec, parse_term, has_column, note_term, note_terms, first_range,
  index_columns,
}

-- A term of the filter compares the column, for equality or in a range.
abbrev pub IsCompared : Matchers → List Text → Bool → Text → Type 0
IsCompared m terms eq c = (t : Text) × Memᴰ t terms × (parse_term m t ≡ some (c, eq))

abbrev pub self : Text → Text
self c = c

has_column-ne : (c : Text) (xs : List Text) → has_column c xs ≡ false → All (λ x. x ≢ c) xs
unfolding has_column
has_column-ne c [] h = tt
has_column-ne c (x ∷ xs) h = elim (text_dec x c) [
  | yes p ↦ ground (arith, p, h)
  | no n ↦ (n, has_column-ne c xs (ground (arith, n, h)))
]

All-ne-snoc :
    (x c : Text) (xs : List Text) → x ≢ c → All (λ y. y ≢ x) xs → All (λ y. y ≢ x) (xs ++ c ∷ [])
All-ne-snoc x c xs n a = All-append (λ y. y ≢ x) xs (c ∷ []) a ((λ e. n (sym e)), tt)

Distinct-snoc :
    (c : Text) (xs : List Text)
    → All (λ x. x ≢ c) xs
    → Distinct self xs
    → Distinct self (xs ++ c ∷ [])
Distinct-snoc c [] a d = (tt, tt)
Distinct-snoc c (x ∷ xs) a d = (All-ne-snoc x c xs a.0 d.0, Distinct-snoc c xs a.1 d.1)

record IsFound (m : Matchers) (terms : List Text) (f : Found) : Type 0 where
  few : length f.equality ≤ 3
  distinct : Distinct self f.equality
  equal : All (IsCompared m terms true) f.equality
  ranged : All (IsCompared m terms false) f.ranges

note_term-IsFound :
    (m : Matchers) (terms : List Text) (t : Text) (f : Found)
    → Memᴰ t terms
    → IsFound m terms f
    → IsFound m terms (note_term (parse_term m t) f)
unfolding note_term
note_term-IsFound m terms t f here v = elim (Option-cases (parse_term m t)) [
  | inl e ↦ rw (e, note_term) v
  | inr ((c, eq), e) ↦ elim (Bool-cases (has_column c f.equality)) [
    | inl h ↦ rw (e, note_term) (rw h v)
    | inr h ↦ elim (Bool-cases eq) [
      | inr q ↦
          rw (e, note_term)
            (rw (h, q)
              (record {
                few = v.few;
                distinct = v.distinct;
                equal = v.equal;
                ranged =
                    All-append (IsCompared m terms false) f.ranges (c ∷ []) v.ranged
                      ((t, here, rw (← q) e), tt);
              }))
      | inl q ↦ elim (Bool-cases (ltb (length f.equality) 3)) [
        | inr full ↦ rw (e, note_term) (rw (h, q, full) v)
        | inl room ↦
            rw (e, note_term)
              (rw (h, q, room)
                (record {
                  few = ground (arith, length-append f.equality (c ∷ []), room);
                  distinct = Distinct-snoc c f.equality (has_column-ne c f.equality h) v.distinct;
                  equal =
                      All-append (IsCompared m terms true) f.equality (c ∷ []) v.equal
                        ((t, here, rw (← q) e), tt);
                  ranged = v.ranged;
                }))
      ]
    ]
  ]
]

note_terms-IsFound :
    (m : Matchers) (terms ts : List Text) (f : Found)
    → All (λ t. Memᴰ t terms) ts
    → IsFound m terms f
    → IsFound m terms (note_terms m ts f)
unfolding note_terms
note_terms-IsFound m terms [] f a v = v
note_terms-IsFound m terms (t ∷ ts) f a v =
    note_terms-IsFound m terms ts (note_term (parse_term m t) f) a.1
      (note_term-IsFound m terms t f a.0 v)

first_range-found :
    (P : Text → Type 0) (seen cs : List Text)
    → All P cs
    → (length (first_range seen cs) ≤ 1)
      × All P (first_range seen cs)
      × All (λ c. All (λ x. x ≢ c) seen) (first_range seen cs)
unfolding first_range
first_range-found P seen [] a = (omega arith, tt, tt)
first_range-found P seen (c ∷ cs) a = elim (Bool-cases (has_column c seen)) [
  | inl h ↦ rw (h, first_range) (first_range-found P seen cs a.1)
  | inr h ↦ rw (h, first_range) (omega arith, (a.0, tt), (has_column-ne c seen h, tt))
]

Distinct-append_one :
    (xs ys : List Text)
    → length ys ≤ 1
    → Distinct self xs
    → All (λ c. All (λ x. x ≢ c) xs) ys
    → Distinct self (xs ++ ys)
Distinct-append_one xs [] h d a = rw (append_nil xs) d
Distinct-append_one xs (y ∷ []) h d a = Distinct-snoc y xs a.0 d
Distinct-append_one xs (y ∷ z ∷ ys) h d a = absurd (omega arith)

-- The key that IndexColumns proposes for a filter of AND terms: at most three columns, each compared for
-- equality by a term of the filter, and then at most one column that a term compares in a range; no
-- column stands twice.
pub index_columns-IsKey :
    (m : Matchers) (filter : Text) (terms : List Text)
    → split_and filter ≡ some terms
    → (eqs : List Text) × (range : List Text) × (index_columns m filter ≡ eqs ++ range)
      × (length eqs ≤ 3)
      × (length range ≤ 1)
      × All (IsCompared m terms true) eqs
      × All (IsCompared m terms false) range
      × Distinct self (index_columns m filter)
unfolding index_columns
index_columns-IsKey m filter terms h =
    let start : Found = record { equality = []; ranges = [] } in
    let f = note_terms m terms start in
    let v =
      note_terms-IsFound m terms terms start
        (All-of_Memᴰ (λ t. Memᴰ t terms) terms (λ t here. here))
        (record { few = omega arith; distinct = tt; equal = tt; ranged = tt }) in
    let (short, ranged, fresh) =
      first_range-found (IsCompared m terms false) f.equality f.ranges v.ranged in
    (
      f.equality,
      first_range f.equality f.ranges,
      rw (h, index_columns) refl,
      v.few,
      short,
      v.equal,
      ranged,
      rw (h, index_columns)
          (Distinct-append_one f.equality (first_range f.equality f.ranges) short v.distinct fresh),
    )
