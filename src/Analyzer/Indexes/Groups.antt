-- ===== src/Analyzer/Indexes/Groups.antt =====
-- internal/analyzer/indexes.go: the map of the indexes of each table holds exactly them, in their order.
use Prim.Native.String.{String}
use better_pg_keeper.Common.{
  ◌≡◌, refl, ◌∙◌, sym, ap, ite, if_pos, if_neg, some, List, [], ◌∷◌, ◌++◌, str_dec, find_by, assign,
  find_by-assign, assign-Distinct, find_by_self, Distinct, append_assoc, append_nil, All, All-mono,
  Memᴰ, arith,
}
use better_pg_keeper.Analyzer.Indexes.{
  IndexStat, Group, group_key, table_key, members, group_tables,
}

-- The indexes of a table whose definition is known.
unfoldable pub group_of : String → List IndexStat → List IndexStat
unfolding str_dec
group_of k [] = []
group_of k (x ∷ xs) =
    ite (str_dec x.key_columns "") (group_of k xs)
      (ite (str_dec (table_key x) k) (x ∷ group_of k xs) (group_of k xs))

add : IndexStat → List Group → List Group
add x m =
    ite (str_dec x.key_columns "") m
      (assign group_key str_dec (table_key x, members (table_key x) m ++ x ∷ []) m)

members-assign :
    (k j : String) (l : List IndexStat) (m : List Group)
    → members k (assign group_key str_dec (j, l) m) ≡ ite (str_dec j k) l (members k m)
unfolding members
members-assign k j l m = ground (arith, find_by-assign group_key str_dec k (j, l) m)

members-add :
    (k : String) (x : IndexStat) (m : List Group)
    → members k (add x m) ≡ members k m ++ group_of k (x ∷ [])
unfolding add group_of
members-add k x m =
    let law = members-assign k (table_key x) (members (table_key x) m ++ x ∷ []) m in
    let nil = append_nil (members k m) in
    elim (str_dec x.key_columns "") [
      | yes e ↦
          rw (if_pos (str_dec x.key_columns "") e, if_pos (str_dec x.key_columns "") e) (sym nil)
      | no n ↦ elim (str_dec (table_key x) k) [
        | yes p ↦
            rw
              (
                if_neg (str_dec x.key_columns "") n,
                if_neg (str_dec x.key_columns "") n,
                law,
                if_pos (str_dec (table_key x) k) p,
                if_pos (str_dec (table_key x) k) p,
                p,
              )
              refl
        | no q ↦
            rw
              (
                if_neg (str_dec x.key_columns "") n,
                if_neg (str_dec x.key_columns "") n,
                law,
                if_neg (str_dec (table_key x) k) q,
                if_neg (str_dec (table_key x) k) q,
              )
              (sym nil)
      ]
    ]

group_of-cons :
    (k : String) (x : IndexStat) (xs : List IndexStat)
    → group_of k (x ∷ []) ++ group_of k xs ≡ group_of k (x ∷ xs)
unfolding group_of
group_of-cons k x xs = ground arith

members-group_tables :
    (k : String) (xs : List IndexStat) (m : List Group)
    → members k (group_tables xs m) ≡ members k m ++ group_of k xs
unfolding group_tables group_of add
members-group_tables k [] m = sym (append_nil (members k m))
members-group_tables k (x ∷ xs) m =
    members-group_tables k xs (add x m)
    ∙ ap (λ l. l ++ group_of k xs) (members-add k x m)
    ∙ append_assoc (members k m) (group_of k (x ∷ [])) (group_of k xs)
    ∙ ap (λ l. members k m ++ l) (group_of-cons k x xs)

add-Distinct :
    (x : IndexStat) (m : List Group) → Distinct group_key m → Distinct group_key (add x m)
unfolding add
add-Distinct x m d = elim (str_dec x.key_columns "") [
  | yes e ↦ rw (if_pos (str_dec x.key_columns "") e) d
  | no n ↦ rw (if_neg (str_dec x.key_columns "") n) (assign-Distinct group_key str_dec _ m d)
]

group_tables-Distinct :
    (xs : List IndexStat) (m : List Group)
    → Distinct group_key m
    → Distinct group_key (group_tables xs m)
unfolding group_tables add
group_tables-Distinct [] m d = d
group_tables-Distinct (x ∷ xs) m d = group_tables-Distinct xs (add x m) (add-Distinct x m d)

members-found :
    (k : String) (m : List Group) (g : Group)
    → find_by group_key str_dec k m ≡ some g
    → members k m ≡ g.1
unfolding members
members-found k m g h = rw (h, members) refl

-- Each entry of the map holds the indexes of its table, in the order of the statistics.
pub group_tables-groups :
    (xs : List IndexStat) → All (λ g. g.1 ≡ group_of g.0 xs) (group_tables xs [])
unfolding members find_by
group_tables-groups xs =
    All-mono (λ g. find_by group_key str_dec g.0 (group_tables xs []) ≡ some g) _
      (λ g h. sym (members-found g.0 (group_tables xs []) g h) ∙ members-group_tables g.0 xs [])
      (group_tables xs [])
      (find_by_self group_key str_dec (group_tables xs []) (group_tables-Distinct xs [] tt))

-- The indexes of a table are among the statistics.
pub group_of-members :
    (k : String) (xs : List IndexStat) → All (λ c. (table_key c ≡ k) × Memᴰ c xs) (group_of k xs)
unfolding group_of
group_of-members k [] = tt
group_of-members k (x ∷ xs) =
    let rest =
      All-mono _ (λ c. (table_key c ≡ k) × Memᴰ c (x ∷ xs)) (λ c h. (h.0, Memᴰ.tail h.1))
        (group_of k xs) (group_of-members k xs) in
    elim (str_dec x.key_columns "") [
      | yes e ↦ rw (if_pos (str_dec x.key_columns "") e) rest
      | no n ↦ elim (str_dec (table_key x) k) [
        | yes p ↦
            rw (if_neg (str_dec x.key_columns "") n, if_pos (str_dec (table_key x) k) p)
              ((p, Memᴰ.head refl), rest)
        | no q ↦ rw (if_neg (str_dec x.key_columns "") n, if_neg (str_dec (table_key x) k) q) rest
      ]
    ]
