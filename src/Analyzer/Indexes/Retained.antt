-- ===== src/Analyzer/Indexes/Retained.antt =====
-- internal/analyzer/indexes.go, detectDuplicateIndexes: every index that a finding says to keep is kept.
use Prim.Native.Char.{Char}
use Prim.Native.String
use Prim.Native.String.{String}
use mathlib.Core.Path.{ap₂}
use text.Mathlib.TextLemmas.{nil-append, cons-append}
use better_pg_keeper.Common.{
  ◌≡◌, refl, ◌∙◌, sym, ap, IsFree, split_unique, All-Memᴰ, inl, inr, if_pos, if_neg, Bool, true,
  false, ◌||◌, Option, some, List, [], ◌∷◌, str_dec, All, All-mono, All-append, All-sort_by, Memᴰ,
  IsOrder, arith, Bool-cases, Option-cases, has_text, sort_by, sprint,
}
use better_pg_keeper.Analyzer.Indexes.{
  IndexStat, IndexIssue, Group, table_key, group_tables, redundant_with, redundant_names,
  find_retained, report_redundant, duplicate_issue, more_scanned, detect_in_table, detect_in_tables,
  detect_duplicate_indexes,
}
use better_pg_keeper.Analyzer.Indexes.Served.{IsServed, redundant_with-IsServed}
use better_pg_keeper.Analyzer.Indexes.Groups.{group_of, group_tables-groups, group_of-members}

-- What redundant_with asks of a candidate: it enforces no constraint.
redundant_with-plain :
    (c r : IndexStat) (e : Bool)
    → redundant_with c r ≡ some e
    → (c.is_unique ≡ false) × (c.is_primary ≡ false)
unfolding redundant_with
redundant_with-plain c r e h = elim (Bool-cases (c.is_primary || c.is_unique)) [
  | inl t ↦ let h' = rw (t, redundant_with) at h in absurd (cc)
  | inr f ↦ (ground (arith, f), ground (arith, f))
]

some-pair :
    {A B : Type 0} {x y : A} {b d : B}
    → ◌≡◌ {A = Option (A × B)} (some (x, b)) (some (y, d))
    → (x ≡ y) × (b ≡ d)
some-pair h = (cc, cc)

module _ (P : IndexStat → Type 0) (c : IndexStat) (redundant : List String) where
  find_retained-some :
      (rs : List IndexStat) (r : IndexStat) (e : Bool)
      → find_retained c redundant rs ≡ some (r, e)
      → All P rs
      → P r × (has_text r.index_rel_name redundant ≡ false) × (redundant_with c r ≡ some e)
  unfolding find_retained
  find_retained-some [] r e h a = absurd (cc)
  find_retained-some (x ∷ rs) r e h a = elim (str_dec c.index_rel_name x.index_rel_name) [
    | yes p ↦
        find_retained-some rs r e (rw (if_pos (str_dec c.index_rel_name x.index_rel_name) p) at h)
          a.1
    | no n ↦
        let h' = rw (if_neg (str_dec c.index_rel_name x.index_rel_name) n) at h in
        elim (Bool-cases (has_text x.index_rel_name redundant)) [
          | inl t ↦ find_retained-some rs r e (rw t at h') a.1
          | inr f ↦
              let h'' = rw f at h' in
              elim (Option-cases (redundant_with c x)) [
                | inl q ↦ find_retained-some rs r e (rw q at h'') a.1
                | inr (b, q) ↦ let (er, eb) = some-pair (rw q at h'') in rw (← er, ← eb) (a.0, f, q)
              ]
        ]
  ]

abbrev issue_key : IndexIssue → String
issue_key i = sprint (i.schema_name ∷ "." ∷ i.table_name ∷ [])

abbrev pub dot : Char
dot = "."

-- The schema's name holds no dot, so that the key of the map tells the tables apart.
abbrev pub IsPlainSchema : IndexStat → Type 0
IsPlainSchema c = IsFree dot c.schema_name

table_key-append :
    (c : IndexStat) → table_key c ≡ String.◌++◌ c.schema_name (String.◌∷◌ dot c.rel_name)
table_key-append c =
    ap (String.◌++◌ c.schema_name)
      (cons-append dot "" c.rel_name ∙ ap (String.◌∷◌ dot) (nil-append c.rel_name))

table_key-injective :
    (c r : IndexStat)
    → IsPlainSchema c
    → IsPlainSchema r
    → table_key c ≡ table_key r
    → (c.schema_name ≡ r.schema_name) × (c.rel_name ≡ r.rel_name)
table_key-injective c r f g e =
    split_unique dot c.schema_name r.schema_name c.rel_name r.rel_name f g
      (sym (table_key-append c) ∙ e ∙ table_key-append r)

-- The finding is about an index of the statistics that enforces no constraint, and names another one of
-- the same table that makes it redundant.
pub record IsCovered (stats : List IndexStat) (i : IndexIssue) : Type 0 where
  pub candidate : IndexStat
  pub retained : IndexStat
  pub candidate_there : Memᴰ candidate stats
  pub retained_there : Memᴰ retained stats
  pub same_schema : candidate.schema_name ≡ retained.schema_name
  pub same_table : candidate.rel_name ≡ retained.rel_name
  pub of_schema : i.schema_name ≡ candidate.schema_name
  pub of_table : i.table_name ≡ candidate.rel_name
  pub named : i.index_name ≡ candidate.index_rel_name
  pub names : i.duplicate_of ≡ retained.index_rel_name
  pub plain : (candidate.is_unique ≡ false) × (candidate.is_primary ≡ false)
  pub covered : redundant_with candidate retained ≡ some i.exact_duplicate
  pub served : IsServed candidate retained

-- The names that are dropped from a table.
abbrev dropped : String → List IndexStat → List String
dropped k stats =
    redundant_names (sort_by more_scanned (group_of k stats))
      (sort_by more_scanned (group_of k stats))

abbrev IsSettled : List IndexStat → IndexIssue → Type 0
IsSettled stats i =
    IsCovered stats i
    × (has_text i.index_name (dropped (issue_key i) stats) ≡ true)
    × (has_text i.duplicate_of (dropped (issue_key i) stats) ≡ false)

module _ (stats : List IndexStat) (k : String) where
  abbrev Here : IndexStat → Type 0
  Here c = (table_key c ≡ k) × IsPlainSchema c × Memᴰ c stats

  report_redundant-IsSettled :
      (cs all : List IndexStat)
      → All Here cs
      → All Here all
      → All (IsSettled stats) (report_redundant (dropped k stats) cs all)
  unfolding report_redundant duplicate_issue
  report_redundant-IsSettled [] all a b = tt
  report_redundant-IsSettled (c ∷ cs) all a b =
      let rest = report_redundant-IsSettled cs all a.1 b in
      elim (Bool-cases (has_text c.index_rel_name (dropped k stats))) [
        | inr f ↦ rw (f, report_redundant) rest
        | inl t ↦ elim (Option-cases (find_retained c (dropped k stats) all)) [
          | inl q ↦ rw (t, report_redundant) (rw q rest)
          | inr ((r, e), q) ↦
              let (here, kept, cover) = find_retained-some Here c (dropped k stats) all r e q b in
              let (schema, table) = table_key-injective c r a.0.1 here.1 (a.0.0 ∙ sym here.0) in
              rw (t, report_redundant)
                (rw q (
                  (
                    record {
                      candidate = c;
                      retained = r;
                      candidate_there = a.0.2;
                      retained_there = here.2;
                      same_schema = schema;
                      same_table = table;
                      of_schema = refl;
                      of_table = refl;
                      named = refl;
                      names = refl;
                      plain = redundant_with-plain c r e cover;
                      covered = cover;
                      served = redundant_with-IsServed c r e cover;
                    },
                    rw a.0.0 t,
                    rw a.0.0 kept,
                  ),
                  rest,
                ))
        ]
      ]

module _ (stats : List IndexStat) (plain : All IsPlainSchema stats) where
  group_of-Here : (k : String) → All (Here stats k) (group_of k stats)
  group_of-Here k =
      All-mono (λ c. (table_key c ≡ k) × Memᴰ c stats) (Here stats k)
        (λ c h. (h.0, All-Memᴰ IsPlainSchema plain h.1, h.1)) (group_of k stats)
        (group_of-members k stats)

  detect_in_table-IsSettled :
      (g : Group) → g.1 ≡ group_of g.0 stats → All (IsSettled stats) (detect_in_table g)
  unfolding detect_in_table
  detect_in_table-IsSettled (k, l) e =
      let here = All-sort_by more_scanned (Here stats k) (group_of k stats) (group_of-Here k) in
      rw e (
        report_redundant-IsSettled stats k (sort_by more_scanned (group_of k stats))
          (sort_by more_scanned (group_of k stats)) here here)

  detect_in_tables-IsSettled :
      (gs : List Group)
      → All (λ g. g.1 ≡ group_of g.0 stats) gs
      → All (IsSettled stats) (detect_in_tables gs)
  unfolding detect_in_tables
  detect_in_tables-IsSettled [] a = tt
  detect_in_tables-IsSettled (g ∷ gs) a =
      All-append (IsSettled stats) (detect_in_table g) (detect_in_tables gs)
        (detect_in_table-IsSettled g a.0) (detect_in_tables-IsSettled gs a.1)

-- The finding is about the same table and says to drop the index that the other says to keep.
abbrev pub IsConflict : IndexIssue → IndexIssue → Type 0
IsConflict i j =
    (j.schema_name ≡ i.schema_name)
    × (j.table_name ≡ i.table_name)
    × (j.index_name ≡ i.duplicate_of)

settled-ne :
    (stats : List IndexStat) (i j : IndexIssue)
    → IsSettled stats i
    → IsSettled stats j
    → ¬ IsConflict i j
settled-ne stats i j a b (schema, table, name) =
    let key : issue_key j ≡ issue_key i = ap₂ (λ s t. sprint (s ∷ "." ∷ t ∷ [])) schema table in
    let t = rw (key, name) at (b.1) in let f = a.2 in absurd (cc)

-- If no schema name holds a dot, then, whatever else the indexes are and in whatever order the tables
-- are visited: each finding about a duplicate index is about an index of the statistics that is neither
-- unique nor a primary key, and names another index of the same schema and table that makes it
-- redundant, of the same method, expressions and predicate, and with key columns that start with those of
-- the first; and no finding about the same table, in the whole result, says to drop the index that it
-- names.
pub detect_duplicate_indexes-retains :
    (order : List Group → List Group)
    → IsOrder order
    → (stats : List IndexStat) → All IsPlainSchema stats
    → All
        (λ i.
          IsCovered stats i × All (λ j. ¬ IsConflict i j) (detect_duplicate_indexes order stats))
        (detect_duplicate_indexes order stats)
unfolding detect_duplicate_indexes
detect_duplicate_indexes-retains order iteration stats plain =
    let settled =
      detect_in_tables-IsSettled stats plain (order (group_tables stats []))
        (iteration.keeps _ (group_tables stats []) (group_tables-groups stats)) in
    All-mono (IsSettled stats) _
      (λ i a. (
        a.0,
        All-mono (IsSettled stats) (λ j. ¬ IsConflict i j) (λ j b. settled-ne stats i j a b)
            (detect_in_tables (order (group_tables stats []))) settled,
      ))
      (detect_in_tables (order (group_tables stats []))) settled
