-- ===== src/Analyzer/Indexes.antt =====
-- internal/analyzer/indexes.go, IndexAnalyzer: unused and duplicate indexes. Sizes, counts and times are not
-- negative, and the days of a window, a floating-point quotient in the source, are a whole-number one.
-- sort.Slice does not say how it orders equals: here it keeps their order.
pub mod Groups
pub mod Served
pub mod Retained
use Prim.Native.String.{String}
use better_pg_keeper.Common.{
  ℕ, zero, suc, ◌+◌, ◌-◌, ◌*◌, ◌/◌, ◌%◌, ◌⊎◌, inl, inr, ite, Bool, true, false, not, ◌&&◌, ◌||◌,
  Option, none, some, List, [], ◌∷◌, ◌++◌, map, length, ltb, leb, ◌==◌, ℕ_discrete, str_dec,
  str_less, decimal, sprint, find_by, assign, sort_by, fields, before_colon, has_text, has_texts,
  is_prefix, same_texts, if◌then◌else◌,
}
use better_pg_keeper.Models.{Severity, info, warning, Snapshot}

pub record IndexStat : Type 0 where
  pub schema_name : String
  pub rel_name : String
  pub index_rel_name : String
  pub idx_scan : ℕ
  pub index_size : ℕ
  pub is_unique : Bool
  pub is_primary : Bool
  pub access_method : String
  pub index_def : String
  pub key_columns : String
  pub include_columns : String
  pub expressions : String
  pub predicate : String
  pub backs_foreign_key : Bool
  pub stats_since : Option ℕ

pub data IssueType : Type 0 where
  unused duplicate : IssueType

pub record IndexIssue : Type 0 where
  pub schema_name : String
  pub table_name : String
  pub index_name : String
  pub issue_type : IssueType
  pub severity : Severity
  pub description : String
  pub index_size : ℕ
  pub idx_scan : ℕ
  pub is_unique : Bool
  pub is_primary : Bool
  pub duplicate_of : String
  pub duplicate_of_idx_scan : ℕ
  pub space_savings : ℕ
  pub index_def : String
  pub duplicate_of_def : String
  pub exact_duplicate : Bool
  pub stats_window : ℕ

-- The tenths of %.1f: below 2 ^ 53 the quotient by a power of two is exact, and the last digit is
-- rounded to the nearest, to the even one in the middle.
unfoldable pub tenths : ℕ → ℕ → ℕ
tenths n unit =
    let q = n * 10 / unit in
    let r = n * 10 % unit in
    if ltb (2 * r) unit then q else if ltb unit (2 * r) then q + 1 else q + q % 2

unfoldable pub one_decimal : ℕ → String
unfolding decimal
one_decimal t = sprint (decimal (t / 10) ∷ "." ∷ decimal (t % 10) ∷ [])

unfoldable pub format_bytes : ℕ → String
unfolding tenths one_decimal decimal
format_bytes n =
    if leb 1073741824 n
    then sprint (one_decimal (tenths n 1073741824) ∷ " GB" ∷ [])
    else if leb 1048576 n
    then sprint (one_decimal (tenths n 1048576) ∷ " MB" ∷ [])
    else if leb 1024 n
    then sprint (one_decimal (tenths n 1024) ∷ " KB" ∷ [])
    else sprint (decimal n ∷ " bytes" ∷ [])

abbrev pub large_unused_index_bytes : ℕ
large_unused_index_bytes = 104857600

-- The nanoseconds of a day.
abbrev pub day : ℕ
day = 86400000000000

-- asOf.Sub(since) is at least so many days; it may be negative.
unfoldable pub is_long_enough : ℕ → ℕ → ℕ → Bool
is_long_enough days as_of since = leb (since + days * day) as_of

-- The guards of the loop of detectUnusedIndexes.
unfoldable pub is_unused : ℕ → ℕ → IndexStat → Bool
unfolding is_long_enough
is_unused days as_of stat =
    not (stat.is_primary || stat.is_unique)
    && (not (ltb 0 stat.idx_scan)
        && (not stat.backs_foreign_key
            && (not (ltb stat.index_size 8192) && elim stat.stats_since [
              | none ↦ false
              | some since ↦ is_long_enough days as_of since
            ])))

abbrev pub window_of : ℕ → IndexStat → ℕ
window_of as_of stat = elim stat.stats_since [ none ↦ 0 | some since ↦ as_of - since ]

unfoldable pub unused_issue : ℕ → IndexStat → IndexIssue
unfolding format_bytes decimal
unused_issue as_of stat = record {
  schema_name = stat.schema_name;
  table_name = stat.rel_name;
  index_name = stat.index_rel_name;
  issue_type = unused;
  severity = if leb large_unused_index_bytes stat.index_size then warning else info;
  description = sprint (
      "Index has not been scanned in "
      ∷ decimal (window_of as_of stat / day)
      ∷ " days. Consider dropping to save "
      ∷ format_bytes stat.index_size
      ∷ "."
      ∷ []);
  index_size = stat.index_size;
  idx_scan = stat.idx_scan;
  is_unique = stat.is_unique;
  is_primary = stat.is_primary;
  duplicate_of = "";
  duplicate_of_idx_scan = 0;
  space_savings = stat.index_size;
  index_def = stat.index_def;
  duplicate_of_def = "";
  exact_duplicate = false;
  stats_window = window_of as_of stat;
}

unfoldable pub detect_unused_indexes : ℕ → ℕ → List IndexStat → List IndexIssue
unfolding is_unused unused_issue
detect_unused_indexes days as_of [] = []
detect_unused_indexes days as_of (stat ∷ stats) =
    let rest = detect_unused_indexes days as_of stats in
    if is_unused days as_of stat then unused_issue as_of stat ∷ rest else rest

unfoldable pub same_column_set : String → String → Bool
unfolding fields sort_by str_less same_texts
same_column_set a b = same_texts (sort_by str_less (fields a)) (sort_by str_less (fields b))

abbrev same_shape : IndexStat → IndexStat → Bool
same_shape c r =
    ite (str_dec c.access_method r.access_method)
      (ite (str_dec c.expressions r.expressions) (ite (str_dec c.predicate r.predicate) true false)
        false)
      false

-- retCols: the attribute numbers of the keys, and the included columns.
unfoldable pub columns_of : IndexStat → List String
unfolding fields before_colon
columns_of r = map before_colon (fields r.key_columns) ++ fields r.include_columns

-- Of two identical plain indexes the first is the one to keep.
unfoldable pub is_preferred : IndexStat → IndexStat → Bool
unfolding str_less
is_preferred c r =
    ltb r.idx_scan c.idx_scan
    || (c.idx_scan == r.idx_scan && str_less c.index_rel_name r.index_rel_name)

unfoldable pub same_keys : IndexStat → IndexStat → Bool
unfolding fields
same_keys c r = length (fields c.key_columns) == length (fields r.key_columns)

unfoldable pub is_exact : IndexStat → IndexStat → Bool
unfolding same_keys same_column_set
is_exact c r = same_keys c r && same_column_set c.include_columns r.include_columns

-- redundantWith: `some exact` if the candidate can be dropped.
unfoldable pub redundant_with : IndexStat → IndexStat → Option Bool
unfolding fields is_prefix has_texts columns_of is_preferred same_keys is_exact str_dec
redundant_with c r =
    if c.is_primary || c.is_unique
    then none
    else if not (same_shape c r)
    then none
    else if not (is_prefix (fields c.key_columns) (fields r.key_columns))
    then none
    else if not (has_texts (fields c.include_columns) (columns_of r))
    then none
    else if not (same_keys c r)
        && (ite (str_dec c.access_method "btree") false true
            || ite (str_dec c.expressions "") false true)
    then none
    else if is_exact c r && (not r.is_unique && (not r.is_primary && is_preferred c r))
    then none
    else some (is_exact c r)

abbrev pub is_some : {A : Type 0} → Option A → Bool
is_some none = false
is_some (some _) = true

-- The inner loop: some other index makes the candidate redundant.
unfoldable pub has_cover : IndexStat → List IndexStat → Bool
unfolding redundant_with str_dec
has_cover c [] = false
has_cover c (o ∷ os) =
    ite (str_dec c.index_rel_name o.index_rel_name) false (is_some (redundant_with c o))
    || has_cover c os

-- The names in the map `redundant`, with the indexes of the table in the second argument.
unfoldable pub redundant_names : List IndexStat → List IndexStat → List String
unfolding has_cover
redundant_names [] all = []
redundant_names (c ∷ cs) all =
    let rest = redundant_names cs all in if has_cover c all then c.index_rel_name ∷ rest else rest

-- The first index that is kept and makes the candidate redundant, and whether they are identical.
unfoldable pub find_retained : IndexStat → List String → List IndexStat → Option (IndexStat × Bool)
unfolding redundant_with has_text str_dec
find_retained c redundant [] = none
find_retained c redundant (r ∷ rs) =
    let rest = find_retained c redundant rs in
    ite (str_dec c.index_rel_name r.index_rel_name) rest (
      if has_text r.index_rel_name redundant
      then rest
      else elim (redundant_with c r) [ none ↦ rest | some exact ↦ some (r, exact) ])

unfoldable pub duplicate_issue : IndexStat → IndexStat → Bool → IndexIssue
unfolding format_bytes decimal
duplicate_issue c r exact = record {
  schema_name = c.schema_name;
  table_name = c.rel_name;
  index_name = c.index_rel_name;
  issue_type = duplicate;
  severity = info;
  description = sprint (
      "Index is covered by '"
      ∷ r.index_rel_name
      ∷ "'. Has "
      ∷ decimal c.idx_scan
      ∷ " scans vs "
      ∷ decimal r.idx_scan
      ∷ ". Consider dropping to save "
      ∷ format_bytes c.index_size
      ∷ "."
      ∷ []);
  index_size = c.index_size;
  idx_scan = c.idx_scan;
  is_unique = c.is_unique;
  is_primary = c.is_primary;
  duplicate_of = r.index_rel_name;
  duplicate_of_idx_scan = r.idx_scan;
  space_savings = c.index_size;
  index_def = c.index_def;
  duplicate_of_def = r.index_def;
  exact_duplicate = exact;
  stats_window = 0;
}

-- The second loop over the candidates of a table.
unfoldable pub report_redundant : List String → List IndexStat → List IndexStat → List IndexIssue
unfolding has_text find_retained duplicate_issue
report_redundant redundant [] all = []
report_redundant redundant (c ∷ cs) all =
    let rest = report_redundant redundant cs all in
    if has_text c.index_rel_name redundant
    then elim (find_retained c redundant all) [
      | none ↦ rest
      | some (r, exact) ↦ duplicate_issue c r exact ∷ rest
    ]
    else rest

-- The most scanned index first, equals by name.
unfoldable pub more_scanned : IndexStat → IndexStat → Bool
unfolding str_less
more_scanned a b =
    if a.idx_scan == b.idx_scan
    then str_less a.index_rel_name b.index_rel_name
    else ltb b.idx_scan a.idx_scan

abbrev pub Group : Type 0
Group = String × List IndexStat

abbrev pub group_key : Group → String
group_key g = g.0

abbrev pub table_key : IndexStat → String
table_key stat = sprint (stat.schema_name ∷ "." ∷ stat.rel_name ∷ [])

unfoldable pub members : String → List Group → List IndexStat
unfolding find_by
members k m = elim (find_by group_key str_dec k m) [ none ↦ [] | some g ↦ g.1 ]

-- tableIndexes: the indexes whose definition is known, under their table.
unfoldable pub group_tables : List IndexStat → List Group → List Group
unfolding members assign str_dec
group_tables [] m = m
group_tables (stat ∷ stats) m = group_tables stats (
    ite (str_dec stat.key_columns "") m
      (assign group_key str_dec (table_key stat, members (table_key stat) m ++ stat ∷ []) m))

unfoldable pub detect_in_table : Group → List IndexIssue
unfolding sort_by more_scanned redundant_names report_redundant
detect_in_table (_, indexes) =
    let sorted = sort_by more_scanned indexes in
    report_redundant (redundant_names sorted sorted) sorted sorted

unfoldable pub detect_in_tables : List Group → List IndexIssue
unfolding detect_in_table
detect_in_tables [] = []
detect_in_tables (g ∷ gs) = detect_in_table g ++ detect_in_tables gs

-- `order` is the order in which `range` visits the map.
unfoldable pub detect_duplicate_indexes :
    (List Group → List Group) → List IndexStat → List IndexIssue
unfolding group_tables detect_in_tables
detect_duplicate_indexes order stats = detect_in_tables (order (group_tables stats []))

unfoldable pub saves_more : IndexIssue → IndexIssue → Bool
saves_more a b = ltb b.space_savings a.space_savings

-- What Analyze returns for the statistics of a snapshot taken at `as_of`.
unfoldable pub index_issues : (List Group → List Group) → ℕ → ℕ → List IndexStat → List IndexIssue
unfolding detect_unused_indexes detect_duplicate_indexes saves_more sort_by
index_issues order days as_of stats =
    sort_by saves_more
      (detect_unused_indexes days as_of stats ++ detect_duplicate_indexes order stats)

-- IndexAnalyzer.Analyze; `now` stands for the time of a snapshot that is gone.
unfoldable pub analyze_indexes :
    {S : Type 0}
    → (ℕ → S → (String ⊎ List IndexStat) × S)
    → (ℕ → S → (String ⊎ Option Snapshot) × S)
    → (List Group → List Group)
    → ℕ
    → ℕ
    → ℕ
    → S
    → (String ⊎ List IndexIssue) × S
unfolding index_issues
analyze_indexes get_index_stats get_snapshot_by_id order days now id s =
    let (stats, s') = get_index_stats id s in
    elim stats [
      | inl e ↦ (inl e, s')
      | inr [] ↦ (inr [], s')
      | inr (x ∷ xs) ↦
          let (snap, s'') = get_snapshot_by_id id s' in
          (
            elim snap [
              | inl e ↦ inl e
              | inr none ↦ inr (index_issues order days now (x ∷ xs))
              | inr (some sn) ↦ inr (index_issues order days sn.captured_at (x ∷ xs))
            ],
            s'',
          )
    ]
