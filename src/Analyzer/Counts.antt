-- ===== src/Analyzer/Counts.antt =====
-- internal/analyzer/main.go, GetIssueCount, GetCriticalCount and GetWarningCount, on the findings of an analysis.
-- `R` is float64, of which they read nothing.
use Prim.Native.String.{String}
use better_pg_keeper.Common.{
  ℕ, ◌+◌, ◌≡◌, refl, Bool, true, false, Option, none, some, List, [], ◌∷◌, length, arith,
  if◌then◌else◌,
}
use better_pg_keeper.Models.{Severity, critical, warning}
use better_pg_keeper.Analyzer.Indexes.{IndexIssue}
use better_pg_keeper.Analyzer.Main.{Kinds, Findings}

pub record PoorCacheQuery (R : Type 0) : Type 0 where
  pub queryid : ℕ
  pub query : String
  pub cache_hit_ratio : R
  pub blks_hit : ℕ
  pub blks_read : ℕ
  pub query_calls : ℕ

pub record CacheAnalysis (R : Type 0) : Type 0 where
  pub overall_hit_ratio : R
  pub below_threshold : Bool
  pub threshold : R
  pub tracked_queries : ℕ
  pub poor_cache_queries : List (PoorCacheQuery R)

pub record TableIssue (R : Type 0) : Type 0 where
  pub schema_name : String
  pub table_name : String
  pub issue_type : String
  pub severity : Severity
  pub current_value : R
  pub threshold : R
  pub description : String
  pub last_vacuum : Option ℕ
  pub last_analyze : Option ℕ
  pub n_dead_tup : ℕ
  pub n_live_tup : ℕ
  pub table_size : ℕ
  pub seq_scan_ratio : R

-- Findings with these issues, and any others.
abbrev pub issue_kinds : Type 0 → Kinds → Kinds
issue_kinds R K = record K {
  CacheAnalysis = CacheAnalysis R;
  TableIssue = TableIssue R;
  IndexIssue = IndexIssue;
}

abbrev is_critical : Severity → Bool
is_critical critical = true
is_critical _ = false

abbrev is_warning : Severity → Bool
is_warning warning = true
is_warning _ = false

-- The loop of a count.
unfoldable pub count_if : {A : Type 0} → (A → Bool) → List A → ℕ
count_if p [] = 0
count_if p (x ∷ xs) = let rest = count_if p xs in if p x then rest + 1 else rest

module _ (R : Type 0) (K : Kinds) where
  unfoldable pub get_issue_count : Findings (issue_kinds R K) → ℕ
  get_issue_count f =
      let count = length f.slow_queries + length f.table_issues + length f.index_issues in
      elim f.cache_stats [
        | none ↦ count
        | some c ↦
            let count' = count + length c.poor_cache_queries in
            if c.below_threshold then count' + 1 else count'
      ]

  unfoldable pub get_critical_count : Findings (issue_kinds R K) → ℕ
  unfolding count_if
  get_critical_count f =
      count_if (λ i. is_critical i.severity) f.table_issues
      + count_if (λ i. is_critical i.severity) f.index_issues

  unfoldable pub get_warning_count : Findings (issue_kinds R K) → ℕ
  unfolding count_if
  get_warning_count f =
      length f.slow_queries
      + elim f.cache_stats [ none ↦ 0 | some c ↦ if c.below_threshold then 1 else 0 ]
      + count_if (λ i. is_warning i.severity) f.table_issues
      + count_if (λ i. is_warning i.severity) f.index_issues

abbrev pub is_minor : Severity → Bool
is_minor critical = false
is_minor warning = false
is_minor _ = true

-- Each issue has one severity.
count_if-severity :
    {A : Type 0} (severity : A → Severity) (xs : List A)
    → length xs
      ≡ count_if (λ i. is_critical (severity i)) xs
        + count_if (λ i. is_warning (severity i)) xs
        + count_if (λ i. is_minor (severity i)) xs
unfolding count_if
count_if-severity severity [] = refl
count_if-severity severity (x ∷ xs) = ground (arith, count_if-severity severity xs)

-- What GetIssueCount counts is what the other two count, and besides it the issues that are neither
-- critical nor a warning, and the queries with a poor cache ratio, which have no severity.
pub get_issue_count-partition :
    (R : Type 0) (K : Kinds) (f : Findings (issue_kinds R K))
    → get_issue_count R K f
      ≡ get_critical_count R K f
        + get_warning_count R K f
        + count_if (λ i. is_minor i.severity) f.table_issues
        + count_if (λ i. is_minor i.severity) f.index_issues
        + elim f.cache_stats [ none ↦ 0 | some c ↦ length c.poor_cache_queries ]
unfolding get_issue_count get_critical_count get_warning_count
get_issue_count-partition R K f = ground (
  arith,
  count_if-severity (λ i. i.severity) f.table_issues,
  count_if-severity (λ i. i.severity) f.index_issues,
)
