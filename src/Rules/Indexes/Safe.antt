-- ===== src/Rules/Indexes/Safe.antt =====
-- internal/suggester/rules/duplicate_index.go and unused_index.go over internal/analyzer/indexes.go: which indexes
-- the two rules say to drop.
use Prim.Native.String.{String}
use better_pg_keeper.Common.{
  ℕ, ◌+◌, ◌*◌, ◌≤◌, ◌≡◌, ◌⊎◌, Bool, true, false, some, List, [], ◌∷◌, Memᴰ, str_dec, find_by,
  sprint, if◌then◌else◌,
}
use better_pg_keeper.Models.{warning, info}
use better_pg_keeper.Analyzer.Indexes.{
  IndexStat, IndexIssue, duplicate, is_unused, unused_issue, redundant_with,
}
use better_pg_keeper.Analyzer.Indexes.Served.{IsServed}
use better_pg_keeper.Analyzer.Indexes.Retained.{IsCovered}
use better_pg_keeper.Suggester.Rule.{Suggestion}
use better_pg_keeper.Rules.Shared.{Value, str, Metadata}

abbrev pub index_target : IndexStat → String
index_target c = sprint (c.schema_name ∷ "." ∷ c.rel_name ∷ "." ∷ c.index_rel_name ∷ [])

abbrev pub entry_key : {R : Type 0} → String × Value R → String
entry_key e = e.0

-- The suggestion is about an index of the statistics that enforces no constraint.
pub record IsAbout {R : Type 0} (index : IndexStat) (stats : List IndexStat)
    (s : Suggestion (Metadata R)) : Type 0 where
  pub there : Memᴰ index stats
  pub not_unique : index.is_unique ≡ false
  pub not_primary : index.is_primary ≡ false
  pub target : s.target_object ≡ index_target index

-- The index has had no scans since a reset of the counters that is at least so many days of 24 hours before
-- the snapshot, takes two pages or more, and backs no foreign key.
pub record IsIdle (days as_of : ℕ) (index : IndexStat) : Type 0 where
  pub no_scans : index.idx_scan ≡ 0
  pub no_foreign_key : index.backs_foreign_key ≡ false
  pub two_pages : 8192 ≤ index.index_size
  pub since : ℕ
  pub reset : index.stats_since ≡ some since
  pub long : since + days * (24 * 3600 * 1000000000) ≤ as_of

abbrev pub IsUnusedDrop : {R : Type 0} → ℕ → ℕ → List IndexStat → Suggestion (Metadata R) → Type 0
IsUnusedDrop days as_of stats s =
    (index : IndexStat) × IsAbout index stats s × IsIdle days as_of index

-- Another index of its table makes it redundant, and the suggestion names it; identical ones give a
-- warning.
pub record IsRedundantDrop {R : Type 0} (stats : List IndexStat) (s : Suggestion (Metadata R))
    : Type 0 where
  pub index : IndexStat
  pub retained : IndexStat
  pub exact : Bool
  pub about : IsAbout index stats s
  pub retained_there : Memᴰ retained stats
  pub same_schema : index.schema_name ≡ retained.schema_name
  pub same_table : index.rel_name ≡ retained.rel_name
  pub covered : redundant_with index retained ≡ some exact
  pub served : IsServed index retained
  pub named :
      find_by entry_key str_dec "duplicate_of" s.metadata
      ≡ some ("duplicate_of", str retained.index_rel_name)
  pub severity : s.severity ≡ (if exact then warning else info)

module _ (days as_of : ℕ) (stats : List IndexStat) where
  abbrev IsUnusedIssue : IndexIssue → Type 0
  IsUnusedIssue i =
      (c : IndexStat) × Memᴰ c stats × (is_unused days as_of c ≡ true) × (i ≡ unused_issue as_of c)

  abbrev IsFound : IndexIssue → Type 0
  IsFound i = IsUnusedIssue i ⊎ ((i.issue_type ≡ duplicate) × IsCovered stats i)

abbrev IsDuplicate : IndexIssue → Type 0
IsDuplicate i = i.issue_type ≡ duplicate
