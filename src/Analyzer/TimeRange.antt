-- ===== src/Analyzer/TimeRange.antt =====
-- internal/analyzer/main.go, AnalyzeWithTimeRange: an analysis of what happened between two snapshots. The
-- steps that do not read intervals are those of Analyze.
pub mod Read
use Prim.Native.String.{String}
use better_pg_keeper.Common.{
  ℕ, zero, suc, ◌⊎◌, inl, inr, true, Option, none, some, [], ◌∷◌, sprint, decimal, if◌then◌else◌,
}
use better_pg_keeper.Analyzer.Coverage.{AnalysisResult, domain_coverage, usable}
use better_pg_keeper.Analyzer.Domains
use better_pg_keeper.Analyzer.Domains.{Storage, Config}
use better_pg_keeper.Common.{List}
use better_pg_keeper.Analyzer.Main.{
  Kinds, Findings, Calls, Call, Run, snapshot_for, fail_domain, keep_slow_queries, with_cache,
  table_step, index_step, analyze_operational, begin,
}

-- The calls that read the interval from one snapshot to another.
pub record RangeCalls (K : Kinds) (S : Type 0) : Type 0 where
  pub analyze_with_deltas : ℕ → ℕ → Call S (List K.SlowQuery)
  pub add_query_deltas : ℕ → ℕ → K.CacheAnalysis → S → (Option String × K.CacheAnalysis) × S

module _ {K : Kinds} {S : Type 0} (calls : Calls K S) (deltas : RangeCalls K S) (from to : ℕ) where
  -- The slow queries; the call is made whatever the coverage is.
  unfoldable pub delta_step : Run K S → Run K S
  unfolding fail_domain
  delta_step (r, s) =
      let (found, s') = deltas.analyze_with_deltas from to s in
      (
        elim found [
          | inl e ↦ fail_domain Domains.query_stats "slow query analysis" e r
          | inr a ↦ keep_slow_queries a r
        ],
        s',
      )

  unfoldable pub add_deltas : K.CacheAnalysis → Run K S → Run K S
  unfolding fail_domain domain_coverage usable
  add_deltas c (r, s) =
      let ((failed, c'), s') = deltas.add_query_deltas from to c s in
      let r' = with_cache c' r in
      let added : Run K S = (
        elim failed [
          | none ↦ r'
          | some e ↦ fail_domain Domains.query_stats "query cache analysis" e r'
        ],
        s',
      ) in
      if usable (domain_coverage r Domains.query_stats) then added else (with_cache c r, s)

  unfoldable pub range_cache_step : Run K S → Run K S
  unfolding snapshot_for fail_domain add_deltas
  range_cache_step (r, s) = elim (snapshot_for r Domains.database_stats) [
    | zero ↦ (r, s)
    | suc n ↦
        let (found, s') = calls.analyze_overall (suc n) s in
        elim found [
          | inl e ↦ (fail_domain Domains.database_stats "cache analysis" e r, s')
          | inr c ↦ add_deltas c (r, s')
        ]
  ]

  unfoldable pub run_range : Run K S → Run K S
  unfolding delta_step range_cache_step table_step index_step analyze_operational
  run_range x =
      analyze_operational calls
        (index_step calls (table_step calls (range_cache_step (delta_step x))))

module _ {K : Kinds} {S : Type 0} (storage : Storage S) (config : Config) (calls : Calls K S)
    (deltas : RangeCalls K S) (now : ℕ) where
  -- AnalyzeWithTimeRange
  unfoldable pub analyze_with_time_range :
      (from to : ℕ) → S → (String ⊎ AnalysisResult (Findings K)) × S
  unfolding begin run_range
  analyze_with_time_range from to s =
      let (found, s') = storage.get_snapshot_by_id to s in
      elim found [
        | inl e ↦ (inl (sprint ("getting snapshot: " ∷ e ∷ [])), s')
        | inr none ↦ (inl (sprint ("snapshot " ∷ decimal to ∷ " not found" ∷ [])), s')
        | inr (some snapshot) ↦
            let (r, s'') =
              run_range calls deltas from to (begin storage config now to snapshot s') in
            (inr r, s'')
      ]
