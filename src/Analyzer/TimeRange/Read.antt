-- ===== src/Analyzer/TimeRange/Read.antt =====
-- internal/analyzer/main.go, AnalyzeWithTimeRange: a usable query domain was read over the interval.
use better_pg_keeper.Common.{
  ℕ, suc, ℕ-cases, Sum-cases, Option-cases, Bool-cases, ◌≡◌, refl, ◌⊎◌, inl, inr, false, none, some,
  List, [], ◌∷◌,
}
use better_pg_keeper.Analyzer.Coverage.{AnalysisResult, domain_coverage, usable}
use better_pg_keeper.Analyzer.Domains
use better_pg_keeper.Analyzer.Domains.{Storage, Config}
use better_pg_keeper.Analyzer.Main.{
  Kinds, Findings, Calls, Run, snapshot_for, table_step, index_step, activity_step, lock_step,
  transaction_step, plan_step, risk_step, settings_step, analyze_operational, begin,
}
use better_pg_keeper.Analyzer.Main.Same.{Same, Same-refl, Same-put, Same-fail}
use better_pg_keeper.Analyzer.Main.Steps.{
  Keeps-table_step, Keeps-index_step, Keeps-activity_step, Keeps-lock_step, Keeps-transaction_step,
  Keeps-plan_step, Keeps-risk_step, Keeps-settings_step,
}
use better_pg_keeper.Analyzer.Main.Answers.{compose, Same-compose, fail_domain-ne-usable}
use better_pg_keeper.Analyzer.TimeRange.{
  RangeCalls, delta_step, add_deltas, range_cache_step, run_range, analyze_with_time_range,
}

module _ {K : Kinds} {S : Type 0} (calls : Calls K S) (deltas : RangeCalls K S) (from to : ℕ) where
  abbrev get_slow_queries : Findings K → List K.SlowQuery
  get_slow_queries f = f.slow_queries

  -- The slow queries of a usable query domain are what the call returned for the interval.
  abbrev pub IsIntervalRead : AnalysisResult (Findings K) → Type 0
  IsIntervalRead r =
      (usable (domain_coverage r Domains.query_stats) ≡ false)
      ⊎ ((s : S) × ((deltas.analyze_with_deltas from to s).0 ≡ inr r.findings.slow_queries))

  abbrev KeepsQueries : AnalysisResult (Findings K) → AnalysisResult (Findings K) → Type 0
  KeepsQueries = Same Domains.query_stats get_slow_queries

  Same-add_deltas :
      (c : K.CacheAnalysis) (x : Run K S) → KeepsQueries x.0 (add_deltas calls deltas from to c x).0
  unfolding add_deltas
  Same-add_deltas c (r, s) =
      let put = λ (c : K.CacheAnalysis).
        Same-put Domains.query_stats get_slow_queries r r
          (record r.findings { cache_stats = some c }) refl
          (Same-refl Domains.query_stats get_slow_queries r) in
      elim (Bool-cases (usable (domain_coverage r Domains.query_stats))) [
        | inr u ↦ rw (u, add_deltas) (put c)
        | inl u ↦ elim (Option-cases (deltas.add_query_deltas from to c s).0.0) [
          | inl e ↦ rw (u, add_deltas) (rw e (put (deltas.add_query_deltas from to c s).0.1))
          | inr (m, e) ↦
              rw (u, add_deltas)
                (rw e (
                  Same-fail Domains.query_stats get_slow_queries Domains.query_stats
                    "query cache analysis" m r _ (put (deltas.add_query_deltas from to c s).0.1)))
        ]
      ]

  Keeps-range_cache_step :
      (x : Run K S) → KeepsQueries x.0 (range_cache_step calls deltas from to x).0
  unfolding range_cache_step
  Keeps-range_cache_step (r, s) = elim (ℕ-cases (snapshot_for r Domains.database_stats)) [
    | inl z ↦ rw (z, range_cache_step) (Same-refl Domains.query_stats get_slow_queries r)
    | inr (n, z) ↦ elim (Sum-cases (calls.analyze_overall (suc n) s).0) [
      | inl (m, e) ↦
          rw (z, range_cache_step)
            (rw e (
              Same-fail Domains.query_stats get_slow_queries Domains.database_stats "cache analysis"
                m r r (Same-refl Domains.query_stats get_slow_queries r)))
      | inr (c, e) ↦
          rw (z, range_cache_step)
            (rw e (Same-add_deltas c (r, (calls.analyze_overall (suc n) s).1)))
    ]
  ]

  -- The steps after the slow queries.
  abbrev later_steps : List (Run K S → Run K S)
  later_steps =
      range_cache_step calls deltas from to
      ∷ table_step calls
      ∷ index_step calls
      ∷ activity_step calls
      ∷ lock_step calls
      ∷ transaction_step calls
      ∷ plan_step calls
      ∷ risk_step calls
      ∷ settings_step calls
      ∷ []

  later_steps-keep : (x : Run K S) → KeepsQueries x.0 (compose later_steps x).0
  later_steps-keep = Same-compose Domains.query_stats get_slow_queries later_steps (
    Keeps-range_cache_step,
    (
      Keeps-table_step calls Domains.query_stats get_slow_queries (λ _ _. refl),
      (
        Keeps-index_step calls Domains.query_stats get_slow_queries (λ _ _. refl),
        (
          Keeps-activity_step calls Domains.query_stats get_slow_queries (λ _ _. refl)
              (λ _ _. refl),
          (
            Keeps-lock_step calls Domains.query_stats get_slow_queries (λ _ _. refl),
            (
              Keeps-transaction_step calls Domains.query_stats get_slow_queries (λ _ _. refl),
              (
                Keeps-plan_step calls Domains.query_stats get_slow_queries (λ _ _. refl),
                (
                  Keeps-risk_step calls Domains.query_stats get_slow_queries (λ _ _. refl),
                  (
                    Keeps-settings_step calls Domains.query_stats get_slow_queries (λ _ _. refl),
                    tt,
                  ),
                ),
              ),
            ),
          ),
        ),
      ),
    ),
  )

  delta_step-IsIntervalRead : (x : Run K S) → IsIntervalRead (delta_step calls deltas from to x).0
  unfolding delta_step
  delta_step-IsIntervalRead (r, s) = elim (Sum-cases (deltas.analyze_with_deltas from to s).0) [
    | inr (a, e) ↦ inr (s, rw (e, delta_step) refl)
    | inl (m, e) ↦
        elim (Bool-cases (
          usable
            (domain_coverage (delta_step calls deltas from to (r, s)).0 Domains.query_stats))) [
              | inr u ↦ inl u
              | inl u ↦
                  let u' = rw (e, delta_step) at u in
                  absurd (fail_domain-ne-usable Domains.query_stats "slow query analysis" m r u')
            ]
  ]

  run_range-IsIntervalRead : (x : Run K S) → IsIntervalRead (run_range calls deltas from to x).0
  unfolding run_range analyze_operational
  run_range-IsIntervalRead x =
      let y = delta_step calls deltas from to x in
      let same = later_steps-keep y in
      elim (Bool-cases (usable (domain_coverage (compose later_steps y).0 Domains.query_stats))) [
        | inr u ↦ inl u
        | inl u ↦ elim (delta_step-IsIntervalRead x) [
          | inl f ↦ let u' = rw (same.covered u) at u in absurd (cc)
          | inr (s, e) ↦ inr (s, rw same.found e)
        ]
      ]

inr-eq : {A B : Type 0} {x y : B} → ◌≡◌ {A = A ⊎ B} (inr x) (inr y) → x ≡ y
inr-eq h = cc

module _ {K : Kinds} {S : Type 0} (storage : Storage S) (config : Config) (calls : Calls K S)
    (deltas : RangeCalls K S) (now : ℕ) where
  -- If an analysis of an interval returns a result in which the query domain is usable, then its slow
  -- queries are what the call for the interval returned.
  pub analyze_with_time_range-IsIntervalRead :
      (from to : ℕ) (s : S) (r : AnalysisResult (Findings K))
      → (analyze_with_time_range storage config calls deltas now from to s).0 ≡ inr r
      → IsIntervalRead calls deltas from to r
  unfolding analyze_with_time_range
  analyze_with_time_range-IsIntervalRead from to s r h =
      elim (Sum-cases (storage.get_snapshot_by_id to s).0) [
        | inl (e, c) ↦ let h' = rw (c, analyze_with_time_range) at h in absurd (cc)
        | inr (none, c) ↦ let h' = rw (c, analyze_with_time_range) at h in absurd (cc)
        | inr (some snap, c) ↦
            let h' = rw (c, analyze_with_time_range) at h in
            rw (← inr-eq h') (
              run_range-IsIntervalRead calls deltas from to
                (begin storage config now to snap (storage.get_snapshot_by_id to s).1))
      ]
