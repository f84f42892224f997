-- ===== src/Analyzer/Main/Steps.antt =====
-- internal/analyzer/main.go: what each sub-analyzer of an analysis leaves alone, in any domain.
use Prim.Native.String.{String}
use better_pg_keeper.Common.{
  suc, ℕ-cases, Sum-cases, Option-cases, Bool-cases, ◌≡◌, inl, inr, Option, none, some, List,
}
use better_pg_keeper.Analyzer.Coverage.{AnalysisResult, domain_coverage, usable}
use better_pg_keeper.Analyzer.Domains
use better_pg_keeper.Analyzer.Main.{
  Kinds, Findings, Calls, Run, snapshot_for, slow_query_step, add_queries, cache_step, table_step,
  index_step, peak_step, activity_step, lock_step, transaction_step, plan_step, risk_step,
  settings_step, keep_slow_queries, keep_indexes, set_locks, set_transactions, set_plans, set_risk,
  set_settings, keep_or_invalidate,
}
use better_pg_keeper.Analyzer.Main.Same.{
  Same, Same-refl, Same-put, Same-invalidate, Same-add_error, Same-fail, Same-examine, Same-keep,
}

module _ {K : Kinds} {S B : Type 0} (calls : Calls K S) (d : String) (get : Findings K → B) where
  abbrev pub Keeps : (Run K S → Run K S) → Type 0
  Keeps step = (x : Run K S) → Same d get x.0 (step x).0

  pub Keeps-slow_query_step :
      ((a : List K.SlowQuery) (f : Findings K) → get (record f { slow_queries = a }) ≡ get f)
      → Keeps (slow_query_step calls)
  unfolding slow_query_step
  Keeps-slow_query_step free x =
      Same-examine d get Domains.query_stats "slow query analysis" calls.analyze_slow_queries
        keep_slow_queries x
        (λ a. Same-put d get x.0 x.0 _ (free a x.0.findings) (Same-refl d get x.0))

  Same-add_queries :
      ((a : Option K.CacheAnalysis) (f : Findings K) → get (record f { cache_stats = a }) ≡ get f)
      → (c : K.CacheAnalysis) (x : Run K S) → Same d get x.0 (add_queries calls c x).0
  unfolding add_queries
  Same-add_queries free c (r, s) =
      let put = λ (c : K.CacheAnalysis).
        Same-put d get r r _ (free (some c) r.findings) (Same-refl d get r) in
      elim (ℕ-cases (snapshot_for r Domains.query_stats)) [
        | inl z ↦ rw (z, add_queries) (put c)
        | inr (n, z) ↦ elim (Bool-cases (usable (domain_coverage r Domains.query_stats))) [
          | inr u ↦ rw (z, add_queries) (rw u (put c))
          | inl u ↦ elim (Option-cases (calls.add_query_stats (suc n) c s).0.0) [
            | inl e ↦
                rw (z, add_queries) (rw u (rw e (put (calls.add_query_stats (suc n) c s).0.1)))
            | inr (m, e) ↦
                rw (z, add_queries)
                  (rw u (
                    rw e (
                      Same-fail d get Domains.query_stats "query cache analysis" m r _
                        (put (calls.add_query_stats (suc n) c s).0.1))))
          ]
        ]
      ]

  pub Keeps-cache_step :
      ((a : Option K.CacheAnalysis) (f : Findings K) → get (record f { cache_stats = a }) ≡ get f)
      → Keeps (cache_step calls)
  unfolding cache_step
  Keeps-cache_step free (r, s) = elim (ℕ-cases (snapshot_for r Domains.database_stats)) [
    | inl z ↦ rw (z, cache_step) (Same-refl d get r)
    | inr (n, z) ↦ elim (Sum-cases (calls.analyze_overall (suc n) s).0) [
      | inl (m, e) ↦
          rw (z, cache_step)
            (rw e
              (Same-fail d get Domains.database_stats "cache analysis" m r r (Same-refl d get r)))
      | inr (c, e) ↦
          rw (z, cache_step)
            (rw e (Same-add_queries free c (r, (calls.analyze_overall (suc n) s).1)))
    ]
  ]

  pub Keeps-table_step :
      ((a : List K.TableIssue) (f : Findings K) → get (record f { table_issues = a }) ≡ get f)
      → Keeps (table_step calls)
  unfolding table_step
  Keeps-table_step free (r, s) = elim (ℕ-cases (snapshot_for r Domains.table_stats)) [
    | inl z ↦ rw (z, table_step) (Same-refl d get r)
    | inr (n, z) ↦
        let first = calls.analyze_tables (suc n) (snapshot_for r Domains.bloat) s in
        elim (Sum-cases first.0) [
          | inr (a, e) ↦
              rw (z, table_step)
                (rw e (Same-put d get r r _ (free a r.findings) (Same-refl d get r)))
          | inl (m, e) ↦
              let failed =
                Same-fail d get Domains.bloat "table analysis" m r r (Same-refl d get r) in
              elim (Sum-cases (calls.analyze_tables (suc n) 0 first.1).0) [
                | inr (a, e') ↦
                    rw (z, table_step) (rw e (rw e' (Same-put d get r _ _ (free a _) failed)))
                | inl (m', e') ↦
                    rw (z, table_step)
                      (rw e (
                        rw e' (
                          Same-fail d get Domains.table_stats "table-only analysis" m' r _ failed)))
              ]
        ]
  ]

  pub Keeps-index_step :
      ((a : List K.IndexIssue) (f : Findings K) → get (record f { index_issues = a }) ≡ get f)
      → Keeps (index_step calls)
  unfolding index_step
  Keeps-index_step free x =
      Same-examine d get Domains.index_stats "index analysis" calls.analyze_indexes keep_indexes x
        (λ a. Same-put d get x.0 x.0 _ (free a x.0.findings) (Same-refl d get x.0))

  pub Same-peak_step :
      ((p : Option K.ConnectionPeak) (f : Findings K) → get (record f { peak = p }) ≡ get f)
      → (r : AnalysisResult (Findings K)) (x : Run K S) → Same d get r x.0
      → Same d get r (peak_step calls x).0
  unfolding peak_step
  Same-peak_step free r (r', s) h =
      let call =
        calls.analyze_connection_peak r'.instance_id
          (domain_coverage r' Domains.activity).captured_at s in
      elim (Sum-cases call.0) [
        | inl (m, e) ↦ rw e (Same-add_error d get "connection peak analysis" m r r' h)
        | inr (p, e) ↦ rw e (Same-put d get r r' _ (free p r'.findings) h)
      ]

  pub Keeps-activity_step :
      ((a : Option K.ActivityAnalysis) (f : Findings K)
        → get (record f { activity_stats = a }) ≡ get f)
      → ((p : Option K.ConnectionPeak) (f : Findings K) → get (record f { peak = p }) ≡ get f)
      → Keeps (activity_step calls)
  unfolding activity_step
  Keeps-activity_step free free_peak (r, s) = elim (ℕ-cases (snapshot_for r Domains.activity)) [
    | inl z ↦ rw (z, activity_step) (Same-refl d get r)
    | inr (n, z) ↦
        let put = λ (a : Option K.ActivityAnalysis).
          Same-put d get r r _ (free a r.findings) (Same-refl d get r) in
        elim (Sum-cases (calls.analyze_activity (suc n) s).0) [
          | inl (m, e) ↦
              rw (z, activity_step)
                (rw e
                  (Same-fail d get Domains.activity "activity analysis" m r r (Same-refl d get r)))
          | inr (none, e) ↦
              rw (z, activity_step) (rw e (Same-invalidate d get Domains.activity r _ (put none)))
          | inr (some a, e) ↦
              rw (z, activity_step)
                (rw e (
                  Same-peak_step free_peak r (_, (calls.analyze_activity (suc n) s).1)
                    (put (some a))))
        ]
  ]

  pub Keeps-lock_step :
      ((a : Option K.LockAnalysis) (f : Findings K) → get (record f { lock_stats = a }) ≡ get f)
      → Keeps (lock_step calls)
  unfolding lock_step
  Keeps-lock_step free x =
      Same-examine d get Domains.locks "lock analysis" calls.analyze_locks
        (keep_or_invalidate Domains.locks set_locks) x
        (Same-keep d get Domains.locks set_locks x.0 free)

  pub Keeps-transaction_step :
      ((a : Option K.TransactionAnalysis) (f : Findings K)
        → get (record f { transaction_stats = a }) ≡ get f)
      → Keeps (transaction_step calls)
  unfolding transaction_step
  Keeps-transaction_step free x =
      Same-examine d get Domains.database_stats "transaction analysis" calls.analyze_transactions
        (keep_or_invalidate Domains.database_stats set_transactions) x
        (Same-keep d get Domains.database_stats set_transactions x.0 free)

  pub Keeps-plan_step :
      ((a : Option K.QueryPlans) (f : Findings K) → get (record f { query_plans = a }) ≡ get f)
      → Keeps (plan_step calls)
  unfolding plan_step
  Keeps-plan_step free x =
      Same-examine d get Domains.query_plans "query plan analysis" calls.analyze_query_plans
        (keep_or_invalidate Domains.query_plans set_plans) x
        (Same-keep d get Domains.query_plans set_plans x.0 free)

  pub Keeps-risk_step :
      ((a : Option K.Risk) (f : Findings K) → get (record f { risk = a }) ≡ get f)
      → Keeps (risk_step calls)
  unfolding risk_step
  Keeps-risk_step free (r, s) =
      Same-examine d get Domains.outage_risk "outage risk analysis"
        (λ id. calls.analyze_risk r.instance_id id r.coverage)
        (keep_or_invalidate Domains.outage_risk set_risk) (r, s)
        (Same-keep d get Domains.outage_risk set_risk r free)

  pub Keeps-settings_step :
      ((a : Option K.Settings) (f : Findings K) → get (record f { settings = a }) ≡ get f)
      → Keeps (settings_step calls)
  unfolding settings_step
  Keeps-settings_step free (r, s) =
      Same-examine d get Domains.settings "settings analysis"
        (λ id. calls.analyze_settings r.instance_id id r.coverage)
        (keep_or_invalidate Domains.settings set_settings) (r, s)
        (Same-keep d get Domains.settings set_settings r free)
