-- ===== src/Analyzer/Main/Own.antt =====
-- internal/analyzer/main.go: each domain's own step, followed by the steps after it.
use better_pg_keeper.Common.{◌≡◌, refl, ◌⊎◌, false, Option, some, List, [], ◌∷◌}
use better_pg_keeper.Analyzer.Coverage.{AnalysisResult, domain_coverage, usable}
use better_pg_keeper.Analyzer.Domains
use better_pg_keeper.Analyzer.Main.{
  Kinds, Findings, Calls, Run, slow_query_step, cache_step, table_step, index_step, activity_step,
  lock_step, transaction_step, plan_step, risk_step, settings_step, set_locks, set_transactions,
  set_plans, keep_slow_queries, keep_indexes,
}
use better_pg_keeper.Analyzer.Main.Steps.{
  Keeps-cache_step, Keeps-table_step, Keeps-index_step, Keeps-activity_step, Keeps-lock_step,
  Keeps-transaction_step, Keeps-plan_step, Keeps-risk_step, Keeps-settings_step,
}
use better_pg_keeper.Analyzer.Main.Answers.{
  compose, IsAnswer, IsNumbered, examine_list, examine-some,
}

module _ {K : Kinds} where
  abbrev get_slow_queries : Findings K → List K.SlowQuery
  get_slow_queries f = f.slow_queries

  abbrev get_index_issues : Findings K → List K.IndexIssue
  get_index_issues f = f.index_issues

  abbrev get_lock_stats : Findings K → Option K.LockAnalysis
  get_lock_stats f = f.lock_stats

  abbrev get_transaction_stats : Findings K → Option K.TransactionAnalysis
  get_transaction_stats f = f.transaction_stats

  abbrev get_query_plans : Findings K → Option K.QueryPlans
  get_query_plans f = f.query_plans

module _ {K : Kinds} {S : Type 0} (calls : Calls K S) where
  abbrev pub IsSlowQueries : AnalysisResult (Findings K) → Type 0
  IsSlowQueries r =
      (usable (domain_coverage r Domains.query_stats) ≡ false)
      ⊎ IsAnswer Domains.query_stats calls.analyze_slow_queries r.findings.slow_queries r

  pub slow_query_step-IsSlowQueries :
      (x : Run K S)
      → IsNumbered Domains.query_stats x.0
      → IsSlowQueries
          (compose
            (cache_step calls
              ∷ table_step calls
              ∷ index_step calls
              ∷ activity_step calls
              ∷ lock_step calls
              ∷ transaction_step calls
              ∷ plan_step calls
              ∷ risk_step calls
              ∷ settings_step calls
              ∷ [])
            (slow_query_step calls x)).0
  unfolding slow_query_step domain_coverage
  slow_query_step-IsSlowQueries x num =
      examine_list Domains.query_stats "slow query analysis" calls.analyze_slow_queries
        keep_slow_queries get_slow_queries
        (cache_step calls
          ∷ table_step calls
          ∷ index_step calls
          ∷ activity_step calls
          ∷ lock_step calls
          ∷ transaction_step calls
          ∷ plan_step calls
          ∷ risk_step calls
          ∷ settings_step calls
          ∷ [])
        x num (λ a. (refl, refl))
        (
          Keeps-cache_step calls Domains.query_stats get_slow_queries (λ _ _. refl),
          (
            Keeps-table_step calls Domains.query_stats get_slow_queries (λ _ _. refl),
            (
              Keeps-index_step calls Domains.query_stats get_slow_queries (λ _ _. refl),
              (
                Keeps-activity_step calls Domains.query_stats get_slow_queries (λ _ _. refl)
                    (λ _ _. refl),
                (
                  Keeps-lock_step calls Domains.query_stats get_slow_queries (λ _ _. refl),
                  (
                    Keeps-transaction_step calls Domains.query_stats get_slow_queries (λ _ _. refl),
                    (
                      Keeps-plan_step calls Domains.query_stats get_slow_queries (λ _ _. refl),
                      (
                        Keeps-risk_step calls Domains.query_stats get_slow_queries (λ _ _. refl),
                        (
                          Keeps-settings_step calls Domains.query_stats get_slow_queries
                              (λ _ _. refl),
                          tt,
                        ),
                      ),
                    ),
                  ),
                ),
              ),
            ),
          ),
        )

  abbrev pub IsIndexIssues : AnalysisResult (Findings K) → Type 0
  IsIndexIssues r =
      (usable (domain_coverage r Domains.index_stats) ≡ false)
      ⊎ IsAnswer Domains.index_stats calls.analyze_indexes r.findings.index_issues r

  pub index_step-IsIndexIssues :
      (x : Run K S)
      → IsNumbered Domains.index_stats x.0
      → IsIndexIssues
          (compose
            (activity_step calls
              ∷ lock_step calls
              ∷ transaction_step calls
              ∷ plan_step calls
              ∷ risk_step calls
              ∷ settings_step calls
              ∷ [])
            (index_step calls x)).0
  unfolding index_step domain_coverage
  index_step-IsIndexIssues x num =
      examine_list Domains.index_stats "index analysis" calls.analyze_indexes keep_indexes
        get_index_issues
        (activity_step calls
          ∷ lock_step calls
          ∷ transaction_step calls
          ∷ plan_step calls
          ∷ risk_step calls
          ∷ settings_step calls
          ∷ [])
        x num (λ a. (refl, refl))
        (
          Keeps-activity_step calls Domains.index_stats get_index_issues (λ _ _. refl)
              (λ _ _. refl),
          (
            Keeps-lock_step calls Domains.index_stats get_index_issues (λ _ _. refl),
            (
              Keeps-transaction_step calls Domains.index_stats get_index_issues (λ _ _. refl),
              (
                Keeps-plan_step calls Domains.index_stats get_index_issues (λ _ _. refl),
                (
                  Keeps-risk_step calls Domains.index_stats get_index_issues (λ _ _. refl),
                  (
                    Keeps-settings_step calls Domains.index_stats get_index_issues (λ _ _. refl),
                    tt,
                  ),
                ),
              ),
            ),
          ),
        )

  abbrev pub IsLockStats : AnalysisResult (Findings K) → Type 0
  IsLockStats r =
      (usable (domain_coverage r Domains.locks) ≡ false)
      ⊎ (a : K.LockAnalysis) × (r.findings.lock_stats ≡ some a)
        × IsAnswer Domains.locks calls.analyze_locks (some a) r

  pub lock_step-IsLockStats :
      (x : Run K S)
      → IsNumbered Domains.locks x.0
      → IsLockStats
          (compose
            (transaction_step calls ∷ plan_step calls ∷ risk_step calls ∷ settings_step calls ∷ [])
            (lock_step calls x)).0
  unfolding lock_step domain_coverage
  lock_step-IsLockStats x num =
      examine-some Domains.locks "lock analysis" calls.analyze_locks set_locks get_lock_stats
        (transaction_step calls ∷ plan_step calls ∷ risk_step calls ∷ settings_step calls ∷ []) x
        num (λ a f. refl)
        (
          Keeps-transaction_step calls Domains.locks get_lock_stats (λ _ _. refl),
          (
            Keeps-plan_step calls Domains.locks get_lock_stats (λ _ _. refl),
            (
              Keeps-risk_step calls Domains.locks get_lock_stats (λ _ _. refl),
              (Keeps-settings_step calls Domains.locks get_lock_stats (λ _ _. refl), tt),
            ),
          ),
        )

  abbrev pub IsTransactionStats : AnalysisResult (Findings K) → Type 0
  IsTransactionStats r =
      (usable (domain_coverage r Domains.database_stats) ≡ false)
      ⊎ (a : K.TransactionAnalysis) × (r.findings.transaction_stats ≡ some a)
        × IsAnswer Domains.database_stats calls.analyze_transactions (some a) r

  pub transaction_step-IsTransactionStats :
      (x : Run K S)
      → IsNumbered Domains.database_stats x.0
      → IsTransactionStats
          (compose
            (plan_step calls ∷ risk_step calls ∷ settings_step calls ∷ [])
            (transaction_step calls x)).0
  unfolding transaction_step domain_coverage
  transaction_step-IsTransactionStats x num =
      examine-some Domains.database_stats "transaction analysis" calls.analyze_transactions
        set_transactions get_transaction_stats
        (plan_step calls ∷ risk_step calls ∷ settings_step calls ∷ []) x num (λ a f. refl)
        (
          Keeps-plan_step calls Domains.database_stats get_transaction_stats (λ _ _. refl),
          (
            Keeps-risk_step calls Domains.database_stats get_transaction_stats (λ _ _. refl),
            (
              Keeps-settings_step calls Domains.database_stats get_transaction_stats (λ _ _. refl),
              tt,
            ),
          ),
        )

  abbrev pub IsQueryPlans : AnalysisResult (Findings K) → Type 0
  IsQueryPlans r =
      (usable (domain_coverage r Domains.query_plans) ≡ false)
      ⊎ (a : K.QueryPlans) × (r.findings.query_plans ≡ some a)
        × IsAnswer Domains.query_plans calls.analyze_query_plans (some a) r

  pub plan_step-IsQueryPlans :
      (x : Run K S)
      → IsNumbered Domains.query_plans x.0
      → IsQueryPlans (compose (risk_step calls ∷ settings_step calls ∷ []) (plan_step calls x)).0
  unfolding plan_step domain_coverage
  plan_step-IsQueryPlans x num =
      examine-some Domains.query_plans "query plan analysis" calls.analyze_query_plans set_plans
        get_query_plans (risk_step calls ∷ settings_step calls ∷ []) x num (λ a f. refl)
        (
          Keeps-risk_step calls Domains.query_plans get_query_plans (λ _ _. refl),
          (Keeps-settings_step calls Domains.query_plans get_query_plans (λ _ _. refl), tt),
        )
