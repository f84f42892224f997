-- ===== src/Analyzer/Main.antt =====
-- internal/analyzer/main.go, MainAnalyzer: one analysis over the sub-analyzers, which a record of
-- calls gives. `result.Coverage` and `coverage` are one map in the source: here it is the result's.
pub mod Same
pub mod Steps
pub mod Answers
pub mod Own
pub mod Cache
pub mod Complete
use Prim.Native.String.{String}
use better_pg_keeper.Common.{
  ℕ, zero, suc, ◌+◌, ◌⊎◌, inl, inr, Bool, true, false, Option, none, some, List, [], ◌∷◌, ◌++◌,
  str_dec, assign, length, sprint, decimal, if◌then◌else◌,
}
use better_pg_keeper.Models.{Snapshot}
use better_pg_keeper.Analyzer.Coverage.{
  DomainCoverage, AnalysisResult, domain_coverage, domain_name, usable,
}
use better_pg_keeper.Analyzer.Domains
use better_pg_keeper.Analyzer.Domains.{Storage, Config, resolve_domains, all_domains}

-- The types of what the sub-analyzers find.
pub record Kinds : Type 1 where
  pub SlowQuery : Type 0
  pub CacheAnalysis : Type 0
  pub TableIssue : Type 0
  pub IndexIssue : Type 0
  pub ActivityAnalysis : Type 0
  pub ConnectionPeak : Type 0
  pub LockAnalysis : Type 0
  pub TransactionAnalysis : Type 0
  pub QueryPlans : Type 0
  pub Risk : Type 0
  pub Settings : Type 0

-- The fields of AnalysisResult that the sub-analyzers fill. `peak` is ActivityStats.Peak.
pub record Findings (K : Kinds) : Type 0 where
  pub slow_queries : List K.SlowQuery
  pub cache_stats : Option K.CacheAnalysis
  pub table_issues : List K.TableIssue
  pub index_issues : List K.IndexIssue
  pub activity_stats : Option K.ActivityAnalysis
  pub peak : Option K.ConnectionPeak
  pub lock_stats : Option K.LockAnalysis
  pub transaction_stats : Option K.TransactionAnalysis
  pub risk : Option K.Risk
  pub query_plans : Option K.QueryPlans
  pub settings : Option K.Settings

abbrev pub Call : Type 0 → Type 0 → Type 0
Call S A = S → (String ⊎ A) × S

-- The sub-analyzers, at a snapshot; `none` is a nil pointer. `add_query_stats` changes what it is
-- given, also if it fails.
pub record Calls (K : Kinds) (S : Type 0) : Type 0 where
  pub analyze_slow_queries : ℕ → Call S (List K.SlowQuery)
  pub analyze_overall : ℕ → Call S K.CacheAnalysis
  pub add_query_stats : ℕ → K.CacheAnalysis → S → (Option String × K.CacheAnalysis) × S
  pub analyze_tables : ℕ → ℕ → Call S (List K.TableIssue)
  pub analyze_indexes : ℕ → Call S (List K.IndexIssue)
  pub analyze_activity : ℕ → Call S (Option K.ActivityAnalysis)
  pub analyze_connection_peak : ℕ → ℕ → Call S (Option K.ConnectionPeak)
  pub analyze_locks : ℕ → Call S (Option K.LockAnalysis)
  pub analyze_transactions : ℕ → Call S (Option K.TransactionAnalysis)
  pub analyze_query_plans : ℕ → Call S (Option K.QueryPlans)
  pub analyze_risk : ℕ → ℕ → List (String × DomainCoverage) → Call S (Option K.Risk)
  pub analyze_settings : ℕ → ℕ → List (String × DomainCoverage) → Call S (Option K.Settings)

module _ {F : Type 0} where
  unfoldable pub snapshot_for : AnalysisResult F → String → ℕ
  unfolding domain_coverage
  snapshot_for r d = (domain_coverage r d).snapshot_id

  unfoldable pub invalidate_domain : String → AnalysisResult F → AnalysisResult F
  unfolding domain_coverage
  invalidate_domain d r = record r {
    coverage =
        assign domain_name str_dec (d, record (domain_coverage r d) { stale = true }) r.coverage;
  }

  unfoldable pub add_error : String → String → AnalysisResult F → AnalysisResult F
  add_error label e r = record r {
    errors = r.errors ++ sprint (label ∷ ": " ∷ e ∷ []) ∷ [];
    error_count = r.error_count + 1;
  }

  -- The error branch of a sub-analyzer.
  unfoldable pub fail_domain : String → String → String → AnalysisResult F → AnalysisResult F
  unfolding add_error invalidate_domain
  fail_domain d label e r = add_error label e (invalidate_domain d r)

-- The result so far, and the storage.
abbrev pub Run : Kinds → Type 0 → Type 0
Run K S = AnalysisResult (Findings K) × S

module _ {K : Kinds} where
  -- A finding that is a pointer: nil makes the domain ineligible.
  unfoldable pub keep_or_invalidate :
      {A : Type 0} (d : String)
      → (Option A → Findings K → Findings K)
      → Option A
      → AnalysisResult (Findings K)
      → AnalysisResult (Findings K)
  unfolding invalidate_domain
  keep_or_invalidate d put a r =
      let r' = record r { findings = put a r.findings } in
      elim a [ none ↦ invalidate_domain d r' | some _ ↦ r' ]

module _ {K : Kinds} {S : Type 0} where
  -- One sub-analyzer: it runs if its domain has a snapshot, and its finding is kept by `keep`, or its
  -- failure makes the domain ineligible.
  unfoldable pub examine :
      {A : Type 0} (d label : String) (call : ℕ → Call S A)
      → (A → AnalysisResult (Findings K) → AnalysisResult (Findings K))
      → Run K S
      → Run K S
  unfolding snapshot_for fail_domain
  examine d label call keep (r, s) = elim (snapshot_for r d) [
    | zero ↦ (r, s)
    | suc n ↦
        let (found, s') = call (suc n) s in
        (elim found [ inl e ↦ fail_domain d label e r | inr a ↦ keep a r ], s')
  ]

module _ {K : Kinds} where
  abbrev pub keep_slow_queries :
      List K.SlowQuery → AnalysisResult (Findings K) → AnalysisResult (Findings K)
  keep_slow_queries a r = record r { findings = record r.findings { slow_queries = a } }

  abbrev pub keep_indexes :
      List K.IndexIssue → AnalysisResult (Findings K) → AnalysisResult (Findings K)
  keep_indexes a r = record r { findings = record r.findings { index_issues = a } }

  abbrev pub with_cache :
      K.CacheAnalysis → AnalysisResult (Findings K) → AnalysisResult (Findings K)
  with_cache c r = record r { findings = record r.findings { cache_stats = some c } }

  abbrev pub set_locks : Option K.LockAnalysis → Findings K → Findings K
  set_locks a f = record f { lock_stats = a }

  abbrev pub set_transactions : Option K.TransactionAnalysis → Findings K → Findings K
  set_transactions a f = record f { transaction_stats = a }

  abbrev pub set_plans : Option K.QueryPlans → Findings K → Findings K
  set_plans a f = record f { query_plans = a }

  abbrev pub set_risk : Option K.Risk → Findings K → Findings K
  set_risk a f = record f { risk = a }

  abbrev pub set_settings : Option K.Settings → Findings K → Findings K
  set_settings a f = record f { settings = a }

module _ {K : Kinds} {S : Type 0} (calls : Calls K S) where
  unfoldable pub slow_query_step : Run K S → Run K S
  unfolding examine
  slow_query_step =
      examine Domains.query_stats "slow query analysis" calls.analyze_slow_queries keep_slow_queries

  -- The query details of the cache analysis, if the query domain is usable.
  unfoldable pub add_queries : K.CacheAnalysis → Run K S → Run K S
  unfolding snapshot_for fail_domain domain_coverage usable
  add_queries c (r, s) = elim (snapshot_for r Domains.query_stats) [
    | zero ↦ (with_cache c r, s)
    | suc n ↦
        let ((failed, c'), s') = calls.add_query_stats (suc n) c s in
        let r' = with_cache c' r in
        let added : Run K S = (
          elim failed [
            | none ↦ r'
            | some e ↦ fail_domain Domains.query_stats "query cache analysis" e r'
          ],
          s',
        ) in
        if usable (domain_coverage r Domains.query_stats) then added else (with_cache c r, s)
  ]

  unfoldable pub cache_step : Run K S → Run K S
  unfolding snapshot_for fail_domain add_queries
  cache_step (r, s) = elim (snapshot_for r Domains.database_stats) [
    | zero ↦ (r, s)
    | suc n ↦
        let (found, s') = calls.analyze_overall (suc n) s in
        elim found [
          | inl e ↦ (fail_domain Domains.database_stats "cache analysis" e r, s')
          | inr c ↦ add_queries c (r, s')
        ]
  ]

  -- A failed analysis is tried again without the bloat data.
  unfoldable pub table_step : Run K S → Run K S
  unfolding snapshot_for fail_domain
  table_step (r, s) = elim (snapshot_for r Domains.table_stats) [
    | zero ↦ (r, s)
    | suc n ↦
        let (found, s') = calls.analyze_tables (suc n) (snapshot_for r Domains.bloat) s in
        elim found [
          | inr issues ↦ (record r { findings = record r.findings { table_issues = issues } }, s')
          | inl e ↦
              let r' = fail_domain Domains.bloat "table analysis" e r in
              let (again, s'') = calls.analyze_tables (suc n) 0 s' in
              (
                elim again [
                  | inr issues ↦ record r' {
                    findings = record r'.findings { table_issues = issues };
                  }
                  | inl e' ↦ fail_domain Domains.table_stats "table-only analysis" e' r'
                ],
                s'',
              )
        ]
  ]

  unfoldable pub index_step : Run K S → Run K S
  unfolding examine
  index_step = examine Domains.index_stats "index analysis" calls.analyze_indexes keep_indexes

  unfoldable pub peak_step : Run K S → Run K S
  unfolding add_error domain_coverage
  peak_step (r, s) =
      let (found, s') =
        calls.analyze_connection_peak r.instance_id (domain_coverage r Domains.activity).captured_at
          s in
      (
        elim found [
          | inl e ↦ add_error "connection peak analysis" e r
          | inr p ↦ record r { findings = record r.findings { peak = p } }
        ],
        s',
      )

  unfoldable pub activity_step : Run K S → Run K S
  unfolding snapshot_for fail_domain invalidate_domain peak_step
  activity_step (r, s) = elim (snapshot_for r Domains.activity) [
    | zero ↦ (r, s)
    | suc n ↦
        let (found, s') = calls.analyze_activity (suc n) s in
        elim found [
          | inl e ↦ (fail_domain Domains.activity "activity analysis" e r, s')
          | inr none ↦ (
            invalidate_domain Domains.activity
                (record r { findings = record r.findings { activity_stats = none } }),
            s',
          )
          | inr (some a) ↦
              peak_step (record r { findings = record r.findings { activity_stats = some a } }, s')
        ]
  ]

  unfoldable pub lock_step : Run K S → Run K S
  unfolding examine keep_or_invalidate
  lock_step =
      examine Domains.locks "lock analysis" calls.analyze_locks
        (keep_or_invalidate Domains.locks set_locks)

  unfoldable pub transaction_step : Run K S → Run K S
  unfolding examine keep_or_invalidate
  transaction_step =
      examine Domains.database_stats "transaction analysis" calls.analyze_transactions
        (keep_or_invalidate Domains.database_stats set_transactions)

  unfoldable pub plan_step : Run K S → Run K S
  unfolding examine keep_or_invalidate
  plan_step =
      examine Domains.query_plans "query plan analysis" calls.analyze_query_plans
        (keep_or_invalidate Domains.query_plans set_plans)

  unfoldable pub risk_step : Run K S → Run K S
  unfolding examine keep_or_invalidate
  risk_step (r, s) =
      examine Domains.outage_risk "outage risk analysis"
        (λ id. calls.analyze_risk r.instance_id id r.coverage)
        (keep_or_invalidate Domains.outage_risk set_risk) (r, s)

  unfoldable pub settings_step : Run K S → Run K S
  unfolding examine keep_or_invalidate
  settings_step (r, s) =
      examine Domains.settings "settings analysis"
        (λ id. calls.analyze_settings r.instance_id id r.coverage)
        (keep_or_invalidate Domains.settings set_settings) (r, s)

  unfoldable pub analyze_operational : Run K S → Run K S
  unfolding activity_step lock_step transaction_step plan_step risk_step settings_step
  analyze_operational x =
      settings_step (risk_step (plan_step (transaction_step (lock_step (activity_step x)))))

  -- All the sub-analyzers, in their order.
  unfoldable pub run_analyzers : Run K S → Run K S
  unfolding slow_query_step cache_step table_step index_step analyze_operational
  run_analyzers x = analyze_operational (index_step (table_step (cache_step (slow_query_step x))))

abbrev pub no_findings : {K : Kinds} → Findings K
no_findings = record {
  slow_queries = [];
  cache_stats = none;
  table_issues = [];
  index_issues = [];
  activity_stats = none;
  peak = none;
  lock_stats = none;
  transaction_stats = none;
  risk = none;
  query_plans = none;
  settings = none;
}

module _ {K : Kinds} {S : Type 0} (storage : Storage S) (config : Config) (now : ℕ) where
  -- The result that Analyze starts from.
  unfoldable pub begin : ℕ → Snapshot → S → Run K S
  unfolding resolve_domains
  begin id snapshot s =
      let (coverage, errs, s') = resolve_domains storage config now snapshot all_domains [] s in
      (
        record {
          snapshot_id = id;
          instance_id = snapshot.instance_id;
          analyzed_at = now;
          errors = errs;
          error_count = length errs;
          coverage = coverage;
          findings = no_findings;
        },
        s',
      )

module _ {K : Kinds} {S : Type 0} (storage : Storage S) (config : Config) (calls : Calls K S)
    (now : ℕ) where
  -- Analyze: an error, or the result of the analyzers that could run. One reading of the clock stands
  -- for both of the source's.
  unfoldable pub analyze : ℕ → S → (String ⊎ AnalysisResult (Findings K)) × S
  unfolding begin run_analyzers
  analyze id s =
      let (found, s') = storage.get_snapshot_by_id id s in
      elim found [
        | inl e ↦ (inl (sprint ("getting snapshot: " ∷ e ∷ [])), s')
        | inr none ↦ (inl (sprint ("snapshot " ∷ decimal id ∷ " not found" ∷ [])), s')
        | inr (some snapshot) ↦
            let (r, s'') = run_analyzers calls (begin storage config now id snapshot s') in
            (inr r, s'')
      ]
