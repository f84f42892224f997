-- ===== src/Analyzer/Main/Complete.antt =====
-- internal/analyzer/main.go, Analyze: what a usable domain of the result rests on.
use Prim.Native.String.{String}
use better_pg_keeper.Common.{
  ℕ, Sum-cases, ◌≡◌, refl, ◌≢◌, ◌⊎◌, inl, inr, true, Option, none, some, List, [], ◌∷◌, All,
  All-assign, assign, str_dec, find_by, find_by_All, Option-cases,
}
use better_pg_keeper.Models.{Snapshot}
use better_pg_keeper.Analyzer.Coverage.{
  DomainCoverage, domain_name, AnalysisResult, domain_coverage, usable,
}
use better_pg_keeper.Analyzer.Domains
use better_pg_keeper.Analyzer.Domains.{
  Storage, Config, coverage_of, observed_at, resolve_domain, resolve_domains, all_domains,
}
use better_pg_keeper.Analyzer.Main.{
  Kinds, Findings, Calls, Run, snapshot_for, slow_query_step, cache_step, table_step, index_step,
  activity_step, lock_step, transaction_step, plan_step, risk_step, settings_step, run_analyzers,
  begin, analyze,
}
use better_pg_keeper.Analyzer.Main.Steps.{
  Keeps-slow_query_step, Keeps-cache_step, Keeps-table_step, Keeps-index_step, Keeps-activity_step,
  Keeps-lock_step, Keeps-transaction_step,
}
use better_pg_keeper.Analyzer.Main.Own.{
  IsSlowQueries, IsIndexIssues, IsLockStats, IsTransactionStats, IsQueryPlans,
  slow_query_step-IsSlowQueries, index_step-IsIndexIssues, lock_step-IsLockStats,
  transaction_step-IsTransactionStats, plan_step-IsQueryPlans,
}
use better_pg_keeper.Analyzer.Main.Cache.{IsCacheStats, cache_step-IsCacheStats}
use better_pg_keeper.Analyzer.Main.Answers.{compose, Same-compose, IsNumbered, Same-IsNumbered}

-- The ids of stored snapshots start at 1.
abbrev pub HasIds : {S : Type 0} → Storage S → Type 0
HasIds {S} storage =
    (i : ℕ) (d : String) (t : Option ℕ) (s : S) (snap : Snapshot)
    → (storage.get_latest_snapshot_with_collector i d t s).0 ≡ inr (some snap)
    → snap.id ≢ 0

abbrev HasId : String × DomainCoverage → Type 0
HasId e = usable e.1 ≡ true → e.1.snapshot_id ≢ 0

module _ {S : Type 0} (storage : Storage S) (config : Config) (now : ℕ) (anchor : Snapshot)
    (ids : HasIds storage) where
  coverage_of-HasId :
      (d : String) (snap : Snapshot) (o : Option ℕ)
      → snap.id ≢ 0
      → HasId (d, coverage_of config now d snap o)
  unfolding coverage_of usable
  coverage_of-HasId d snap none h u = cc
  coverage_of-HasId d snap (some t) h u = h

  resolve_domain-HasId :
      (d : String) (s : S) → HasId (d, (resolve_domain storage config now anchor d s).0)
  unfolding resolve_domain usable
  resolve_domain-HasId d s u =
      let call =
        storage.get_latest_snapshot_with_collector anchor.instance_id d (some anchor.captured_at)
          s in
      elim (Sum-cases call.0) [
        | inl (e, c) ↦ let u' = rw (c, resolve_domain) at u in absurd (cc)
        | inr (none, c) ↦ let u' = rw (c, resolve_domain) at u in absurd (cc)
        | inr (some snap, c) ↦ elim (Sum-cases (storage.get_snapshot_collectors snap.id call.1).0) [
          | inl (e, c') ↦
              let u' = rw (c, resolve_domain) at u in let u'' = rw c' at u' in absurd (cc)
          | inr (rs, c') ↦
              let u' = rw (c, resolve_domain) at u in
              let u'' = rw c' at u' in
              rw (c, resolve_domain)
                (rw c' (
                  coverage_of-HasId d snap (observed_at d rs)
                    (ids anchor.instance_id d (some anchor.captured_at) s snap c) u''))
        ]
      ]

  resolve_domains-HasId :
      (ds : List String) (m : List (String × DomainCoverage)) (s : S)
      → All HasId m
      → All HasId (resolve_domains storage config now anchor ds m s).0
  unfolding resolve_domains
  resolve_domains-HasId [] m s a = a
  resolve_domains-HasId (d ∷ ds) m s a =
      let x = resolve_domain storage config now anchor d s in
      resolve_domains-HasId ds (assign domain_name str_dec (d, x.0) m) x.2
        (All-assign domain_name str_dec HasId (d, x.0) m (resolve_domain-HasId d s) a)

domain_coverage-IsNumbered :
    {K : Kinds} (d : String) (r : AnalysisResult (Findings K))
    → All HasId r.coverage
    → IsNumbered d r
unfolding domain_coverage snapshot_for usable
domain_coverage-IsNumbered d r a u =
    elim (Option-cases (find_by domain_name str_dec d r.coverage)) [
      | inl e ↦ let u' = rw (e, domain_coverage) at u in absurd (cc)
      | inr (x, e) ↦
          let u' = rw (e, domain_coverage) at u in
          rw (e, domain_coverage, snapshot_for)
            (find_by_All domain_name str_dec HasId d r.coverage a e u')
    ]

inr-eq : {A B : Type 0} {x y : B} → ◌≡◌ {A = A ⊎ B} (inr x) (inr y) → x ≡ y
inr-eq h = cc

abbrev unit : {K : Kinds} → Findings K → Unit {0}
unit _ = tt

module _ {K : Kinds} {S : Type 0} (calls : Calls K S) where
  run_analyzers-compose :
      (x : Run K S)
      → run_analyzers calls x
        ≡ compose
            (slow_query_step calls
              ∷ cache_step calls
              ∷ table_step calls
              ∷ index_step calls
              ∷ activity_step calls
              ∷ lock_step calls
              ∷ transaction_step calls
              ∷ plan_step calls
              ∷ risk_step calls
              ∷ settings_step calls
              ∷ [])
            x
  unfolding run_analyzers
  run_analyzers-compose x = refl

  module _ (d : String) (x : Run K S) (num : IsNumbered d x.0) where
    before_cache : IsNumbered d (slow_query_step calls x).0
    before_cache =
        Same-IsNumbered d unit x.0 (slow_query_step calls x).0
          (Keeps-slow_query_step calls d unit (λ _ _. refl) x) num

    before_index :
        IsNumbered d
          (compose (slow_query_step calls ∷ cache_step calls ∷ table_step calls ∷ []) x).0
    before_index =
        Same-IsNumbered d unit x.0
          (compose (slow_query_step calls ∷ cache_step calls ∷ table_step calls ∷ []) x).0
          (Same-compose d unit (slow_query_step calls ∷ cache_step calls ∷ table_step calls ∷ [])
            (
              Keeps-slow_query_step calls d unit (λ _ _. refl),
              (
                Keeps-cache_step calls d unit (λ _ _. refl),
                (Keeps-table_step calls d unit (λ _ _. refl), tt),
              ),
            )
            x)
          num

    before_lock :
        IsNumbered d
          (compose
            (slow_query_step calls
              ∷ cache_step calls
              ∷ table_step calls
              ∷ index_step calls
              ∷ activity_step calls
              ∷ [])
            x).0
    before_lock =
        Same-IsNumbered d unit
          (compose (slow_query_step calls ∷ cache_step calls ∷ table_step calls ∷ []) x).0
          (compose
            (slow_query_step calls
              ∷ cache_step calls
              ∷ table_step calls
              ∷ index_step calls
              ∷ activity_step calls
              ∷ [])
            x).0
          (Same-compose d unit (index_step calls ∷ activity_step calls ∷ [])
            (
              Keeps-index_step calls d unit (λ _ _. refl),
              (Keeps-activity_step calls d unit (λ _ _. refl) (λ _ _. refl), tt),
            )
            (compose (slow_query_step calls ∷ cache_step calls ∷ table_step calls ∷ []) x))
          before_index

    before_transaction :
        IsNumbered d
          (compose
            (slow_query_step calls
              ∷ cache_step calls
              ∷ table_step calls
              ∷ index_step calls
              ∷ activity_step calls
              ∷ lock_step calls
              ∷ [])
            x).0
    before_transaction =
        Same-IsNumbered d unit
          (compose
            (slow_query_step calls
              ∷ cache_step calls
              ∷ table_step calls
              ∷ index_step calls
              ∷ activity_step calls
              ∷ [])
            x).0
          (compose
            (slow_query_step calls
              ∷ cache_step calls
              ∷ table_step calls
              ∷ index_step calls
              ∷ activity_step calls
              ∷ lock_step calls
              ∷ [])
            x).0
          (Same-compose d unit (lock_step calls ∷ [])
            (Keeps-lock_step calls d unit (λ _ _. refl), tt)
            (compose
              (slow_query_step calls
                ∷ cache_step calls
                ∷ table_step calls
                ∷ index_step calls
                ∷ activity_step calls
                ∷ [])
              x))
          before_lock

    before_plan :
        IsNumbered d
          (compose
            (slow_query_step calls
              ∷ cache_step calls
              ∷ table_step calls
              ∷ index_step calls
              ∷ activity_step calls
              ∷ lock_step calls
              ∷ transaction_step calls
              ∷ [])
            x).0
    before_plan =
        Same-IsNumbered d unit
          (compose
            (slow_query_step calls
              ∷ cache_step calls
              ∷ table_step calls
              ∷ index_step calls
              ∷ activity_step calls
              ∷ lock_step calls
              ∷ [])
            x).0
          (compose
            (slow_query_step calls
              ∷ cache_step calls
              ∷ table_step calls
              ∷ index_step calls
              ∷ activity_step calls
              ∷ lock_step calls
              ∷ transaction_step calls
              ∷ [])
            x).0
          (Same-compose d unit (transaction_step calls ∷ [])
            (Keeps-transaction_step calls d unit (λ _ _. refl), tt)
            (compose
              (slow_query_step calls
                ∷ cache_step calls
                ∷ table_step calls
                ∷ index_step calls
                ∷ activity_step calls
                ∷ lock_step calls
                ∷ [])
              x))
          before_transaction

  -- What the findings of a usable domain rest on.
  abbrev pub IsComplete : AnalysisResult (Findings K) → Type 0
  IsComplete r =
      IsSlowQueries calls r
      × IsIndexIssues calls r
      × IsLockStats calls r
      × IsTransactionStats calls r
      × IsQueryPlans calls r
      × IsCacheStats calls r

  pub run_analyzers-IsComplete :
      (x : Run K S) → ((d : String) → IsNumbered d x.0) → IsComplete (run_analyzers calls x).0
  run_analyzers-IsComplete x num = rw (run_analyzers-compose x) (
    slow_query_step-IsSlowQueries calls x (num Domains.query_stats),
    index_step-IsIndexIssues calls _ (before_index Domains.index_stats x (num Domains.index_stats)),
    lock_step-IsLockStats calls _ (before_lock Domains.locks x (num Domains.locks)),
    transaction_step-IsTransactionStats calls _
        (before_transaction Domains.database_stats x (num Domains.database_stats)),
    plan_step-IsQueryPlans calls _ (before_plan Domains.query_plans x (num Domains.query_plans)),
    cache_step-IsCacheStats calls (slow_query_step calls x)
        (before_cache Domains.database_stats x (num Domains.database_stats)),
  )

module _ {K : Kinds} {S : Type 0} (storage : Storage S) (config : Config) (calls : Calls K S)
    (now : ℕ) where
  pub analyze-IsComplete :
      HasIds storage
      → (id : ℕ) (s : S) (r : AnalysisResult (Findings K))
      → (analyze storage config calls now id s).0 ≡ inr r
      → IsComplete calls r
  unfolding analyze begin
  analyze-IsComplete ids id s r h = elim (Sum-cases (storage.get_snapshot_by_id id s).0) [
    | inl (e, c) ↦ let h' = rw (c, analyze) at h in absurd (cc)
    | inr (none, c) ↦ let h' = rw (c, analyze) at h in absurd (cc)
    | inr (some snap, c) ↦
        let h' = rw (c, analyze) at h in
        let x = begin storage config now id snap (storage.get_snapshot_by_id id s).1 in
        rw (← inr-eq h') (
          run_analyzers-IsComplete calls x (λ d.
            domain_coverage-IsNumbered d x.0
              (resolve_domains-HasId storage config now snap ids all_domains [] _ tt)))
  ]
