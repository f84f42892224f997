-- ===== src/Analyzer/Main/Cache.antt =====
-- internal/analyzer/main.go: the step of the cache analysis, which is the other one of the domain of the database
-- statistics.
use better_pg_keeper.Common.{
  ℕ, suc, ℕ-cases, Sum-cases, Option-cases, Bool-cases, ◌≡◌, refl, ◌∙◌, ap, ◌⊎◌, inl, inr, true,
  false, Option, some, List, [], ◌∷◌,
}
use better_pg_keeper.Analyzer.Coverage.{AnalysisResult, domain_coverage, usable}
use better_pg_keeper.Analyzer.Domains
use better_pg_keeper.Analyzer.Main.{
  Kinds, Findings, Calls, Run, snapshot_for, add_error, fail_domain, invalidate_domain, add_queries,
  cache_step, table_step, index_step, activity_step, lock_step, transaction_step, plan_step,
  risk_step, settings_step,
}
use better_pg_keeper.Analyzer.Main.Steps.{
  Keeps-cache_step, Keeps-table_step, Keeps-index_step, Keeps-activity_step, Keeps-lock_step,
  Keeps-transaction_step, Keeps-plan_step, Keeps-risk_step, Keeps-settings_step,
}
use better_pg_keeper.Analyzer.Main.Answers.{
  compose, Same-compose, IsNumbered, fail_domain-ne-usable,
}

module _ {K : Kinds} {S : Type 0} (calls : Calls K S) where
  abbrev get_cache_stats : Findings K → Option K.CacheAnalysis
  get_cache_stats f = f.cache_stats

  -- The overall analysis, as it is or with the details of the queries added.
  abbrev pub IsOverall : K.CacheAnalysis → Option K.CacheAnalysis → Type 0
  IsOverall c o = (o ≡ some c) ⊎ ((n : ℕ) × (s : S) × (o ≡ some (calls.add_query_stats n c s).0.1))

  -- The cache analysis of a usable domain is the answer at the snapshot of the domain.
  abbrev pub IsCacheStats : AnalysisResult (Findings K) → Type 0
  IsCacheStats r =
      (usable (domain_coverage r Domains.database_stats) ≡ false)
      ⊎ ((s : S) × (c : K.CacheAnalysis) × ((calls.analyze_overall
              (snapshot_for r Domains.database_stats) s).0
            ≡ inr c)
          × IsOverall c r.findings.cache_stats)

  add_queries-IsOverall :
      (c : K.CacheAnalysis) (x : Run K S)
      → IsOverall c (add_queries calls c x).0.findings.cache_stats
  unfolding add_queries fail_domain add_error invalidate_domain
  add_queries-IsOverall c (r, s) = elim (ℕ-cases (snapshot_for r Domains.query_stats)) [
    | inl z ↦ inl (rw (z, add_queries) refl)
    | inr (n, z) ↦ elim (Bool-cases (usable (domain_coverage r Domains.query_stats))) [
      | inr u ↦ inl (rw (z, add_queries) (rw u refl))
      | inl u ↦ inr (
        suc n,
        s,
        elim (Option-cases (calls.add_query_stats (suc n) c s).0.0) [
          | inl e ↦ rw (z, add_queries) (rw u (rw e refl))
          | inr (m, e) ↦ rw (z, add_queries) (rw u (rw e refl))
        ],
      )
    ]
  ]

  cache_step-answers :
      (x : Run K S)
      → IsNumbered Domains.database_stats x.0
      → usable (domain_coverage (cache_step calls x).0 Domains.database_stats) ≡ true
      → (s : S) × (c : K.CacheAnalysis) × ((calls.analyze_overall
            (snapshot_for x.0 Domains.database_stats)
            s).0
          ≡ inr c)
        × IsOverall c (cache_step calls x).0.findings.cache_stats
  unfolding cache_step
  cache_step-answers (r, s) num u = elim (ℕ-cases (snapshot_for r Domains.database_stats)) [
    | inl z ↦ let u' = rw (z, cache_step) at u in absurd (num u' z)
    | inr (n, z) ↦ elim (Sum-cases (calls.analyze_overall (suc n) s).0) [
      | inl (m, e) ↦
          let u' = rw (z, cache_step) at u in
          let u'' = rw e at u' in
          absurd (fail_domain-ne-usable Domains.database_stats "cache analysis" m r u'')
      | inr (c, e) ↦ (
        s,
        c,
        rw z e,
        rw (z, cache_step)
            (rw e (add_queries-IsOverall c (r, (calls.analyze_overall (suc n) s).1))),
      )
    ]
  ]

  -- The steps behind the cache analysis.
  abbrev pub after_cache : List (Run K S → Run K S)
  after_cache =
      table_step calls
      ∷ index_step calls
      ∷ activity_step calls
      ∷ lock_step calls
      ∷ transaction_step calls
      ∷ plan_step calls
      ∷ risk_step calls
      ∷ settings_step calls
      ∷ []

  pub cache_step-IsCacheStats :
      (x : Run K S)
      → IsNumbered Domains.database_stats x.0
      → IsCacheStats (compose after_cache (cache_step calls x)).0
  unfolding snapshot_for
  cache_step-IsCacheStats x num =
      let d = Domains.database_stats in
      let y = cache_step calls x in
      let own = Keeps-cache_step calls d (λ (f : Findings K). f.slow_queries) (λ _ _. refl) x in
      let same =
        Same-compose d get_cache_stats after_cache
          (
            Keeps-table_step calls d get_cache_stats (λ _ _. refl),
            (
              Keeps-index_step calls d get_cache_stats (λ _ _. refl),
              (
                Keeps-activity_step calls d get_cache_stats (λ _ _. refl) (λ _ _. refl),
                (
                  Keeps-lock_step calls d get_cache_stats (λ _ _. refl),
                  (
                    Keeps-transaction_step calls d get_cache_stats (λ _ _. refl),
                    (
                      Keeps-plan_step calls d get_cache_stats (λ _ _. refl),
                      (
                        Keeps-risk_step calls d get_cache_stats (λ _ _. refl),
                        (Keeps-settings_step calls d get_cache_stats (λ _ _. refl), tt),
                      ),
                    ),
                  ),
                ),
              ),
            ),
          )
          y in
      elim (Bool-cases (usable (domain_coverage (compose after_cache y).0 d))) [
        | inr u ↦ inl u
        | inl u ↦
            let e = same.covered u in
            let u' = rw e at u in
            let (s, c, answer, overall) = cache_step-answers x num u' in
            let id = ap (λ v. v.snapshot_id) (e ∙ own.covered u') in
            inr (s, c, rw id answer, rw same.found overall)
      ]
