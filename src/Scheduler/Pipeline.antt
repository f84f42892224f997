-- ===== src/Scheduler/Pipeline.antt =====
-- internal/scheduler/loops.go, runAnalysis with the analyzer and the suggester of the program: what an analysis
-- that could not read its data does to the suggestions.
use Prim.Native.String.{String}
use better_pg_keeper.Common.{
  ℕ, ◌≡◌, ◌≢◌, ◌⊎◌, inl, inr, IsOrder, false, Option, some, List, [], ◌∷◌, Memᴰ, All, arith,
  Sum-cases,
}
use better_pg_keeper.Models
use better_pg_keeper.Models.{active}
use better_pg_keeper.Analyzer.Coverage.{AnalysisResult, domain_coverage, domains_usable, usable}
use better_pg_keeper.Analyzer.Domains
use better_pg_keeper.Analyzer.Domains.{Config}
use better_pg_keeper.Analyzer.Main.{Kinds, Findings, Calls, analyze}
use better_pg_keeper.Analyzer.Main.Complete.{HasIds, IsComplete, analyze-IsComplete}
use better_pg_keeper.Storage.Suggestions.{row_by_id}
use better_pg_keeper.Storage.Suggestions.Keys.{IsKeyed}
use better_pg_keeper.Suggester.Rule.{Rule}
use better_pg_keeper.Suggester.Store.{Storage}
use better_pg_keeper.Suggester.Suggest.{Existing, SuggestResult, suggest}
use better_pg_keeper.Suggester.Suggest.Resolvable.{IsSilent}
use better_pg_keeper.Suggester.Suggest.Hidden.{IsHiding}
use better_pg_keeper.Suggester.Suggest.Safety.{Reads, suggest-keeps_unobserved}
use better_pg_keeper.Scheduler.{run_analysis}

domains_usable-of_mem :
    {F : Type 0} (r : AnalysisResult F) (d : String) (ds : List String)
    → Memᴰ d ds
    → usable (domain_coverage r d) ≡ false
    → domains_usable r ds ≡ false
unfolding domains_usable
domains_usable-of_mem r d [] m u = elim m [ ]
domains_usable-of_mem r d (e ∷ ds) (Memᴰ.head p) u = ground (arith, p, u)
domains_usable-of_mem r d (e ∷ ds) (Memᴰ.tail m) u =
    ground (arith, domains_usable-of_mem r d ds m u)

-- The rules that need an unusable domain are silent.
blind :
    {F M : Type 0} (a : AnalysisResult F) (d id target : String) (rules : List (Rule F M))
    → usable (domain_coverage a d) ≡ false
    → All (λ rule. (rule.id ≢ id) ⊎ Memᴰ d rule.required_domains) rules
    → All (λ rule. rule.id ≡ id → IsSilent a rule ⊎ IsHiding a target rule) rules
blind a d id target [] u n = tt
blind a d id target (rule ∷ rules) u n = (
  λ e. inl (
      inl (elim n.0 [
        | inl ne ↦ absurd (ne e)
        | inr m ↦ domains_usable-of_mem a d rule.required_domains m u
      ])),
  blind a d id target rules u n.1,
)

module _ {K : Kinds} {S : Type 0} (calls : Calls K S) where
  -- The data of a domain cannot be read: its analyzer fails at every snapshot, or finds no data. The
  -- database statistics have two analyzers, and one of them is enough.
  abbrev pub IsUnread : String → Type 0
  IsUnread d =
      (d ≡ Domains.query_stats)
        × ((id : ℕ) (s : S) (a : List K.SlowQuery) → (calls.analyze_slow_queries id s).0 ≢ inr a)
      ⊎ (d ≡ Domains.index_stats)
        × ((id : ℕ) (s : S) (a : List K.IndexIssue) → (calls.analyze_indexes id s).0 ≢ inr a)
      ⊎ (d ≡ Domains.locks)
        × ((id : ℕ) (s : S) (a : K.LockAnalysis) → (calls.analyze_locks id s).0 ≢ inr (some a))
      ⊎ (d ≡ Domains.database_stats)
        × ((id : ℕ) (s : S) (a : K.TransactionAnalysis)
            → (calls.analyze_transactions id s).0 ≢ inr (some a))
      ⊎ (d ≡ Domains.query_plans)
        × ((id : ℕ) (s : S) (a : K.QueryPlans) → (calls.analyze_query_plans id s).0 ≢ inr (some a))
      ⊎ (d ≡ Domains.database_stats)
        × ((id : ℕ) (s : S) (a : K.CacheAnalysis) → (calls.analyze_overall id s).0 ≢ inr a)

  unread-usable :
      (d : String) (r : AnalysisResult (Findings K))
      → IsUnread d
      → IsComplete calls r
      → usable (domain_coverage r d) ≡ false
  unread-usable d r (inl (e, h)) (q, i, l, t, p, c) = elim q [
    | inl u ↦ rw e u
    | inr (s, ok) ↦ absurd (h _ s _ ok)
  ]
  unread-usable d r (inr (inl (e, h))) (q, i, l, t, p, c) = elim i [
    | inl u ↦ rw e u
    | inr (s, ok) ↦ absurd (h _ s _ ok)
  ]
  unread-usable d r (inr (inr (inl (e, h)))) (q, i, l, t, p, c) = elim l [
    | inl u ↦ rw e u
    | inr (a, _, (s, ok)) ↦ absurd (h _ s a ok)
  ]
  unread-usable d r (inr (inr (inr (inl (e, h))))) (q, i, l, t, p, c) = elim t [
    | inl u ↦ rw e u
    | inr (a, _, (s, ok)) ↦ absurd (h _ s a ok)
  ]
  unread-usable d r (inr (inr (inr (inr (inl (e, h)))))) (q, i, l, t, p, c) = elim p [
    | inl u ↦ rw e u
    | inr (a, _, (s, ok)) ↦ absurd (h _ s a ok)
  ]
  unread-usable d r (inr (inr (inr (inr (inr (e, h)))))) (q, i, l, t, p, c) = elim c [
    | inl u ↦ rw e u
    | inr (s, a, ok, _) ↦ absurd (h _ s a ok)
  ]

module _ {K : Kinds} {M S : Type 0} (calls : Calls K S) (domains : Domains.Storage S)
    (config : Config) (now : ℕ) (marshal : M → String ⊎ String) (storage : Storage S)
    (order : List Existing → List Existing) (rules : List (Rule (Findings K) M)) where
  -- runAnalysis over the program's analyzer and suggester.
  abbrev pub run_pipeline :
      ℕ → S → (Option (AnalysisResult (Findings K)) × Option SuggestResult × Option String) × S
  run_pipeline =
      run_analysis (analyze domains config calls now)
        (λ a. suggest marshal storage order rules (some a))

  -- If the data of a domain cannot be read, then a run of the analysis and the suggester keeps active
  -- every active suggestion whose rules need the domain, whatever else the analysis finds and
  -- whichever calls of the storage fail. The domain is that of the slow queries, the indexes, the locks,
  -- the database statistics, by either of their analyzers, or the query plans. The analysis does not
  -- write to the table of suggestions, which has distinct issues and ids, and the ids of stored
  -- snapshots are not 0.
  pub run_pipeline-keeps_unread :
      IsOrder order
      → HasIds domains
      → ((id : ℕ) (s : S) → storage.rows (analyze domains config calls now id s).1 ≡ storage.rows s)
      → (d : String) → IsUnread calls d
      → (id : ℕ) (s : S) (r : Models.Suggestion) → IsKeyed (storage.rows s)
      → row_by_id r.id (storage.rows s) ≡ some r
      → r.status ≡ active
      → All (λ rule. (rule.id ≢ r.rule_id) ⊎ Memᴰ d rule.required_domains) rules
      → Reads r.id active (storage.rows (run_pipeline id s).1)
  unfolding run_analysis
  run_pipeline-keeps_unread iteration ids quiet d unread id s r keyed found act needed =
      let call = analyze domains config calls now id s in
      let same = quiet id s in
      elim (Sum-cases call.0) [
        | inl (e, c) ↦ rw (c, run_analysis) (rw same (record { row = r; found = found; has = act }))
        | inr (a, c) ↦
            let u =
              unread-usable calls d a unread
                (analyze-IsComplete domains config calls now ids id s a c) in
            let kept =
              suggest-keeps_unobserved marshal storage order iteration rules a call.1 r
                (rw same keyed) (rw same found) act
                (blind a d r.rule_id r.target_object rules u needed) in
            elim (Sum-cases (suggest marshal storage order rules (some a) call.1).0) [
              | inl (e', c') ↦ rw (c, run_analysis) (rw c' kept)
              | inr (b, c') ↦ rw (c, run_analysis) (rw c' kept)
            ]
      ]
