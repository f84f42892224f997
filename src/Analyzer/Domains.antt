-- ===== src/Analyzer/Domains.antt =====
-- internal/analyzer/analyzer.go and internal/analyzer/main.go: the data domains, and how an analysis finds for each
-- of them the snapshot that last carried it (resolveDomains).
use Prim.Native.String.{String}
use better_pg_keeper.Common.{
  ℕ, zero, suc, ℤ, pos, negsuc, sub_ℕ, above, find_by, ◌⊎◌, inl, inr, ite, true, ◌&&◌, Option, none,
  some, List, [], ◌∷◌, ◌++◌, ltb, str_dec, assign, sprint,
}
use better_pg_keeper.Models.{Snapshot, SnapshotCollector, run_success, run_error}
use better_pg_keeper.Analyzer.Coverage.{DomainCoverage, uncovered, domain_name}

abbrev pub query_stats : String
query_stats = "query_stats"

abbrev pub table_stats : String
table_stats = "table_stats"

abbrev pub index_stats : String
index_stats = "index_stats"

abbrev pub bloat : String
bloat = "bloat"

abbrev pub activity : String
activity = "activity"

abbrev pub locks : String
locks = "locks"

abbrev pub database_stats : String
database_stats = "database_stats"

abbrev pub outage_risk : String
outage_risk = "outage_risk"

abbrev pub query_plans : String
query_plans = "query_plans"

abbrev pub settings : String
settings = "server_settings"

-- AllDomains.
abbrev pub all_domains : List String
all_domains =
    query_stats ∷ table_stats ∷ index_stats ∷ bloat ∷ activity ∷ locks ∷ database_stats
    ∷ outage_risk ∷ query_plans ∷ settings ∷ []

-- The part of the storage's interface that the domains are read through.
pub record Storage (S : Type 0) : Type 0 where
  pub get_snapshot_by_id : ℕ → S → (String ⊎ Option Snapshot) × S
  pub get_latest_snapshot_with_collector :
      ℕ → String → Option ℕ → S → (String ⊎ Option Snapshot) × S
  pub get_snapshot_collectors : ℕ → S → (String ⊎ List SnapshotCollector) × S

-- CollectorIntervals; `scale` is the product with the staleness factor, a floating-point number, cut
-- to a whole number of nanoseconds.
pub record Config : Type 0 where
  pub collector_intervals : List (String × ℤ)
  pub scale : ℕ → ℕ

abbrev pub interval_name : String × ℤ → String
interval_name e = e.0

unfoldable pub staleness_budget : Config → String → ℕ
unfolding find_by
staleness_budget c domain = elim (find_by interval_name str_dec domain c.collector_intervals) [
  | none ↦ 0
  | some (_, pos zero) ↦ 0
  | some (_, pos (suc n)) ↦ c.scale (suc n)
  | some (_, negsuc _) ↦ 0
]

-- The loop over the runs: the time of the first successful run of the domain's collector.
unfoldable pub observed_at : String → List SnapshotCollector → Option ℕ
observed_at domain [] = none
observed_at domain (r ∷ rs) =
    ite (str_dec r.collector domain)
      (elim r.run_status [ run_success ↦ some r.collected_at | run_error ↦ observed_at domain rs ])
      (observed_at domain rs)

unfoldable pub coverage_of : Config → ℕ → String → Snapshot → Option ℕ → DomainCoverage
unfolding staleness_budget
coverage_of c now domain snap observed = elim observed [
  | none ↦ uncovered
  | some t ↦
      let budget = staleness_budget c domain in
      let age = sub_ℕ now t in
      record {
        present = true;
        snapshot_id = snap.id;
        captured_at = t;
        age = age;
        stale = ltb 0 budget && above budget age;
      }
]

module _ {S : Type 0} (storage : Storage S) (c : Config) (now : ℕ) (anchor : Snapshot) where
  -- One round of the loop: the coverage of a domain, the errors, and the storage.
  unfoldable pub resolve_domain : String → S → DomainCoverage × List String × S
  unfolding coverage_of observed_at
  resolve_domain domain s =
      let (found, s') =
        storage.get_latest_snapshot_with_collector anchor.instance_id domain
          (some anchor.captured_at) s in
      elim found [
        | inl e ↦ (uncovered, sprint ("resolving " ∷ domain ∷ " coverage: " ∷ e ∷ []) ∷ [], s')
        | inr none ↦ (uncovered, [], s')
        | inr (some snap) ↦
            let (runs, s'') = storage.get_snapshot_collectors snap.id s' in
            elim runs [
              | inl e ↦ (
                uncovered,
                sprint ("resolving " ∷ domain ∷ " collection time: " ∷ e ∷ []) ∷ [],
                s'',
              )
              | inr rs ↦ (coverage_of c now domain snap (observed_at domain rs), [], s'')
            ]
      ]

  -- The coverage map is filled in the order of the domains.
  unfoldable pub resolve_domains :
      List String
      → List (String × DomainCoverage)
      → S
      → List (String × DomainCoverage) × List String × S
  unfolding resolve_domain
  resolve_domains [] m s = (m, [], s)
  resolve_domains (d ∷ ds) m s =
      let (cov, errs, s') = resolve_domain d s in
      let (m', more, s'') = resolve_domains ds (assign domain_name str_dec (d, cov) m) s' in
      (m', errs ++ more, s'')
