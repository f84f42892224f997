-- ===== src/Analyzer/Tests.antt =====
-- A small analysis, for the statement about MainAnalyzer.Analyze.
use Prim.Native.String.{String}
use better_pg_keeper.Common.{
  IsFree-of, lacks_char, ℕ, ◌+◌, ◌≡◌, refl, ◌⊎◌, inl, inr, pos, true, false, none, some, List, [],
  ◌∷◌, str_dec, ite, arith, find_by, assign, map, length, All, IsOrder, sort_by, str_less, fields,
}
use better_pg_keeper.Models.{Snapshot, Severity, critical, warning, info, run_success}
use better_pg_keeper.Analyzer.Coverage.{AnalysisResult, domain_coverage, usable}
use better_pg_keeper.Analyzer.Domains.{Storage, Config}
use better_pg_keeper.Analyzer.Indexes.{
  IndexStat, IndexIssue, Group, detect_duplicate_indexes, more_scanned, redundant_with,
}
use better_pg_keeper.Analyzer.Indexes.Retained.{
  IsCovered, IsConflict, IsPlainSchema, dot, detect_duplicate_indexes-retains,
}
use better_pg_keeper.Analyzer.Main.{Kinds, Findings, Calls, run_analyzers, begin, analyze}
use better_pg_keeper.Analyzer.Counts.{
  TableIssue, issue_kinds, count_if, is_minor, get_issue_count, get_critical_count,
  get_warning_count, get_issue_count-partition,
}
use better_pg_keeper.Analyzer.TimeRange.{RangeCalls, run_range, analyze_with_time_range}
use better_pg_keeper.Analyzer.TimeRange.Read.{
  IsIntervalRead, analyze_with_time_range-IsIntervalRead,
}
use better_pg_keeper.Analyzer.Main.Complete.{HasIds}

abbrev pub texts : Kinds
texts = record {
  SlowQuery = String;
  CacheAnalysis = ℕ;
  TableIssue = String;
  IndexIssue = String;
  ActivityAnalysis = ℕ;
  ConnectionPeak = ℕ;
  LockAnalysis = ℕ;
  TransactionAnalysis = ℕ;
  QueryPlans = ℕ;
  Risk = ℕ;
  Settings = ℕ;
}

-- The index analysis fails, and no lock data was collected.
abbrev pub calls : (S : Type 0) → Calls texts S
calls S = record {
  analyze_slow_queries = λ id s. (inr ("query:7" ∷ []), s);
  analyze_overall = λ id s. (inr 90, s);
  add_query_stats = λ id c s. ((none, c + 1), s);
  analyze_tables = λ id bloat s. (inr [], s);
  analyze_indexes = λ id s. (inl "locked", s);
  analyze_activity = λ id s. (inr (some 3), s);
  analyze_connection_peak = λ i t s. (inr none, s);
  analyze_locks = λ id s. (inr none, s);
  analyze_transactions = λ id s. (inr (some 11), s);
  analyze_query_plans = λ id s. (inl "no plans", s);
  analyze_risk = λ i id c s. (inr (some 1), s);
  analyze_settings = λ i id c s. (inr none, s);
}

abbrev pub anchor : Snapshot
anchor = record {
  id = 5;
  instance_id = 1;
  captured_at = 100;
  pg_version = "17";
  stats_reset = none;
}

-- Every domain but the bloat was collected into snapshot 5, at 90.
abbrev pub domain_storage : (S : Type 0) → Storage S
domain_storage S = record {
  get_snapshot_by_id = λ id s. (inr (some anchor), s);
  get_latest_snapshot_with_collector =
      λ i d t s. (inr (ite (str_dec d "bloat") none (some anchor)), s);
  get_snapshot_collectors = λ id s. (
    inr (
        record {
          snapshot_id = 5;
          collector = "locks";
          run_status = run_success;
          collected_at = 90;
          error = "";
        }
        ∷ record {
          snapshot_id = 5;
          collector = "index_stats";
          run_status = run_success;
          collected_at = 90;
          error = "";
        }
        ∷ record {
          snapshot_id = 5;
          collector = "query_stats";
          run_status = run_success;
          collected_at = 90;
          error = "";
        }
        ∷ []),
    s,
  );
}

abbrev pub config : Config
config = record { collector_intervals = ("query_stats", pos 5) ∷ []; scale = λ n. n + n + n }

pub domain_storage-HasIds : (S : Type 0) → HasIds (domain_storage S)
domain_storage-HasIds S i d t s snap h = elim (str_dec d "bloat") [
  | yes p ↦ ground (arith, p, h)
  | no p ↦ ground (arith, p, h)
]

abbrev outcome : (String ⊎ AnalysisResult (Findings texts)) × ℕ
outcome = analyze (domain_storage ℕ) config (calls ℕ) 100 5 0

abbrev finished : AnalysisResult (Findings texts)
finished = (run_analyzers (calls ℕ) (begin (domain_storage ℕ) config 100 5 anchor 0)).0

finished_coverage :
    (usable (domain_coverage finished "query_stats") ≡ true)
    × (usable (domain_coverage finished "index_stats") ≡ false)
    × (usable (domain_coverage finished "locks") ≡ false)
    × (finished.findings.slow_queries ≡ "query:7" ∷ [])
    × (finished.findings.cache_stats ≡ none)
    × (finished.errors ≡ "index analysis: locked" ∷ [])
unfolding run_analyzers begin domain_coverage usable str_dec find_by assign
finished_coverage = (refl, refl, refl, refl, refl, refl)

abbrev pub plain_index : String → ℕ → String → IndexStat
plain_index name scans keys = record {
  schema_name = "public";
  rel_name = "orders";
  index_rel_name = name;
  idx_scan = scans;
  index_size = 2097152;
  is_unique = false;
  is_primary = false;
  access_method = "btree";
  index_def = "";
  key_columns = keys;
  include_columns = "";
  expressions = "";
  predicate = "";
  backs_foreign_key = false;
  stats_since = none;
}

abbrev pub as_given : List Group → List Group
as_given l = l

pub as_given-IsOrder : IsOrder as_given
as_given-IsOrder = record { keeps = λ P l a. a; covers = λ e l m. m }

-- Two identical indexes, and one whose key starts the others'.
abbrev pub index_stats : List IndexStat
index_stats =
    plain_index "a" 5 "1:0:0:0 2:0:0:0"
    ∷ plain_index "b" 9 "1:0:0:0 2:0:0:0"
    ∷ plain_index "c" 7 "1:0:0:0"
    ∷ []

detected :
    map {A = IndexIssue} {B = String × String}
      (λ i. (i.index_name, i.duplicate_of))
      (detect_duplicate_indexes as_given index_stats)
    ≡ ("c", "b") ∷ ("a", "b") ∷ []
unfolding detect_duplicate_indexes sort_by more_scanned str_less redundant_with str_dec assign
    find_by fields
detected = refl

pub index_stats-plain : All IsPlainSchema index_stats
unfolding lacks_char
index_stats-plain =
    (IsFree-of dot "public" refl, (IsFree-of dot "public" refl, (IsFree-of dot "public" refl, tt)))

detect_duplicate_indexes-retains_example :
    All
      (λ i.
        IsCovered index_stats i
        × All (λ j. ¬ IsConflict i j) (detect_duplicate_indexes as_given index_stats))
      (detect_duplicate_indexes as_given index_stats)
detect_duplicate_indexes-retains_example =
    detect_duplicate_indexes-retains as_given as_given-IsOrder index_stats index_stats-plain

-- The interval of an hour; its cache details cannot be read.
abbrev range_calls : (ok : String ⊎ List String) → RangeCalls texts ℕ
range_calls ok = record {
  analyze_with_deltas = λ from to s. (ok, s + 1);
  add_query_deltas = λ from to c s. ((none, c), s);
}

abbrev ranged : String ⊎ List String → AnalysisResult (Findings texts)
ranged ok =
    (run_range (calls ℕ) (range_calls ok) 4 5 (begin (domain_storage ℕ) config 100 5 anchor 0)).0

ranged_queries :
    (usable (domain_coverage (ranged (inr ("query:9" ∷ []))) "query_stats") ≡ true)
    × ((ranged (inr ("query:9" ∷ []))).findings.slow_queries ≡ "query:9" ∷ [])
    × (usable (domain_coverage (ranged (inl "gone")) "query_stats") ≡ false)
unfolding run_range begin domain_coverage usable str_dec find_by assign
ranged_queries = (refl, refl, refl)

ranged_result :
    (analyze_with_time_range
      (domain_storage ℕ)
      config
      (calls ℕ)
      (range_calls (inr ("query:9" ∷ [])))
      100
      4
      5
      0).0
    ≡ inr (ranged (inr ("query:9" ∷ [])))
unfolding analyze_with_time_range
ranged_result = refl

analyze_with_time_range-IsIntervalRead_example :
    IsIntervalRead
      (calls ℕ)
      (range_calls (inr ("query:9" ∷ [])))
      4
      5
      (ranged (inr ("query:9" ∷ [])))
analyze_with_time_range-IsIntervalRead_example =
    analyze_with_time_range-IsIntervalRead (domain_storage ℕ) config (calls ℕ)
      (range_calls (inr ("query:9" ∷ []))) 100 4 5 0 (ranged (inr ("query:9" ∷ []))) ranged_result

abbrev table_issue : Severity → TableIssue ℕ
table_issue severity = record {
  schema_name = "public";
  table_name = "orders";
  issue_type = "high_bloat";
  severity = severity;
  current_value = 60;
  threshold = 50;
  description = "";
  last_vacuum = none;
  last_analyze = none;
  n_dead_tup = 0;
  n_live_tup = 0;
  table_size = 0;
  seq_scan_ratio = 0;
}

abbrev counted : Findings (issue_kinds ℕ texts)
counted = record {
  slow_queries = "query:7" ∷ [];
  cache_stats = some (record {
    overall_hit_ratio = 80;
    below_threshold = true;
    threshold = 95;
    tracked_queries = 9;
    poor_cache_queries = [];
  });
  table_issues = table_issue critical ∷ table_issue warning ∷ table_issue info ∷ [];
  index_issues = [];
  activity_stats = none;
  peak = none;
  lock_stats = none;
  transaction_stats = none;
  risk = none;
  query_plans = none;
  settings = none;
}

counted_issues :
    (get_issue_count ℕ texts counted ≡ 5)
    × (get_critical_count ℕ texts counted ≡ 1)
    × (get_warning_count ℕ texts counted ≡ 3)
unfolding get_issue_count get_critical_count get_warning_count
counted_issues = (refl, refl, refl)

get_issue_count-partition_example :
    get_issue_count ℕ texts counted
    ≡ get_critical_count ℕ texts counted
      + get_warning_count ℕ texts counted
      + count_if (λ i. is_minor i.severity) counted.table_issues
      + count_if (λ i. is_minor i.severity) counted.index_issues
      + elim counted.cache_stats [ none ↦ 0 | some c ↦ length c.poor_cache_queries ]
get_issue_count-partition_example = get_issue_count-partition ℕ texts counted
