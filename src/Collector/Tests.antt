-- ===== src/Collector/Tests.antt =====
-- A cycle of two collectors, one of which fails.
use Prim.Native.String.{String}
use better_pg_keeper.Common.{
  ◌≡◌, ◌≢◌, refl, ◌⊎◌, inr, true, none, some, List, [], ◌∷◌, arith, IsOrder, ne_by, str_dec,
  find_by, map, ℕ_discrete, assign,
}
use better_pg_keeper.Models.{run_success, run_error, SnapshotCollector}
use better_pg_keeper.Storage.Db.{Environment, Db}
use better_pg_keeper.Storage.Snapshots.{run_at, run_key_dec}
use better_pg_keeper.Collector.Sqlite.{sqlite_snapshots}
use better_pg_keeper.Collector.Coordinator.{
  Collector, Coordinator, CollectionResult, is_due, collect,
}
use better_pg_keeper.Collector.Coordinator.Failures.{IsFailing, HasNoSuccess}
use better_pg_keeper.Collector.Coordinator.Cycles.{collect-keeps_failed}

abbrev healthy : Environment
healthy = record { fails = λ _. none; clock = λ n. n }

abbrev good : Collector
good = record {
  name = "query_stats";
  interval = 60;
  attempt = λ _. record { cancelled = none; error = none; recorded_at = 103; finished_at = 104 };
}

abbrev bad : Collector
bad = record {
  name = "table_stats";
  interval = 30;
  attempt = λ _. record {
    cancelled = none;
    error = some "timeout";
    recorded_at = 105;
    finished_at = 106;
  };
}

abbrev coordinator : Coordinator
coordinator = record {
  instance_id = 1;
  collectors = good ∷ bad ∷ [];
  snapshot_window = 50;
  last_run = ("query_stats", 20) ∷ ("table_stats", 60) ∷ [];
}

abbrev db : Db
db = record {
  suggestions = [];
  notification_states = [];
  notifier_times = [];
  snapshots =
      record { id = 7; instance_id = 1; captured_at = 60; pg_version = "16"; stats_reset = none }
      ∷ [];
  snapshot_collectors = [];
  statements = 0;
}

abbrev as_given : List Collector → List Collector
as_given l = l

as_given-IsOrder : IsOrder as_given
as_given-IsOrder = record { keeps = λ P l a. a; covers = λ e l m. m }

abbrev cycle : (String ⊎ CollectionResult) × Coordinator × Db
cycle = collect (sqlite_snapshots healthy) as_given none 100 101 102 "16" none coordinator db

other_name : good.name ≢ bad.name
unfolding str_dec
other_name = ne_by str_dec _ _ refl

bad-IsFailing : IsFailing bad
bad-IsFailing = λ id. inr (λ h. absurd (cc (h)))

no_runs : HasNoSuccess 7 "table_stats" db.snapshot_collectors
unfolding run_at find_by
no_runs r h = absurd (cc (h))

bad_due : is_due coordinator.last_run 100 bad ≡ true
unfolding is_due find_by str_dec
bad_due = refl

collect-keeps_failed_example :
    HasNoSuccess 7 "table_stats" cycle.2.snapshot_collectors
    × (is_due cycle.1.last_run 110 bad ≡ true)
unfolding sqlite_snapshots
collect-keeps_failed_example =
    collect-keeps_failed (sqlite_snapshots healthy) as_given as_given-IsOrder none 100 101 102 "16"
      none coordinator db bad 7 110 ((λ e. absurd (other_name e)), ((λ e. bad-IsFailing), tt))
      no_runs bad_due (omega arith)

-- Both outcomes are recorded.
cycle_runs :
    map (λ (r : SnapshotCollector). r.run_status) cycle.2.snapshot_collectors
    ≡ run_success ∷ run_error ∷ []
unfolding collect find_by str_dec sqlite_snapshots ℕ_discrete assign run_key_dec
cycle_runs = refl
