-- ===== src/Storage/Tests.antt =====
-- A purge of three snapshots, one of which is old, for the statement about it.
use better_pg_keeper.Common.{
  ℕ, ◌+◌, ◌≡◌, refl, ◌⊎◌, inr, false, none, some, [], ◌∷◌, arith, str_dec, ℕ_discrete, find_by, map,
  filter, sort_by, Distinct,
}
use Prim.Native.String.{String}
use better_pg_keeper.Models.{Snapshot, SnapshotCollector, run_success}
use better_pg_keeper.Storage.Db.{Environment, Db}
use better_pg_keeper.Storage.Snapshots.{
  snapshot_id_of, latest_with_collector, contributed, run_key_dec,
}
use better_pg_keeper.Storage.Purge.{is_old, purge_old_snapshots}
use better_pg_keeper.Storage.Purge.Latest.{purge_old_snapshots-keeps_latest}

abbrev env : Environment
env = record { fails = λ _. none; clock = λ n. n + 1000 }

abbrev snapshot : ℕ → ℕ → Snapshot
snapshot id at = record {
  id = id;
  instance_id = 1;
  captured_at = at;
  pg_version = "17";
  stats_reset = none;
}

abbrev bloat_run : ℕ → SnapshotCollector
bloat_run id = record {
  snapshot_id = id;
  collector = "bloat";
  run_status = run_success;
  collected_at = 1;
  error = "";
}

abbrev db : Db
db = record {
  suggestions = [];
  notification_states = [];
  notifier_times = [];
  snapshots = snapshot 1 100 ∷ snapshot 2 700 ∷ snapshot 3 900 ∷ [];
  snapshot_collectors = bloat_run 1 ∷ bloat_run 2 ∷ [];
  statements = 0;
}

abbrev purged : (String ⊎ ℕ) × Db
purged = purge_old_snapshots env 500 db

purged_db :
    (purged.0 ≡ inr 1)
    × (map snapshot_id_of purged.1.snapshots ≡ 2 ∷ 3 ∷ [])
    × (purged.1.snapshot_collectors ≡ bloat_run 2 ∷ [])
unfolding purge_old_snapshots ℕ_discrete
purged_db = (refl, refl, refl)

db-Distinct : Distinct snapshot_id_of db.snapshots
db-Distinct = ((ground arith, (ground arith, tt)), ((ground arith, tt), (tt, tt)))

bloat_snapshot :
    latest_with_collector 1 "bloat" none db.snapshots db.snapshot_collectors ≡ some (snapshot 2 700)
unfolding latest_with_collector contributed run_key_dec find_by str_dec filter sort_by
bloat_snapshot = refl

bloat_recent : is_old (env.clock db.statements) 500 (snapshot 2 700) ≡ false
unfolding is_old
bloat_recent = refl

purge_old_snapshots-keeps_latest_example :
    latest_with_collector 1 "bloat" none purged.1.snapshots purged.1.snapshot_collectors
    ≡ some (snapshot 2 700)
purge_old_snapshots-keeps_latest_example =
    purge_old_snapshots-keeps_latest env 500 db db-Distinct 1 "bloat" none (snapshot 2 700)
      bloat_snapshot bloat_recent
