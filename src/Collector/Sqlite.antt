-- ===== src/Collector/Sqlite.antt =====
-- internal/storage/sqlite as the storage of internal/collector/coordinator.go: the operations keep what the
-- coordinator relies on, whatever statements fail.
use better_pg_keeper.Common.{ℕ, ◌≡◌, ◌≢◌, ◌⊎◌, none, arith}
use better_pg_keeper.Models.{Snapshot, SnapshotCollector}
use better_pg_keeper.Storage.Db.{Environment, Db, tick, exec}
use better_pg_keeper.Storage.Snapshots.{
  record_run, create_snapshot, get_latest_snapshot, record_collector_run,
}
use better_pg_keeper.Collector.Store.{Storage}

module _ (env : Environment) where
  pub latest_kept :
      (instance : ℕ) (db : Db)
      → (get_latest_snapshot env instance db).1.snapshot_collectors ≡ db.snapshot_collectors
  unfolding get_latest_snapshot tick
  latest_kept instance db = ground arith

  pub created_kept :
      (snap : Snapshot) (db : Db)
      → (create_snapshot env snap db).1.snapshot_collectors ≡ db.snapshot_collectors
  unfolding create_snapshot tick
  created_kept snap db = ground arith

  pub recorded_or_kept :
      (run : SnapshotCollector) (db : Db)
      → ((record_collector_run env run db).1.snapshot_collectors
          ≡ record_run run db.snapshot_collectors)
        ⊎ ((record_collector_run env run db).0 ≢ none)
          × ((record_collector_run env run db).1.snapshot_collectors ≡ db.snapshot_collectors)
  unfolding record_collector_run exec tick
  recorded_or_kept run db = ground arith

  unfoldable pub sqlite_snapshots : Storage Db
  unfolding create_snapshot get_latest_snapshot record_collector_run
  sqlite_snapshots = record {
    runs = λ db. db.snapshot_collectors;
    get_latest_snapshot = get_latest_snapshot env;
    create_snapshot = create_snapshot env;
    record_collector_run = record_collector_run env;
    latest_read = latest_kept;
    snapshot_made = created_kept;
    run_recorded = recorded_or_kept;
  }
