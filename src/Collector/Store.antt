-- ===== src/Collector/Store.antt =====
-- internal/collector/coordinator.go: the operations of the storage that the coordinator calls, with what it may
-- rely on. `runs` is the snapshot_collectors table.
use Prim.Native.String.{String}
use better_pg_keeper.Common.{ℕ, ◌≡◌, ◌≢◌, ◌⊎◌, Option, none, List}
use better_pg_keeper.Models.{Snapshot, SnapshotCollector}
use better_pg_keeper.Storage.Snapshots.{record_run}

pub record Storage (S : Type 0) : Type 0 where
  pub runs : S → List SnapshotCollector
  pub get_latest_snapshot : ℕ → S → (String ⊎ Option Snapshot) × S
  pub create_snapshot : Snapshot → S → (String ⊎ ℕ) × S
  pub record_collector_run : SnapshotCollector → S → Option String × S
  pub latest_read : (instance : ℕ) (s : S) → runs (get_latest_snapshot instance s).1 ≡ runs s
  pub snapshot_made : (snap : Snapshot) (s : S) → runs (create_snapshot snap s).1 ≡ runs s
  -- A run is recorded, or its recording fails and leaves the table alone.
  pub run_recorded :
      (run : SnapshotCollector) (s : S)
      → (runs (record_collector_run run s).1 ≡ record_run run (runs s))
        ⊎ ((record_collector_run run s).0 ≢ none) × (runs (record_collector_run run s).1 ≡ runs s)
