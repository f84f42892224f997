-- ===== src/Storage/Purge.antt =====
-- internal/storage/sqlite/storage.go, PurgeOldSnapshots and ListSnapshots. The foreign key of snapshot_collectors deletes
-- the runs of a snapshot with it.
pub mod Latest
use Prim.Native.String.{String, ◌++◌}
use better_pg_keeper.Common.{
  ℕ, ◌+◌, ◌⊎◌, inl, inr, Bool, true, false, not, none, some, List, [], ◌∷◌, ltb, leb, ite,
  ℕ_discrete, take, length, filter, sort_by, if◌then◌else◌,
}
use better_pg_keeper.Models.{Snapshot, SnapshotCollector}
use better_pg_keeper.Storage.Db.{Environment, Db, tick}
use better_pg_keeper.Storage.Snapshots.{later, of_snapshot_instance}

-- WHERE captured_at < now - retention
unfoldable pub is_old : ℕ → ℕ → Snapshot → Bool
is_old now retention s = ltb (s.captured_at + retention) now

unfoldable pub has_snapshot : ℕ → List Snapshot → Bool
has_snapshot id [] = false
has_snapshot id (s ∷ ss) = ite (ℕ_discrete s.id id) true (has_snapshot id ss)

unfoldable pub kept_snapshots : ℕ → ℕ → List Snapshot → List Snapshot
unfolding filter is_old
kept_snapshots now retention = filter (λ s. not (is_old now retention s))

unfoldable pub purged_snapshots : ℕ → ℕ → List Snapshot → List Snapshot
unfolding filter is_old
purged_snapshots now retention = filter (is_old now retention)

-- ON DELETE CASCADE
unfoldable pub kept_runs : List Snapshot → List SnapshotCollector → List SnapshotCollector
unfolding filter has_snapshot
kept_runs purged = filter (λ r. not (has_snapshot r.snapshot_id purged))

module _ (env : Environment) where
  -- The error, or how many snapshots were deleted.
  unfoldable pub purge_old_snapshots : ℕ → Db → (String ⊎ ℕ) × Db
  unfolding tick kept_snapshots purged_snapshots kept_runs
  purge_old_snapshots retention db =
      let now = env.clock db.statements in
      let purged = purged_snapshots now retention db.snapshots in
      elim (env.fails db.statements) [
        | some e ↦ (inl ("purging old snapshots: " ++ e), tick db)
        | none ↦ (
          inr (length purged),
          tick (record db {
            snapshots = kept_snapshots now retention db.snapshots;
            snapshot_collectors = kept_runs purged db.snapshot_collectors;
          }),
        )
      ]

  -- A limit that is not positive is 100.
  unfoldable pub list_snapshots : ℕ → ℕ → Db → (String ⊎ List Snapshot) × Db
  unfolding tick filter sort_by later of_snapshot_instance
  list_snapshots instance limit db = elim (env.fails db.statements) [
    | some e ↦ (inl ("listing snapshots: " ++ e), tick db)
    | none ↦ (
      inr (
          take (if ltb 0 limit then limit else 100)
            (sort_by later (filter (of_snapshot_instance instance) db.snapshots))),
      tick db,
    )
  ]
