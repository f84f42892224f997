-- ===== src/Storage/Snapshots.antt =====
-- internal/storage/sqlite/storage.go: the snapshots and snapshot_collectors tables, and the operations on them.
use Prim.Native.String.{String, ◌++◌}
use better_pg_keeper.Common.{
  ℕ, suc, max, ◌⊎◌, inl, inr, ite, Bool, true, false, ◌&&◌, Option, none, some, List, [], ◌∷◌,
  ◌++◌ as append, ltb, leb, ℕ_discrete, str_dec, str_less, find_by, assign, filter, sort_by,
}
use better_pg_keeper.Models.{Snapshot, run_success, run_error, SnapshotCollector}
use better_pg_keeper.Storage.Db.{Environment, Db, tick, exec}

abbrev pub snapshot_id_of : Snapshot → ℕ
snapshot_id_of s = s.id

unfoldable pub next_snapshot_id : List Snapshot → ℕ
next_snapshot_id [] = 1
next_snapshot_id (s ∷ ss) = max (suc s.id) (next_snapshot_id ss)

-- ORDER BY captured_at DESC LIMIT 1
unfoldable pub later : Snapshot → Snapshot → Bool
later a b = ltb b.captured_at a.captured_at

unfoldable pub first_of : List Snapshot → Option Snapshot
first_of [] = none
first_of (s ∷ ss) = some s

unfoldable pub of_snapshot_instance : ℕ → Snapshot → Bool
of_snapshot_instance instance s = ite (ℕ_discrete s.instance_id instance) true false

unfoldable pub latest_of : ℕ → List Snapshot → Option Snapshot
unfolding filter sort_by first_of later of_snapshot_instance
latest_of instance ss = first_of (sort_by later (filter (of_snapshot_instance instance) ss))

-- The primary key of snapshot_collectors.
abbrev pub RunKey : Type 0
RunKey = ℕ × String

unfoldable pub run_key_dec : Discrete RunKey
unfolding ℕ_discrete str_dec
run_key_dec = hlevel (ℕ_discrete, str_dec)

abbrev pub run_key : SnapshotCollector → RunKey
run_key r = (r.snapshot_id, r.collector)

unfoldable pub run_at : RunKey → List SnapshotCollector → Option SnapshotCollector
unfolding find_by
run_at k = find_by run_key run_key_dec k

-- INSERT ... ON CONFLICT DO UPDATE
unfoldable pub record_run : SnapshotCollector → List SnapshotCollector → List SnapshotCollector
record_run = assign run_key run_key_dec

-- The join with the successful runs of a collector.
unfoldable pub contributed : String → List SnapshotCollector → Snapshot → Bool
unfolding run_at
contributed collector runs s = elim (run_at (s.id, collector) runs) [
  | none ↦ false
  | some r ↦ elim r.run_status [ run_success ↦ true | run_error ↦ false ]
]

-- `none` is the zero time, which does not bound the search.
unfoldable pub not_after : Option ℕ → Snapshot → Bool
not_after bound s = elim bound [ none ↦ true | some t ↦ leb s.captured_at t ]

unfoldable pub latest_with_collector :
    ℕ → String → Option ℕ → List Snapshot → List SnapshotCollector → Option Snapshot
unfolding latest_of contributed not_after filter
latest_with_collector instance collector bound ss runs =
    latest_of instance (filter (λ s. contributed collector runs s && not_after bound s) ss)

module _ (env : Environment) where
  unfoldable pub create_snapshot : Snapshot → Db → (String ⊎ ℕ) × Db
  unfolding tick next_snapshot_id
  create_snapshot snap db = elim (env.fails db.statements) [
    | some e ↦ (inl ("creating snapshot: " ++ e), tick db)
    | none ↦
        let id = next_snapshot_id db.snapshots in
        (
          inr id,
          tick (record db { snapshots = append db.snapshots (record snap { id = id } ∷ []) }),
        )
  ]

  unfoldable pub get_snapshot_by_id : ℕ → Db → (String ⊎ Option Snapshot) × Db
  unfolding tick find_by
  get_snapshot_by_id id db = elim (env.fails db.statements) [
    | some e ↦ (inl ("getting snapshot: " ++ e), tick db)
    | none ↦ (inr (find_by snapshot_id_of ℕ_discrete id db.snapshots), tick db)
  ]

  unfoldable pub get_latest_snapshot : ℕ → Db → (String ⊎ Option Snapshot) × Db
  unfolding tick latest_of
  get_latest_snapshot instance db = elim (env.fails db.statements) [
    | some e ↦ (inl ("getting latest snapshot: " ++ e), tick db)
    | none ↦ (inr (latest_of instance db.snapshots), tick db)
  ]

  unfoldable pub record_collector_run : SnapshotCollector → Db → Option String × Db
  unfolding exec record_run
  record_collector_run run =
      exec env "recording collector run: "
        (λ db. record db { snapshot_collectors = record_run run db.snapshot_collectors })

  unfoldable pub get_latest_snapshot_with_collector :
      ℕ → String → Option ℕ → Db → (String ⊎ Option Snapshot) × Db
  unfolding tick latest_with_collector
  get_latest_snapshot_with_collector instance collector bound db = elim (env.fails db.statements) [
    | some e ↦
        (inl ("getting latest snapshot with collector " ++ (collector ++ (": " ++ e))), tick db)
    | none ↦ (
      inr (latest_with_collector instance collector bound db.snapshots db.snapshot_collectors),
      tick db,
    )
  ]

  -- SELECT ... WHERE snapshot_id = ? ORDER BY collector
  unfoldable pub get_snapshot_collectors : ℕ → Db → (String ⊎ List SnapshotCollector) × Db
  unfolding tick filter sort_by str_less
  get_snapshot_collectors id db = elim (env.fails db.statements) [
    | some e ↦ (inl ("querying snapshot collectors: " ++ e), tick db)
    | none ↦ (
      inr (
          sort_by (λ a b. str_less a.collector b.collector)
            (filter (λ r. ite (ℕ_discrete r.snapshot_id id) true false) db.snapshot_collectors)),
      tick db,
    )
  ]
