-- ===== src/Collector/Coordinator.antt =====
-- internal/collector/coordinator.go: which collectors run, against which snapshot, and what is recorded of each.
-- The collectors, the PostgreSQL client and the readings of the clock are parameters. The collectors of a
-- cycle run side by side; each works on its own map entries and its own coverage row, so a cycle is the list
-- of their runs in the order in which they end.
pub mod Failures
pub mod Cycles
use Prim.Native.String.{String}
use better_pg_keeper.Common.{
  ℕ, ◌+◌, ◌⊎◌, inl, inr, Bool, true, false, Option, none, some, List, [], ◌∷◌, ◌++◌, ltb, leb,
  str_dec, find_by, assign, filter, entry_key, sprint, ite, if◌then◌else◌,
}
use better_pg_keeper.Models.{Snapshot, RunStatus, run_success, run_error, SnapshotCollector}
use better_pg_keeper.Collector.Store.{Storage}

-- One attempt of a collector: ctx.Err() before it, the error of Collect, and the times at which the run is
-- recorded and at which it ends.
pub record Attempt : Type 0 where
  pub cancelled : Option String
  pub error : Option String
  pub recorded_at : ℕ
  pub finished_at : ℕ

pub record Collector : Type 0 where
  pub name : String
  pub interval : ℕ
  pub attempt : ℕ → Attempt

-- lastRun and the Errors of a result, as the entries of the maps.
abbrev pub LastRun : Type 0
LastRun = List (String × ℕ)

pub record CollectionResult : Type 0 where
  pub snapshot_id : ℕ
  pub started_at : ℕ
  pub errors : List (String × String)

pub record Coordinator : Type 0 where
  pub instance_id : ℕ
  pub collectors : List Collector
  pub snapshot_window : ℕ
  pub last_run : LastRun

pub record Cycle (S : Type 0) : Type 0 where
  pub errors : List (String × String)
  pub last_run : LastRun
  pub store : S

unfoldable pub is_due : LastRun → ℕ → Collector → Bool
is_due last_run now coll = elim (find_by entry_key str_dec coll.name last_run) [
  | none ↦ true
  | some e ↦ leb (e.1 + coll.interval) now
]

unfoldable pub get_due_collectors : LastRun → ℕ → List Collector → List Collector
unfolding filter is_due
get_due_collectors last_run now = filter (is_due last_run now)

unfoldable pub run_of : ℕ → String → Option String → ℕ → SnapshotCollector
run_of snapshot_id name failed at = record {
  snapshot_id = snapshot_id;
  collector = name;
  run_status = elim failed [ none ↦ run_success | some _ ↦ run_error ];
  collected_at = at;
  error = elim failed [ none ↦ "" | some e ↦ e ];
}

unfoldable pub min_interval : List Collector → ℕ
min_interval [] = 0
min_interval (c ∷ cs) =
    let rest = min_interval cs in
    elim cs [ [] ↦ c.interval | _ ∷ _ ↦ if ltb rest c.interval then rest else c.interval ]

module _ {S : Type 0} (storage : Storage S) where
  -- recordCollectorRun: a failure to record is logged, and nothing else.
  unfoldable pub record_collector_run : ℕ → String → Option String → ℕ → S → S
  unfolding run_of
  record_collector_run snapshot_id name failed at s =
      (storage.record_collector_run (run_of snapshot_id name failed at) s).1

  abbrev pub failed_with : String → String → Cycle S → Cycle S
  failed_with name e c = record c { errors = assign entry_key str_dec (name, e) c.errors }

  unfoldable pub run_collector : ℕ → Collector → Cycle S → Cycle S
  unfolding record_collector_run
  run_collector snapshot_id coll c =
      let a = coll.attempt snapshot_id in
      let c' = record c {
        store = record_collector_run snapshot_id coll.name a.error a.recorded_at c.store;
      } in
      elim a.error [
        | some e ↦ failed_with coll.name e c'
        | none ↦ record c' {
          last_run = assign entry_key str_dec (coll.name, a.finished_at) c.last_run;
        }
      ]

  -- The goroutine of a collector.
  unfoldable pub run_one : ℕ → Collector → Cycle S → Cycle S
  unfolding run_collector record_collector_run
  run_one snapshot_id coll c =
      let a = coll.attempt snapshot_id in
      elim a.cancelled [
        | some e ↦ failed_with coll.name e (record c {
          store = record_collector_run snapshot_id coll.name (some e) a.recorded_at c.store;
        })
        | none ↦ run_collector snapshot_id coll c
      ]

  unfoldable pub run_all : ℕ → List Collector → Cycle S → Cycle S
  unfolding run_one
  run_all snapshot_id [] c = c
  run_all snapshot_id (coll ∷ colls) c = run_all snapshot_id colls (run_one snapshot_id coll c)

  -- A new snapshot of the instance. `version` and `reset` are the client's answers.
  unfoldable pub new_snapshot : ℕ → ℕ → String → Option ℕ → S → (String ⊎ ℕ) × S
  new_snapshot instance_id at version reset = storage.create_snapshot (record {
    id = 0;
    instance_id = instance_id;
    captured_at = at;
    pg_version = version;
    stats_reset = reset;
  })

  -- `since_at` is the time at which the age is taken, `at` that of the new snapshot.
  unfoldable pub get_or_create_snapshot : ℕ → ℕ → ℕ → ℕ → String → Option ℕ → S → (String ⊎ ℕ) × S
  unfolding new_snapshot
  get_or_create_snapshot instance_id max_age since_at at version reset s =
      let (answer, s') = storage.get_latest_snapshot instance_id s in
      elim answer [
        | inl e ↦ (inl (sprint ("getting latest snapshot: " ∷ e ∷ [])), s')
        | inr none ↦ new_snapshot instance_id at version reset s'
        | inr (some latest) ↦
            if ltb since_at (latest.captured_at + max_age)
            then (inr latest.id, s')
            else new_snapshot instance_id at version reset s'
      ]

  -- What happens with the snapshot at hand. `order` is the order in which the collectors end.
  unfoldable pub finish_cycle :
      (List Collector → List Collector)
      → Coordinator
      → ℕ
      → List Collector
      → ℕ
      → S
      → (String ⊎ CollectionResult) × Coordinator × S
  unfolding run_all
  finish_cycle order co started_at colls snapshot_id s =
      let c =
        run_all snapshot_id (order colls)
          (record { errors = []; last_run = co.last_run; store = s }) in
      (
        inr (record { snapshot_id = snapshot_id; started_at = started_at; errors = c.errors }),
        record co { last_run = c.last_run },
        c.store,
      )

  abbrev pub empty_result : ℕ → CollectionResult
  empty_result started_at = record { snapshot_id = 0; started_at = started_at; errors = [] }

  -- Collect, once it has its turn. `cancelled` is ctx.Err() while it waits.
  unfoldable pub collect :
      (List Collector → List Collector)
      → Option String
      → ℕ
      → ℕ
      → ℕ
      → String
      → Option ℕ
      → Coordinator
      → S
      → (String ⊎ CollectionResult) × Coordinator × S
  unfolding get_due_collectors get_or_create_snapshot finish_cycle
  collect order cancelled started_at since_at at version reset co s = elim cancelled [
    | some e ↦ (inl e, co, s)
    | none ↦ elim (get_due_collectors co.last_run started_at co.collectors) [
      | [] ↦ (inr (empty_result started_at), co, s)
      | d ∷ ds ↦
          let (answer, s') =
            get_or_create_snapshot co.instance_id co.snapshot_window since_at at version reset s in
          elim answer [
            | inl e ↦ (inl (sprint ("getting or creating snapshot: " ∷ e ∷ [])), co, s')
            | inr id ↦ finish_cycle order co started_at (d ∷ ds) id s'
          ]
    ]
  ]

  -- CollectAll: `busy` if another cycle holds the turn; `version` is the client's error or answer.
  unfoldable pub collect_all :
      (List Collector → List Collector)
      → Option String
      → Bool
      → ℕ
      → String ⊎ String
      → Option ℕ
      → Coordinator
      → S
      → (String ⊎ CollectionResult) × Coordinator × S
  unfolding new_snapshot finish_cycle
  collect_all order cancelled busy started_at version reset co s = elim cancelled [
    | some e ↦ (inl e, co, s)
    | none ↦ if busy then (inl "collection already in progress", co, s) else elim co.collectors [
      | [] ↦ (inr (empty_result started_at), co, s)
      | d ∷ ds ↦ elim version [
        | inl e ↦ (inl (sprint ("getting PostgreSQL version: " ∷ e ∷ [])), co, s)
        | inr v ↦
            let (answer, s') = new_snapshot co.instance_id started_at v reset s in
            elim answer [
              | inl e ↦ (inl (sprint ("creating snapshot: " ∷ e ∷ [])), co, s')
              | inr id ↦ finish_cycle order co started_at (d ∷ ds) id s'
            ]
      ]
    ]
  ]
