-- ===== src/Collector/Coordinator/Cycles.antt =====
-- internal/collector/coordinator.go, Collect: what a cycle leaves of a collector that fails.
use Prim.Native.String.{String}
use better_pg_keeper.Common.{
  ℕ, ◌+◌, ◌≤◌, ◌≡◌, ◌∙◌, refl, ◌⊎◌, inl, inr, true, Option, none, some, List, ◌∷◌, arith, All,
  All-filter, IsOrder, entry_key, find_by, str_dec, leb, Option-cases, Sum-cases, List-cases,
  Bool-cases, ltb,
}
use better_pg_keeper.Collector.Store.{Storage}
use better_pg_keeper.Collector.Coordinator.{
  Collector, LastRun, CollectionResult, Coordinator, is_due, get_due_collectors, new_snapshot,
  get_or_create_snapshot, finish_cycle, collect,
}
use better_pg_keeper.Collector.Coordinator.Failures.{IsFailing, HasNoSuccess, run_all-IsUnchanged}

module _ {S : Type 0} (storage : Storage S) where
  new_snapshot-runs :
      (instance at : ℕ) (version : String) (reset : Option ℕ) (s : S)
      → storage.runs (new_snapshot storage instance at version reset s).1 ≡ storage.runs s
  unfolding new_snapshot
  new_snapshot-runs instance at version reset s = storage.snapshot_made _ s

  -- Finding the snapshot records no run.
  get_or_create_snapshot-runs :
      (instance max_age since_at at : ℕ) (version : String) (reset : Option ℕ) (s : S)
      → storage.runs (get_or_create_snapshot storage instance max_age since_at at version reset s).1
        ≡ storage.runs s
  unfolding get_or_create_snapshot
  get_or_create_snapshot-runs instance max_age since_at at version reset s =
      let answer = storage.get_latest_snapshot instance s in
      let made =
        new_snapshot-runs instance at version reset answer.1 ∙ storage.latest_read instance s in
      elim (Sum-cases answer.0) [
        | inl (e, failed) ↦ rw (failed, get_or_create_snapshot) (storage.latest_read instance s)
        | inr (o, ok) ↦ elim (Option-cases o) [
          | inl absent ↦ rw (ok, absent, get_or_create_snapshot) made
          | inr (latest, there) ↦ elim (Bool-cases (ltb since_at (latest.captured_at + max_age))) [
            | inl recent ↦
                rw (ok, there, recent, get_or_create_snapshot) (storage.latest_read instance s)
            | inr old ↦ rw (ok, there, old, get_or_create_snapshot) made
          ]
        ]
      ]

  module _ (order : List Collector → List Collector) (iteration : IsOrder order) (id : ℕ)
      (name : String) where
    abbrev Kept : LastRun → (String ⊎ CollectionResult) × Coordinator × S → Type 0
    Kept before r =
        (find_by entry_key str_dec name r.1.last_run ≡ find_by entry_key str_dec name before)
        × HasNoSuccess id name (storage.runs r.2)

    finish_cycle-Kept :
        (co : Coordinator) (started_at snapshot_id : ℕ) (colls : List Collector) (s : S)
        → All (λ c. c.name ≡ name → IsFailing c) colls
        → HasNoSuccess id name (storage.runs s)
        → Kept co.last_run (finish_cycle storage order co started_at colls snapshot_id s)
    unfolding finish_cycle
    finish_cycle-Kept co started_at snapshot_id colls s fails none_yet =
        run_all-IsUnchanged id name storage co.last_run snapshot_id (order colls) _
          (iteration.keeps (λ c. c.name ≡ name → IsFailing c) colls fails) (refl, none_yet)

    collect-Kept :
        (cancelled : Option String) (started_at since_at at : ℕ) (version : String)
        (reset : Option ℕ) (co : Coordinator) (s : S)
        → All (λ c. c.name ≡ name → IsFailing c) co.collectors
        → HasNoSuccess id name (storage.runs s)
        → Kept co.last_run
            (collect storage order cancelled started_at since_at at version reset co s)
    unfolding collect get_due_collectors
    collect-Kept cancelled started_at since_at at version reset co s fails none_yet =
        let due = get_due_collectors co.last_run started_at co.collectors in
        let due_fails =
          All-filter (λ c. c.name ≡ name → IsFailing c) (is_due co.last_run started_at)
            co.collectors fails in
        let answer =
          get_or_create_snapshot storage co.instance_id co.snapshot_window since_at at version reset
            s in
        let same =
          get_or_create_snapshot-runs co.instance_id co.snapshot_window since_at at version reset
            s in
        elim (Option-cases cancelled) [
          | inr (e, gone) ↦ rw (gone, collect) (refl, none_yet)
          | inl runs ↦ elim (List-cases due) [
            | inl nothing ↦ rw (runs, nothing, collect) (refl, none_yet)
            | inr (d, ds, some_due) ↦ elim (Sum-cases answer.0) [
              | inl (e, failed) ↦ rw (runs, some_due, failed, collect) (refl, rw same none_yet)
              | inr (snapshot_id, ok) ↦
                  rw (runs, some_due, ok, collect)
                    (finish_cycle-Kept co started_at snapshot_id (d ∷ ds) answer.1
                      (rw some_due at due_fails) (rw same none_yet))
            ]
          ]
        ]

  -- If every collector with a name fails in a cycle, then the cycle records no success for the name, for any
  -- snapshot that had none; and a collector with the name that was due is due at every later time, whether or
  -- not the cycle got as far as running it, and whichever calls of the storage fail.
  pub collect-keeps_failed :
      (order : List Collector → List Collector) (iteration : IsOrder order)
      → (cancelled : Option String) (started_at since_at at : ℕ) (version : String)
        (reset : Option ℕ) (co : Coordinator) (s : S) (coll : Collector) (id later : ℕ)
      → All (λ c. c.name ≡ coll.name → IsFailing c) co.collectors
      → HasNoSuccess id coll.name (storage.runs s)
      → is_due co.last_run started_at coll ≡ true
      → started_at ≤ later
      → HasNoSuccess id coll.name (
          storage.runs
            (collect storage order cancelled started_at since_at at version reset co s).2)
        × (is_due
              (collect storage order cancelled started_at since_at at version reset co s).1.last_run
              later
              coll
            ≡ true)
  unfolding is_due
  collect-keeps_failed order iteration cancelled started_at since_at at version reset co s coll id
        later fails none_yet due after =
      let (last, none_now) =
        collect-Kept order iteration id coll.name cancelled started_at since_at at version reset co
          s fails none_yet in
      (
        none_now,
        rw (last, is_due) (still_due (find_by entry_key str_dec coll.name co.last_run) due),
      )
    where
      still_due :
          (o : Option (String × ℕ))
          → elim o [ none ↦ true | some e ↦ leb (e.1 + coll.interval) started_at ] ≡ true
          → elim o [ none ↦ true | some e ↦ leb (e.1 + coll.interval) later ] ≡ true
      still_due none h = refl
      still_due (some e) h = ground (arith, h, after)
