-- ===== src/Collector/Coordinator/Failures.antt =====
-- internal/collector/coordinator.go: a collector that fails is due again, and is not recorded as a success.
use Prim.Native.String.{String}
use better_pg_keeper.Common.{
  ℕ, ◌≡◌, ◌≢◌, ap, ◌∙◌, ◌⊎◌, inl, inr, if_neg, Option, none, some, List, [], ◌∷◌, arith, All,
  entry_key, find_by, find_by-assign, str_dec, Option-cases,
}
use better_pg_keeper.Models.{run_error, SnapshotCollector}
use better_pg_keeper.Storage.Snapshots.{RunKey, run_key, run_key_dec, run_at, record_run}
use better_pg_keeper.Collector.Store.{Storage}
use better_pg_keeper.Collector.Coordinator.{
  Collector, LastRun, Cycle, run_of, record_collector_run, run_collector, run_one, run_all,
}

-- Each attempt is cancelled or ends in an error.
abbrev pub IsFailing : Collector → Type 0
IsFailing coll = (id : ℕ) → ((coll.attempt id).cancelled ≢ none) ⊎ ((coll.attempt id).error ≢ none)

-- No success of the collector is recorded for the snapshot.
abbrev pub HasNoSuccess : ℕ → String → List SnapshotCollector → Type 0
HasNoSuccess id name runs =
    (r : SnapshotCollector) → run_at (id, name) runs ≡ some r → r.run_status ≡ run_error

module _ (id : ℕ) (name : String) where
  record_run-HasNoSuccess :
      (snapshot_id : ℕ) (who : String) (failed : Option String) (at : ℕ)
      (runs : List SnapshotCollector)
      → (who ≡ name → failed ≢ none)
      → HasNoSuccess id name runs
      → HasNoSuccess id name (record_run (run_of snapshot_id who failed at) runs)
  unfolding record_run run_at run_of
  record_run-HasNoSuccess snapshot_id who failed at runs fails h r found =
      let law =
        find_by-assign run_key run_key_dec (id, name) (run_of snapshot_id who failed at) runs in
      elim (run_key_dec (snapshot_id, who) (id, name)) [
        | no other ↦ h r (ground (arith, law, found, other))
        | yes same ↦ elim (Option-cases failed) [
          | inl fine ↦ absurd (fails (ap (λ (k : RunKey). k.1) same) fine)
          | inr (e, bad) ↦ ground (arith, law, found, same, bad)
        ]
      ]

  module _ {S : Type 0} (storage : Storage S) where
    record_collector_run-HasNoSuccess :
        (snapshot_id : ℕ) (who : String) (failed : Option String) (at : ℕ) (s : S)
        → (who ≡ name → failed ≢ none)
        → HasNoSuccess id name (storage.runs s)
        → HasNoSuccess id name
            (storage.runs (record_collector_run storage snapshot_id who failed at s))
    unfolding record_collector_run
    record_collector_run-HasNoSuccess snapshot_id who failed at s fails h =
        elim (storage.run_recorded (run_of snapshot_id who failed at) s) [
          | inl done ↦
              rw done (record_run-HasNoSuccess snapshot_id who failed at (storage.runs s) fails h)
          | inr (_, same) ↦ rw same h
        ]

    -- The collector was not run since, and has no success for the snapshot.
    abbrev pub IsUnchanged : LastRun → Cycle S → Type 0
    IsUnchanged before c =
        (find_by entry_key str_dec name c.last_run ≡ find_by entry_key str_dec name before)
        × HasNoSuccess id name (storage.runs c.store)

    run_collector-IsUnchanged :
        (before : LastRun) (snapshot_id : ℕ) (coll : Collector) (c : Cycle S)
        → (coll.name ≡ name → (coll.attempt snapshot_id).error ≢ none)
        → IsUnchanged before c
        → IsUnchanged before (run_collector storage snapshot_id coll c)
    unfolding run_collector
    run_collector-IsUnchanged before snapshot_id coll c fails (last, none_yet) =
        let a = coll.attempt snapshot_id in
        let recorded =
          record_collector_run-HasNoSuccess snapshot_id coll.name a.error a.recorded_at c.store
            fails none_yet in
        elim (Option-cases a.error) [
          | inr (e, bad) ↦ rw (bad, run_collector) (last, recorded)
          | inl fine ↦
              let other : coll.name ≢ name = λ same. fails same fine in
              let law =
                find_by-assign entry_key str_dec name (coll.name, a.finished_at) c.last_run in
              rw (fine, run_collector)
                (law ∙ (if_neg (str_dec coll.name name) other _ _ ∙ last), recorded)
        ]

    run_one-IsUnchanged :
        (before : LastRun) (snapshot_id : ℕ) (coll : Collector) (c : Cycle S)
        → (coll.name ≡ name → IsFailing coll)
        → IsUnchanged before c
        → IsUnchanged before (run_one storage snapshot_id coll c)
    unfolding run_one
    run_one-IsUnchanged before snapshot_id coll c fails (last, none_yet) =
        let a = coll.attempt snapshot_id in
        elim (Option-cases a.cancelled) [
          | inr (e, gone) ↦
              rw (gone, run_one)
                (
                  last,
                  record_collector_run-HasNoSuccess snapshot_id coll.name (some e) a.recorded_at
                      c.store (λ _ h. absurd (cc (h))) none_yet,
                )
          | inl runs ↦
              rw (runs, run_one)
                (run_collector-IsUnchanged before snapshot_id coll c
                  (λ same. elim (fails same snapshot_id) [
                    | inl gone ↦ absurd (gone runs)
                    | inr bad ↦ bad
                  ])
                  (last, none_yet))
        ]

    pub run_all-IsUnchanged :
        (before : LastRun) (snapshot_id : ℕ) (colls : List Collector) (c : Cycle S)
        → All (λ coll. coll.name ≡ name → IsFailing coll) colls
        → IsUnchanged before c
        → IsUnchanged before (run_all storage snapshot_id colls c)
    unfolding run_all
    run_all-IsUnchanged before snapshot_id [] c a h = h
    run_all-IsUnchanged before snapshot_id (coll ∷ colls) c a h =
        run_all-IsUnchanged before snapshot_id colls _ a.1
          (run_one-IsUnchanged before snapshot_id coll c a.0 h)
