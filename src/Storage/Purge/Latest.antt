-- ===== src/Storage/Purge/Latest.antt =====
-- internal/storage/sqlite/storage.go: a purge does not change which snapshot carries the data of a collector.
use Prim.Native.String.{String}
use better_pg_keeper.Common.{
  ℕ, ◌≡◌, refl, sym, ◌∙◌, ap, ◌≢◌, inl, inr, Bool, true, false, not, ◌&&◌, Option, none, some, List,
  [], ◌∷◌, arith, ℕ_discrete, All, All-mono, All-zip, All-filter, filter, filter-All, filter_swap,
  filter_agree, sort_by, sort_by-filter, IsStrictWeak, Option-cases, Distinct, find_by,
  find_by_self,
}
use better_pg_keeper.Models.{Snapshot, SnapshotCollector}
use better_pg_keeper.Storage.Db.{Environment, Db, tick}
use better_pg_keeper.Storage.Snapshots.{
  snapshot_id_of, later, first_of, of_snapshot_instance, latest_of, RunKey, run_key, run_key_dec,
  run_at, contributed, not_after, latest_with_collector,
}
use better_pg_keeper.Storage.Purge.{
  is_old, has_snapshot, kept_snapshots, purged_snapshots, kept_runs, purge_old_snapshots,
}

later-IsStrictWeak : IsStrictWeak later
unfolding later
later-IsStrictWeak = record {
  asym = λ a b h. ground (arith, h);
  not_less_trans = λ a b c h k. ground (arith, h, k);
}

has_snapshot_ne :
    (id : ℕ) (xs : List Snapshot) → All (λ y. y.id ≢ id) xs → has_snapshot id xs ≡ false
unfolding has_snapshot
has_snapshot_ne id [] a = refl
has_snapshot_ne id (x ∷ xs) a = let rest = has_snapshot_ne id xs a.1 in ground (arith, rest, a.0)

-- A run that passes for every row with the key is found as before.
run_at-filter :
    (k : RunKey) (q : SnapshotCollector → Bool)
    → ((r : SnapshotCollector) → run_key r ≡ k → q r ≡ true)
    → (rs : List SnapshotCollector) → run_at k (filter q rs) ≡ run_at k rs
unfolding run_at find_by filter
run_at-filter k q pass [] = refl
run_at-filter k q pass (r ∷ rs) =
    let rest = run_at-filter k q pass rs in
    elim (run_key_dec (run_key r) k) [
      | yes e ↦ let t = pass r e in ground (arith, t, e)
      | no n ↦ ground (arith, n, rest)
    ]

first_of-filter :
    (p : Snapshot → Bool) (xs : List Snapshot) (x : Snapshot)
    → first_of xs ≡ some x
    → p x ≡ true
    → first_of (filter p xs) ≡ some x
unfolding first_of filter
first_of-filter p [] x h t = absurd (cc)
first_of-filter p (y ∷ ys) x h t =
    let same : p y ≡ p x = ap (λ (o : Option Snapshot). elim o [ none ↦ false | some z ↦ p z ]) h in
    rw (same ∙ t) h

module _ (now retention : ℕ) (ss : List Snapshot) (distinct : Distinct snapshot_id_of ss) where
  abbrev is_kept : Snapshot → Bool
  is_kept s = not (is_old now retention s)

  -- A snapshot that is kept has another id than those that are deleted.
  kept_apart :
      (s : Snapshot)
      → find_by snapshot_id_of ℕ_discrete s.id ss ≡ some s
      → is_kept s ≡ true
      → has_snapshot s.id (purged_snapshots now retention ss) ≡ false
  unfolding purged_snapshots
  kept_apart s found kept =
      let old = is_old now retention in
      let self = find_by_self snapshot_id_of ℕ_discrete ss distinct in
      has_snapshot_ne s.id (filter old ss) (
        All-mono (λ y. (old y ≡ true) × (find_by snapshot_id_of ℕ_discrete y.id ss ≡ some y))
          (λ y. y.id ≢ s.id)
          (λ y h e.
            let same : ◌≡◌ {A = Option Snapshot} (some y) (some s) =
              sym h.1 ∙ ap (λ i. find_by snapshot_id_of ℕ_discrete i ss) e ∙ found in
            let olds : old y ≡ old s =
              ap (λ (o : Option Snapshot). elim o [ none ↦ false | some z ↦ old z ]) same in
            let t = rw olds at (h.0) in let k = rw t at kept in absurd (cc))
          (filter old ss)
          (All-zip (λ y. old y ≡ true) (λ y. find_by snapshot_id_of ℕ_discrete y.id ss ≡ some y)
            (filter old ss) (filter-All old ss)
            (All-filter (λ y. find_by snapshot_id_of ℕ_discrete y.id ss ≡ some y) old ss self)))

  -- The successful runs of a snapshot that is kept are those before the purge.
  contributed-kept :
      (collector : String) (runs : List SnapshotCollector) (s : Snapshot)
      → find_by snapshot_id_of ℕ_discrete s.id ss ≡ some s
      → is_kept s ≡ true
      → contributed collector (kept_runs (purged_snapshots now retention ss) runs) s
        ≡ contributed collector runs s
  unfolding contributed kept_runs
  contributed-kept collector runs s found kept =
      let purged = purged_snapshots now retention ss in
      let law =
        run_at-filter (s.id, collector) (λ r. not (has_snapshot r.snapshot_id purged))
          (λ r e.
            ap (λ i. not (has_snapshot i purged)) (ap (λ (k : RunKey). k.0) e)
            ∙ ap not (kept_apart s found kept))
          runs in
      rw (law, contributed) refl

  -- What the query of the latest snapshot returns after the purge.
  latest_with_collector-kept :
      (instance : ℕ) (collector : String) (bound : Option ℕ) (runs : List SnapshotCollector)
      (snap : Snapshot)
      → latest_with_collector instance collector bound ss runs ≡ some snap
      → is_kept snap ≡ true
      → latest_with_collector instance collector bound
          (kept_snapshots now retention ss)
          (kept_runs (purged_snapshots now retention ss) runs)
        ≡ some snap
  unfolding latest_with_collector latest_of kept_snapshots
  latest_with_collector-kept instance collector bound runs snap h kept =
      let runs' = kept_runs (purged_snapshots now retention ss) runs in
      let before = λ (s : Snapshot). contributed collector runs s && not_after bound s in
      let after = λ (s : Snapshot). contributed collector runs' s && not_after bound s in
      let here = of_snapshot_instance instance in
      let self = find_by_self snapshot_id_of ℕ_discrete ss distinct in
      let agree = filter_agree after before (filter is_kept ss) (
        All-mono (λ s. (is_kept s ≡ true) × (find_by snapshot_id_of ℕ_discrete s.id ss ≡ some s))
          (λ s. after s ≡ before s)
          (λ s a. ap (λ b. b && not_after bound s) (contributed-kept collector runs s a.1 a.0))
          (filter is_kept ss)
          (All-zip (λ s. is_kept s ≡ true) (λ s. find_by snapshot_id_of ℕ_discrete s.id ss ≡ some s)
            (filter is_kept ss) (filter-All is_kept ss)
            (All-filter (λ s. find_by snapshot_id_of ℕ_discrete s.id ss ≡ some s) is_kept ss
              self))) in
      let moved = agree ∙ filter_swap before is_kept ss in
      let rows = filter here (filter before ss) in
      let sorted : sort_by later (filter here (filter after (filter is_kept ss)))
          ≡ filter is_kept (sort_by later rows) =
        ap (λ l. sort_by later (filter here l)) moved
        ∙ ap (sort_by later) (filter_swap here is_kept (filter before ss))
        ∙ sym (sort_by-filter later later-IsStrictWeak is_kept rows) in
      ap first_of sorted ∙ first_of-filter is_kept (sort_by later rows) snap h kept

-- A purge keeps what GetLatestSnapshotWithCollector answers, if it answers with a snapshot that is not older
-- than the retention: whether the purge succeeds or fails, the same snapshot is found after it, although
-- the runs of deleted snapshots are deleted with them. The ids of the snapshots are distinct.
pub purge_old_snapshots-keeps_latest :
    (env : Environment) (retention : ℕ) (db : Db)
    → Distinct snapshot_id_of db.snapshots
    → (instance : ℕ) (collector : String) (bound : Option ℕ) (snap : Snapshot)
    → latest_with_collector instance collector bound db.snapshots db.snapshot_collectors ≡ some snap
    → is_old (env.clock db.statements) retention snap ≡ false
    → latest_with_collector instance collector bound
        (purge_old_snapshots env retention db).1.snapshots
        (purge_old_snapshots env retention db).1.snapshot_collectors
      ≡ some snap
unfolding purge_old_snapshots tick
purge_old_snapshots-keeps_latest env retention db distinct instance collector bound snap h fresh =
    elim (Option-cases (env.fails db.statements)) [
      | inr (e, q) ↦ rw (q, purge_old_snapshots) h
      | inl q ↦
          rw (q, purge_old_snapshots)
            (latest_with_collector-kept (env.clock db.statements) retention db.snapshots distinct
              instance collector bound db.snapshot_collectors snap h (ap not fresh))
    ]
