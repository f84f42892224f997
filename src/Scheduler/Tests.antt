-- ===== src/Scheduler/Tests.antt =====
-- Histories, interleavings and a run of the analysis, for the statements about the scheduler.
use Prim.Native.String.{String}
use better_pg_keeper.Common.{
  ℕ, ◌+◌, ◌≡◌, ◌≤◌, ◌⊎◌, All, arith, true, false, length, refl, inl, inr, none, some, List, [], ◌∷◌,
  Memᴰ, IsOrder, str_dec, are_distinct, lacks, Distinct-of, ℕ_discrete, find_by, assign,
  if◌then◌else◌,
}
use better_pg_keeper.Models
use better_pg_keeper.Models.{warning, active}
use better_pg_keeper.Storage.Db.{Environment, Db}
use better_pg_keeper.Storage.Suggestions.{row_by_id, row_id, row_key, key_dec}
use better_pg_keeper.Storage.Suggestions.Keys.{IsKeyed}
use better_pg_keeper.Collector.Coordinator.{CollectionResult}
use better_pg_keeper.Suggester.Rule.{Rule}
use better_pg_keeper.Suggester.Sqlite.{sqlite_storage}
use better_pg_keeper.Suggester.Suggest.{Existing}
use better_pg_keeper.Suggester.Suggest.Safety.{Reads}
use better_pg_keeper.Analyzer.Main.{Findings, analyze}
use better_pg_keeper.Analyzer.Tests.{texts, calls, domain_storage, domain_storage-HasIds, config}
use better_pg_keeper.Scheduler.{collection_status}
use better_pg_keeper.Scheduler.Health.{
  Event, collected, analyzed, health_after, last_success, last_error, collections, failures,
  collection_status-health_after,
}
use better_pg_keeper.Scheduler.Runs.{
  Scheduler, new_scheduler, start, begin_stop, close_channel, finish_stop, begin_trigger, leave,
  is_running, is_done, calls_of, Reach, initial, later, starts, stops, closes, returns, leaves,
  triggers,
}
use better_pg_keeper.Scheduler.Runs.Single.{unstopped, Reach-IsSingle}
use better_pg_keeper.Scheduler.Pipeline.{run_pipeline, run_pipeline-keeps_unread}

abbrev clean : CollectionResult
clean = record { snapshot_id = 4; started_at = 10; errors = [] }

abbrev partial : CollectionResult
partial = record { snapshot_id = 5; started_at = 20; errors = ("locks", "timeout") ∷ [] }

abbrev history : List Event
history =
    collected (inr partial) 2 25
    ∷ analyzed none 1 18
    ∷ collected (inr clean) 2 15
    ∷ collected (inl "no version") 2 5
    ∷ []

collection_status-health_after_example :
    (collection_status (health_after history) ≡ (last_success history, last_error history))
    × ((health_after history).total_collections ≡ collections history)
    × ((health_after history).failed_collections ≡ failures history)
collection_status-health_after_example = collection_status-health_after history

history_status :
    collection_status (health_after history) ≡ (some 15, "collection errors: [locks: timeout]")
unfolding collection_status health_after
history_status = refl

-- A stop takes the first run; a second start comes before the stop closes the channel of the first.
abbrev overtaken : Scheduler
overtaken = (start (begin_stop (begin_trigger (start new_scheduler).1).1).1).1

overtaken-Reach : Reach overtaken
overtaken-Reach =
    later
      (later (later (later initial (starts _)) (triggers _))
        (stops (begin_trigger (start new_scheduler).1).1))
      (starts _)

overtaken_runs :
    (unstopped overtaken.runs ≡ 2) × (overtaken.closing ≡ 0 ∷ []) × (overtaken.run ≡ some 1)
unfolding start begin_stop begin_trigger
overtaken_runs = (refl, refl, refl)

-- The channel is closed, the three loops end and the first stop returns.
abbrev one_left : Scheduler → Scheduler
one_left s = record s { runs = leave 0 s.runs }

abbrev returned : Scheduler
returned = (finish_stop false 0 (one_left (one_left (one_left (close_channel 0 overtaken))))).1

returned-Reach : Reach returned
unfolding start begin_stop begin_trigger close_channel leave is_done calls_of ℕ_discrete
returned-Reach =
    later
      (later
        (later (later (later overtaken-Reach (closes overtaken 0 (omega arith))) (leaves _ 0 refl))
          (leaves _ 0 refl))
        (leaves _ 0 refl))
      (returns _ 0 (omega arith) refl)

returned_runs :
    (unstopped returned.runs ≡ 1) × (returned.graceful ≡ 0 ∷ []) × (returned.waiting ≡ [])
unfolding start begin_stop begin_trigger close_channel leave finish_stop ℕ_discrete
returned_runs = (refl, refl, refl)

Reach-IsSingle_example :
    (returned.panicked ≡ false)
    × (unstopped returned.runs ≤ length returned.closing + (if is_running returned then 1 else 0))
    × All
        (λ r. (calls_of r.id returned.graceful ≡ 0) ⊎ ((r.stopped ≡ true) × (r.live ≡ 0)))
        returned.runs
    × (returned.triggers ≤ (if returned.manual then 1 else 0))
Reach-IsSingle_example = Reach-IsSingle returned returned-Reach

abbrev healthy : Environment
healthy = record { fails = λ _. none; clock = λ n. 1000 + n }

abbrev unused : Models.Suggestion
unused = record {
  id = 2;
  instance_id = 1;
  rule_id = "unused_index";
  severity = warning;
  title = "title";
  description = "description";
  target_object = "public.a";
  metadata = "{}";
  status = active;
  first_seen_at = 10;
  last_seen_at = 20;
  dismissed_at = none;
  resolved_at = none;
}

abbrev db : Db
db = record {
  suggestions = unused ∷ [];
  notification_states = [];
  notifier_times = [];
  snapshots = [];
  snapshot_collectors = [];
  statements = 0;
}

db-IsKeyed : IsKeyed db.suggestions
unfolding are_distinct lacks ℕ_discrete key_dec str_dec
db-IsKeyed = record {
  distinct_keys = Distinct-of row_key key_dec db.suggestions refl;
  distinct_ids = Distinct-of row_id ℕ_discrete db.suggestions refl;
}

abbrev unused_rule : Rule (Findings texts) String
unused_rule = record {
  id = "unused_index";
  required_domains = "index_stats" ∷ [];
  evaluate = λ _. inr [];
  unobserved_targets = none;
}

abbrev as_given : List Existing → List Existing
as_given l = l

as_given-IsOrder : IsOrder as_given
as_given-IsOrder = record { keeps = λ P l a. a; covers = λ e l m. m }

unused_row : row_by_id 2 db.suggestions ≡ some unused
unfolding row_by_id ℕ_discrete
unused_row = refl

analysis_reads :
    (id : ℕ) (s : Db)
    → (sqlite_storage healthy).rows (analyze (domain_storage Db) config (calls Db) 100 id s).1
      ≡ (sqlite_storage healthy).rows s
unfolding sqlite_storage analyze str_dec find_by assign
analysis_reads id s = refl

run_pipeline-keeps_unread_example :
    Reads 2 active
      (run_pipeline
        (calls Db)
        (domain_storage Db)
        config
        100
        inr
        (sqlite_storage healthy)
        as_given
        (unused_rule ∷ [])
        5
        db).1.suggestions
unfolding sqlite_storage
run_pipeline-keeps_unread_example =
    run_pipeline-keeps_unread (calls Db) (domain_storage Db) config 100 inr (sqlite_storage healthy)
      as_given (unused_rule ∷ []) as_given-IsOrder (domain_storage-HasIds Db) analysis_reads
      "index_stats" (inr (inl (refl, λ id s a h. cc))) 5 db unused db-IsKeyed unused_row refl
      (inr (Memᴰ.head refl), tt)
