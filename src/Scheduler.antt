-- ===== src/Scheduler.antt =====
-- internal/scheduler/scheduler.go and internal/scheduler/loops.go: the health of the jobs, and one round of each of them.
-- `now` is the reading of the clock when the health is written, `took` the measured duration. The log and
-- the Prometheus metrics are left out. The coordinator returns a result or an error, never neither.
pub mod Health
pub mod Runs
pub mod Pipeline
pub mod Tests
use Prim.Native.String.{String}
use better_pg_keeper.Common.{
  ℕ, zero, suc, ◌+◌, ◌⊎◌, inl, inr, Bool, true, false, not, ◌&&◌, Option, none, some, List, [], ◌∷◌,
  sprint, ltb, ite, str_dec, if◌then◌else◌,
}
use better_pg_keeper.Models.{Snapshot}
use better_pg_keeper.Analyzer.Coverage.{AnalysisResult}
use better_pg_keeper.Suggester.Suggest.{SuggestResult}
use better_pg_keeper.Collector.Coordinator.{CollectionResult}

-- Times are nanoseconds since the epoch; `none` is the zero time.
pub record HealthStatus : Type 0 where
  pub last_collection_time : Option ℕ
  pub last_collection_success : Bool
  pub last_collection_error : String
  pub last_collection_duration : ℕ
  pub last_successful_collection : Option ℕ
  pub last_analysis_time : Option ℕ
  pub last_analysis_success : Bool
  pub last_analysis_error : String
  pub last_analysis_duration : ℕ
  pub last_maintenance_time : Option ℕ
  pub last_maintenance_success : Bool
  pub total_collections : ℕ
  pub total_analyses : ℕ
  pub failed_collections : ℕ
  pub failed_analyses : ℕ

abbrev pub new_health : HealthStatus
new_health = record {
  last_collection_time = none;
  last_collection_success = false;
  last_collection_error = "";
  last_collection_duration = 0;
  last_successful_collection = none;
  last_analysis_time = none;
  last_analysis_success = false;
  last_analysis_error = "";
  last_analysis_duration = 0;
  last_maintenance_time = none;
  last_maintenance_success = false;
  total_collections = 0;
  total_analyses = 0;
  failed_collections = 0;
  failed_analyses = 0;
}

unfoldable pub update_collection_health : Bool → ℕ → String → ℕ → HealthStatus → HealthStatus
update_collection_health success took err now h = record h {
  last_collection_time = some now;
  last_successful_collection = if success then some now else h.last_successful_collection;
  last_collection_success = success;
  last_collection_error = err;
  last_collection_duration = took;
  total_collections = h.total_collections + 1;
  failed_collections = if success then h.failed_collections else h.failed_collections + 1;
}

unfoldable pub update_analysis_health : Bool → ℕ → String → ℕ → HealthStatus → HealthStatus
update_analysis_health success took err now h = record h {
  last_analysis_time = some now;
  last_analysis_success = success;
  last_analysis_error = err;
  last_analysis_duration = took;
  total_analyses = h.total_analyses + 1;
  failed_analyses = if success then h.failed_analyses else h.failed_analyses + 1;
}

unfoldable pub update_maintenance_health : Bool → ℕ → HealthStatus → HealthStatus
update_maintenance_health success now h = record h {
  last_maintenance_time = some now;
  last_maintenance_success = success;
}

-- CollectionStatus: the time of the last success, and the error of the last collection if it failed.
unfoldable pub collection_status : HealthStatus → Option ℕ × String
collection_status h = (
  h.last_successful_collection,
  if h.last_collection_success then "" else h.last_collection_error,
)

-- HasErrors and Error of a CollectionResult; %v prints the texts between brackets. The entries stand in
-- the order in which `range` visits them.
unfoldable pub has_errors : CollectionResult → Bool
has_errors r = elim r.errors [ [] ↦ false | _ ∷ _ ↦ true ]

unfoldable pub join_spaced : List (String × String) → String
join_spaced [] = ""
join_spaced ((name, e) ∷ []) = sprint (name ∷ ": " ∷ e ∷ [])
join_spaced ((name, e) ∷ f ∷ fs) = sprint (name ∷ ": " ∷ e ∷ " " ∷ join_spaced (f ∷ fs) ∷ [])

unfoldable pub result_error : CollectionResult → String
unfolding join_spaced
result_error r = sprint ("collection errors: [" ∷ join_spaced r.errors ∷ "]" ∷ [])

-- The part of executeCollection after the collection.
unfoldable pub execute_collection : String ⊎ CollectionResult → ℕ → ℕ → HealthStatus → HealthStatus
unfolding has_errors result_error update_collection_health
execute_collection outcome took now h = elim outcome [
  | inl e ↦ update_collection_health false took e now h
  | inr r ↦
      if has_errors r
      then update_collection_health false took (result_error r) now h
      else update_collection_health true took "" now h
]

module _ {F S : Type 0} (analyze : ℕ → S → (String ⊎ AnalysisResult F) × S)
    (suggest : AnalysisResult F → S → (String ⊎ SuggestResult) × S) where
  -- runAnalysis: the analysis stays in the answer if the suggester fails.
  unfoldable pub run_analysis :
      ℕ → S → (Option (AnalysisResult F) × Option SuggestResult × Option String) × S
  run_analysis snapshot_id s =
      let (found, s') = analyze snapshot_id s in
      elim found [
        | inl e ↦ ((none, none, some e), s')
        | inr a ↦
            let (suggested, s'') = suggest a s' in
            elim suggested [
              | inl e ↦ ((some a, none, some e), s'')
              | inr r ↦ ((some a, some r, none), s'')
            ]
      ]

  -- executeAnalysis, at what GetLatestSnapshot answers.
  unfoldable pub execute_analysis :
      String ⊎ Option Snapshot → ℕ → ℕ → HealthStatus → S → HealthStatus × S
  unfolding run_analysis update_analysis_health
  execute_analysis latest took now h s = elim latest [
    | inl e ↦ (update_analysis_health false took e now h, s)
    | inr none ↦ (update_analysis_health false took "no snapshots available" now h, s)
    | inr (some snap) ↦
        let ((_, _, failed), s') = run_analysis snap.id s in
        (
          elim failed [
            | none ↦ update_analysis_health true took "" now h
            | some e ↦ update_analysis_health false took e now h
          ],
          s',
        )
  ]

pub record Retention : Type 0 where
  pub snapshots : ℕ
  pub query_stats : ℕ
  pub size_history : ℕ

-- The purges of the storage: the error, or how many rows went.
pub record Purges (S : Type 0) : Type 0 where
  pub purge_old_snapshots : ℕ → S → (String ⊎ ℕ) × S
  pub purge_old_query_history : ℕ → S → (String ⊎ ℕ) × S
  pub purge_old_explain_plans : ℕ → S → (String ⊎ ℕ) × S
  pub purge_old_size_history : ℕ → S → (String ⊎ ℕ) × S

unfoldable pub succeeded : String ⊎ ℕ → Bool
succeeded (inl _) = false
succeeded (inr _) = true

-- executeMaintenance: every purge runs, whichever failed before it.
unfoldable pub execute_maintenance :
    {S : Type 0} → Purges S → Retention → ℕ → HealthStatus → S → HealthStatus × S
unfolding update_maintenance_health succeeded
execute_maintenance purges keep now h s =
    let (a, s') = purges.purge_old_snapshots keep.snapshots s in
    let (b, s'') = purges.purge_old_query_history keep.query_stats s' in
    let (c, s''') = purges.purge_old_explain_plans keep.snapshots s'' in
    let done = succeeded a && (succeeded b && succeeded c) in
    elim keep.size_history [
      | zero ↦ (update_maintenance_health done now h, s''')
      | suc n ↦
          let (d, s'''') = purges.purge_old_size_history (suc n) s''' in
          (update_maintenance_health (done && succeeded d) now h, s'''')
    ]

-- What CollectAll gives to a manual trigger; `in_progress` is ErrCollectionInProgress.
pub data Collected : Type 0 where
  in_progress : Collected
  failed : String → Collected
  done : CollectionResult → Collected

pub record TriggerResult (F : Type 0) : Type 0 where
  pub started_at : ℕ
  pub finished_at : ℕ
  pub collection_result : Option CollectionResult
  pub collection_error : String
  pub analysis_result : Option (AnalysisResult F)
  pub suggest_result : Option SuggestResult
  pub analysis_error : String

-- The readings of the clock of one trigger.
pub record TriggerTimes : Type 0 where
  pub started : ℕ
  pub collection_took : ℕ
  pub collection_now : ℕ
  pub analysis_took : ℕ
  pub analysis_now : ℕ
  pub finished : ℕ

abbrev pub error_text : Option String → String
error_text none = ""
error_text (some e) = e

module _ {F S : Type 0} (analyze : ℕ → S → (String ⊎ AnalysisResult F) × S)
    (suggest : AnalysisResult F → S → (String ⊎ SuggestResult) × S) (times : TriggerTimes) where
  -- The analysis of a trigger, if the collection made a snapshot.
  unfoldable pub trigger_analysis :
      CollectionResult → HealthStatus → S → TriggerResult F × HealthStatus × S
  unfolding run_analysis update_analysis_health
  trigger_analysis r h s =
      let result : TriggerResult F = record {
        started_at = times.started;
        finished_at = times.finished;
        collection_result = some r;
        collection_error = "";
        analysis_result = none;
        suggest_result = none;
        analysis_error = "";
      } in
      elim r.snapshot_id [
        | zero ↦ (result, h, s)
        | suc n ↦
            let ((a, sug, e), s') = run_analysis analyze suggest (suc n) s in
            (
              record result {
                analysis_result = a;
                suggest_result = sug;
                analysis_error = error_text e;
              },
              update_analysis_health (elim e [ none ↦ true | some _ ↦ false ]) times.analysis_took
                  (error_text e) times.analysis_now h,
              s',
            )
      ]

  -- TriggerSnapshot with the manual lock held, at what CollectAll answers.
  unfoldable pub trigger_snapshot :
      Collected → HealthStatus → S → (String ⊎ TriggerResult F) × HealthStatus × S
  unfolding update_collection_health has_errors result_error trigger_analysis
  trigger_snapshot in_progress h s = (inl "collection already in progress", h, s)
  trigger_snapshot (failed e) h s = (
    inr (record {
      started_at = times.started;
      finished_at = times.finished;
      collection_result = none;
      collection_error = e;
      analysis_result = none;
      suggest_result = none;
      analysis_error = "";
    }),
    update_collection_health false times.collection_took e times.collection_now h,
    s,
  )
  trigger_snapshot (done r) h s =
      let h' = execute_collection (inr r) times.collection_took times.collection_now h in
      let (result, h'', s') = trigger_analysis r h' s in (inr result, h'', s')
