-- ===== src/Scheduler/Health.antt =====
-- internal/scheduler/scheduler.go: the health after any history of jobs.
use Prim.Native.String.{String}
use better_pg_keeper.Common.{
  ℕ, ◌+◌, ◌≡◌, refl, ◌⊎◌, inl, inr, Bool, true, false, Option, none, some, List, [], ◌∷◌, arith,
  if◌then◌else◌,
}
use better_pg_keeper.Collector.Coordinator.{CollectionResult}
use better_pg_keeper.Scheduler.{
  HealthStatus, new_health, update_analysis_health, update_maintenance_health, collection_status,
  has_errors, result_error, execute_collection,
}

-- What writes the health: a collection with its outcome, an analysis with its error, a maintenance.
pub data Event : Type 0 where
  collected : String ⊎ CollectionResult → (took now : ℕ) → Event
  analyzed : Option String → (took now : ℕ) → Event
  maintained : Bool → (now : ℕ) → Event

unfoldable pub apply_event : Event → HealthStatus → HealthStatus
unfolding execute_collection update_analysis_health update_maintenance_health
apply_event (collected outcome took now) h = execute_collection outcome took now h
apply_event (analyzed none took now) h = update_analysis_health true took "" now h
apply_event (analyzed (some e) took now) h = update_analysis_health false took e now h
apply_event (maintained ok now) h = update_maintenance_health ok now h

-- The latest event stands first.
unfoldable pub health_after : List Event → HealthStatus
unfolding apply_event
health_after [] = new_health
health_after (e ∷ es) = apply_event e (health_after es)

-- The error of a collection, if it failed: of the cycle, or of its collectors.
abbrev pub failure_of : String ⊎ CollectionResult → Option String
failure_of (inl e) = some e
failure_of (inr r) = if has_errors r then some (result_error r) else none

-- The specification: read off the history.
abbrev pub last_success : List Event → Option ℕ
last_success [] = none
last_success (collected o _ now ∷ es) = elim (failure_of o) [
  | none ↦ some now
  | some _ ↦ last_success es
]
last_success (analyzed _ _ _ ∷ es) = last_success es
last_success (maintained _ _ ∷ es) = last_success es

abbrev pub last_error : List Event → String
last_error [] = ""
last_error (collected o _ _ ∷ es) = elim (failure_of o) [ none ↦ "" | some e ↦ e ]
last_error (analyzed _ _ _ ∷ es) = last_error es
last_error (maintained _ _ ∷ es) = last_error es

abbrev pub failures : List Event → ℕ
failures [] = 0
failures (collected o _ _ ∷ es) = elim (failure_of o) [
  | none ↦ failures es
  | some _ ↦ failures es + 1
]
failures (analyzed _ _ _ ∷ es) = failures es
failures (maintained _ _ ∷ es) = failures es

abbrev pub collections : List Event → ℕ
collections [] = 0
collections (collected _ _ _ ∷ es) = collections es + 1
collections (analyzed _ _ _ ∷ es) = collections es
collections (maintained _ _ ∷ es) = collections es

-- After any history of jobs the collection status is that of the history: the time of the latest
-- collection that had no error, of its own or of a collector, and the error of the latest collection,
-- empty if it had none; and the health counts the collections and those that failed.
pub collection_status-health_after :
    (es : List Event)
    → (collection_status (health_after es) ≡ (last_success es, last_error es))
      × ((health_after es).total_collections ≡ collections es)
      × ((health_after es).failed_collections ≡ failures es)
unfolding health_after collection_status
collection_status-health_after [] = (refl, refl, refl)
collection_status-health_after (collected (inl e) took now ∷ es) =
    let ih = collection_status-health_after es in ground (arith, ih)
collection_status-health_after (collected (inr r) took now ∷ es) =
    let ih = collection_status-health_after es in ground (arith, ih)
collection_status-health_after (analyzed none took now ∷ es) = collection_status-health_after es
collection_status-health_after (analyzed (some e) took now ∷ es) = collection_status-health_after es
collection_status-health_after (maintained ok now ∷ es) = collection_status-health_after es
