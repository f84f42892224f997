-- ===== src/Notifier/Sqlite.antt =====
-- internal/storage/sqlite as the Storage of internal/notifier/notifier.go: the operations keep what the
-- notifier relies on, whatever statements fail.
use better_pg_keeper.Common.{Option, inr, ℕ, ◌≡◌, ◌≢◌, ◌⊎◌, none, arith}
use better_pg_keeper.Models.{Status, NotificationState}
use better_pg_keeper.Storage.Db.{Environment, Db, tick, exec}
use better_pg_keeper.Storage.Suggestions.{Key, rows_by_status}
use better_pg_keeper.Storage.Suggestions.Ops.{get_suggestions_by_status}
use better_pg_keeper.Storage.Notifications.{
  TimeKey, time_at, set_time_at, get_notifier_time, set_notifier_time, upsert_states, delete_states,
  states_of, list_notification_states, upsert_notification_state, delete_notification_state,
}
use better_pg_keeper.Notifier.Store.{Storage}

module _ (env : Environment) where
  pub get-selected :
      (instance : ℕ) (status : Status) (db : Db)
      → ((get_suggestions_by_status env instance status db).0.0 ≡ none
          → (get_suggestions_by_status env instance status db).0.1
            ≡ rows_by_status instance status db.suggestions)
        × ((get_suggestions_by_status env instance status db).1.suggestions ≡ db.suggestions)
        × ((get_suggestions_by_status env instance status db).1.notification_states
            ≡ db.notification_states)
  unfolding get_suggestions_by_status tick
  get-selected instance status db = (λ e. ground arith, ground arith, ground arith)

  pub list-listed :
      (instance : ℕ) (db : Db)
      → ((list_notification_states env instance db).0.0 ≡ none
          → (list_notification_states env instance db).0.1
            ≡ states_of instance db.notification_states)
        × ((list_notification_states env instance db).1.suggestions ≡ db.suggestions)
        × ((list_notification_states env instance db).1.notification_states
            ≡ db.notification_states)
  unfolding list_notification_states tick
  list-listed instance db = (λ e. ground arith, ground arith, ground arith)

  pub upsert-Upserted :
      (st : NotificationState) (db : Db)
      → ((upsert_notification_state env st db).1.notification_states
          ≡ upsert_states st db.notification_states)
        ⊎ ((upsert_notification_state env st db).0 ≢ none)
          × ((upsert_notification_state env st db).1.notification_states ≡ db.notification_states)
  unfolding upsert_notification_state exec tick
  upsert-Upserted st db = ground arith

  pub delete-Deleted :
      (k : Key) (db : Db)
      → ((delete_notification_state env k db).1.notification_states
          ≡ delete_states k db.notification_states)
        ⊎ ((delete_notification_state env k db).0 ≢ none)
          × ((delete_notification_state env k db).1.notification_states ≡ db.notification_states)
  unfolding delete_notification_state exec tick
  delete-Deleted k db = ground arith

  pub get-got_time :
      (k : TimeKey) (db : Db)
      → ((v : Option ℕ) → (get_notifier_time env k db).0 ≡ inr v → v ≡ time_at k db.notifier_times)
        × ((get_notifier_time env k db).1.notifier_times ≡ db.notifier_times)
  unfolding get_notifier_time tick
  get-got_time k db = ((λ v e. ground (arith, e)), ground arith)

  pub set-time_set :
      (k : TimeKey) (t : ℕ) (db : Db)
      → ((set_notifier_time env k t db).1.notifier_times ≡ set_time_at k t db.notifier_times)
        ⊎ ((set_notifier_time env k t db).0 ≢ none)
          × ((set_notifier_time env k t db).1.notifier_times ≡ db.notifier_times)
  unfolding set_notifier_time exec tick
  set-time_set k t db = ground arith

  unfoldable pub sqlite_states : Storage Db
  unfolding get_notifier_time set_notifier_time get_suggestions_by_status list_notification_states
      upsert_notification_state delete_notification_state
  sqlite_states = record {
    rows = λ db. db.suggestions;
    states = λ db. db.notification_states;
    get_suggestions_by_status = get_suggestions_by_status env;
    list_notification_states = list_notification_states env;
    upsert_notification_state = upsert_notification_state env;
    delete_notification_state = delete_notification_state env;
    selected = get-selected;
    listed = list-listed;
    upserted = upsert-Upserted;
    deleted = delete-Deleted;
    times = λ db. db.notifier_times;
    get_notifier_time = get_notifier_time env;
    set_notifier_time = set_notifier_time env;
    got_time = get-got_time;
    time_set = set-time_set;
  }
