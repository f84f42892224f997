-- ===== src/Notifier/Store.antt =====
-- internal/notifier/notifier.go, the Storage interface: the operations of the alerts and of the digest's
-- schedule, with what the notifier may rely on.
use Prim.Native.String.{String}
use better_pg_keeper.Common.{ℕ, ◌≡◌, ◌≢◌, ◌⊎◌, inr, Option, none, List}
use better_pg_keeper.Models.{Suggestion, Status, NotificationState}
use better_pg_keeper.Storage.Suggestions.{Key, rows_by_status}
use better_pg_keeper.Storage.Notifications.{
  TimeKey, TimeRow, time_at, set_time_at, upsert_states, delete_states, states_of,
}

pub record Storage (S : Type 0) : Type 0 where
  -- The tables behind the interface.
  pub rows : S → List Suggestion
  pub states : S → List NotificationState
  pub get_suggestions_by_status : ℕ → Status → S → (Option String × List Suggestion) × S
  pub list_notification_states : ℕ → S → (Option String × List NotificationState) × S
  pub upsert_notification_state : NotificationState → S → Option String × S
  pub delete_notification_state : Key → S → Option String × S
  -- The reads change no table; one that returns no error has read it.
  pub selected :
      (instance : ℕ) (status : Status) (s : S)
      → ((get_suggestions_by_status instance status s).0.0 ≡ none
          → (get_suggestions_by_status instance status s).0.1
            ≡ rows_by_status instance status (rows s))
        × (rows (get_suggestions_by_status instance status s).1 ≡ rows s)
        × (states (get_suggestions_by_status instance status s).1 ≡ states s)
  pub listed :
      (instance : ℕ) (s : S)
      → ((list_notification_states instance s).0.0 ≡ none
          → (list_notification_states instance s).0.1 ≡ states_of instance (states s))
        × (rows (list_notification_states instance s).1 ≡ rows s)
        × (states (list_notification_states instance s).1 ≡ states s)
  -- A write happens, or fails and leaves the states alone; one that returns no error happened.
  pub upserted :
      (st : NotificationState) (s : S)
      → (states (upsert_notification_state st s).1 ≡ upsert_states st (states s))
        ⊎ ((upsert_notification_state st s).0 ≢ none)
          × (states (upsert_notification_state st s).1 ≡ states s)
  pub deleted :
      (k : Key) (s : S)
      → (states (delete_notification_state k s).1 ≡ delete_states k (states s))
        ⊎ ((delete_notification_state k s).0 ≢ none)
          × (states (delete_notification_state k s).1 ≡ states s)
  pub times : S → List TimeRow
  pub get_notifier_time : TimeKey → S → (String ⊎ Option ℕ) × S
  pub set_notifier_time : TimeKey → ℕ → S → Option String × S
  pub got_time :
      (k : TimeKey) (s : S)
      → ((v : Option ℕ) → (get_notifier_time k s).0 ≡ inr v → v ≡ time_at k (times s))
        × (times (get_notifier_time k s).1 ≡ times s)
  pub time_set :
      (k : TimeKey) (t : ℕ) (s : S)
      → (times (set_notifier_time k t s).1 ≡ set_time_at k t (times s))
        ⊎ ((set_notifier_time k t s).0 ≢ none) × (times (set_notifier_time k t s).1 ≡ times s)
