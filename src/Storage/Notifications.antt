-- ===== src/Storage/Notifications.antt =====
-- internal/storage/sqlite/notifications.go: the notification_state and notifier_meta tables, and the
-- operations on them. Times are stored in a format that reads back as the same time.
pub mod Listed
use Prim.Native.String.{String, ◌++◌}
use better_pg_keeper.Common.{
  ℕ, ◌⊎◌, inl, inr, ite, Bool, true, false, Option, none, some, List, ℕ_discrete, str_dec, find_by,
  assign, erase_by, filter,
}
use better_pg_keeper.Models.{NotificationState}
use better_pg_keeper.Storage.Suggestions.{Key, key_dec}
use better_pg_keeper.Storage.Db.{Environment, Db, tick, exec}

-- PRIMARY KEY (instance_id, rule_id, target_object)
abbrev pub state_row_key : NotificationState → Key
state_row_key st = (st.instance_id, st.rule_id, st.target_object)

-- INSERT ... ON CONFLICT DO UPDATE
unfoldable pub upsert_states : NotificationState → List NotificationState → List NotificationState
upsert_states = assign state_row_key key_dec

unfoldable pub delete_states : Key → List NotificationState → List NotificationState
delete_states = erase_by state_row_key key_dec

unfoldable pub of_instance : ℕ → NotificationState → Bool
of_instance instance st = ite (ℕ_discrete st.instance_id instance) true false

unfoldable pub states_of : ℕ → List NotificationState → List NotificationState
unfolding filter of_instance
states_of instance = filter (of_instance instance)

-- The rows of notifier_meta: instance, key and time.
abbrev pub TimeKey : Type 0
TimeKey = ℕ × String

unfoldable pub time_key_dec : Discrete TimeKey
unfolding ℕ_discrete str_dec
time_key_dec = hlevel (ℕ_discrete, str_dec)

abbrev pub TimeRow : Type 0
TimeRow = ℕ × String × ℕ

abbrev pub time_row_key : TimeRow → TimeKey
time_row_key r = (r.0, r.1)

unfoldable pub time_at : TimeKey → List TimeRow → Option ℕ
unfolding find_by
time_at k rows = elim (find_by time_row_key time_key_dec k rows) [ none ↦ none | some r ↦ some r.2 ]

unfoldable pub set_time_at : TimeKey → ℕ → List TimeRow → List TimeRow
set_time_at k t = assign time_row_key time_key_dec (k.0, k.1, t)

module _ (env : Environment) where
  unfoldable pub list_notification_states : ℕ → Db → (Option String × List NotificationState) × Db
  unfolding states_of tick
  list_notification_states instance db = elim (env.fails db.statements) [
    | some e ↦ ((some ("querying notification state: " ++ e), List.[]), tick db)
    | none ↦ ((none, states_of instance db.notification_states), tick db)
  ]

  unfoldable pub upsert_notification_state : NotificationState → Db → Option String × Db
  unfolding upsert_states exec
  upsert_notification_state st =
      exec env "upserting notification state: "
        (λ db. record db { notification_states = upsert_states st db.notification_states })

  unfoldable pub delete_notification_state : Key → Db → Option String × Db
  unfolding delete_states exec
  delete_notification_state k =
      exec env "deleting notification state: "
        (λ db. record db { notification_states = delete_states k db.notification_states })

  -- A failure of the query is told apart from a missing row.
  unfoldable pub get_notifier_time : TimeKey → Db → (String ⊎ Option ℕ) × Db
  unfolding time_at tick
  get_notifier_time k db = elim (env.fails db.statements) [
    | some e ↦ (inl ("reading notifier " ++ (k.1 ++ (": " ++ e))), tick db)
    | none ↦ (inr (time_at k db.notifier_times), tick db)
  ]

  unfoldable pub set_notifier_time : TimeKey → ℕ → Db → Option String × Db
  unfolding set_time_at exec
  set_notifier_time k t =
      exec env ("writing notifier " ++ (k.1 ++ ": "))
        (λ db. record db { notifier_times = set_time_at k t db.notifier_times })
