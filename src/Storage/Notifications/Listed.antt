-- ===== src/Storage/Notifications/Listed.antt =====
-- internal/storage/sqlite/notifications.go, ListNotificationStates: which states are listed.
use better_pg_keeper.Common.{
  ℕ, ◌≡◌, true, List, arith, All, All-mono, All-zip, All-filter, filter, filter-All,
}
use better_pg_keeper.Models.{NotificationState}
use better_pg_keeper.Storage.Notifications.{of_instance, states_of}

-- A listed state is of the instance, and has what every state of the table has.
pub states_of-All :
    (P : NotificationState → Type 0) (instance : ℕ) (rows : List NotificationState)
    → All P rows
    → All (λ st. P st × (st.instance_id ≡ instance)) (states_of instance rows)
unfolding states_of of_instance
states_of-All P instance rows a =
    let test = of_instance instance in
    All-mono (λ st. (test st ≡ true) × P st) (λ st. P st × (st.instance_id ≡ instance))
      (λ st h. (h.1, ground (arith, h.0))) (filter test rows)
      (All-zip (λ st. test st ≡ true) P (filter test rows) (filter-All test rows)
        (All-filter P test rows a))
