-- ===== src/Notifier/Tests.antt =====
-- Runs of the notifier on a small table, for the statements about deliver and evaluateSuggestions.

use Prim.Native.Char.{nul}
use Prim.Native.String.{String}
use better_pg_keeper.Common.{
  ne_by, ℕ, ◌+◌, ◌≡◌, ◌≢◌, refl, ◌⊎◌, ◌↔◌, inl, inr, true, none, List, [], ◌∷◌, All, Any, IsFree,
  IsFree-of, lacks_char, IsOrder, Memᴰ, Distinct, Distinct-of, are_distinct, lacks, ℕ_discrete,
  str_dec, find_by, assign, index_by,
}
use better_pg_keeper.Models
use better_pg_keeper.Models.{
  Severity, severity_dec, Status, status_dec, info, warning, critical, active, resolved,
  NotificationState,
}
use better_pg_keeper.Storage.Db.{Environment, Db}
use better_pg_keeper.Storage.Suggestions.{row_id, row_key, key_dec, rows_by_status}
use better_pg_keeper.Storage.Suggestions.Keys.{IsKeyed}
use better_pg_keeper.Storage.Notifications.{state_row_key}
use better_pg_keeper.Notifier.Message.{
  severity_rank, Item, Message, kind_test, event_opened, sort_items,
}
use better_pg_keeper.Notifier.Deliver.{deliver, send_all}
use better_pg_keeper.Notifier.Deliver.Accepts.{Accepts, stamped, deliver-Accepts}
use better_pg_keeper.Notifier.Message.Sorted.{by_severity, sort_items-stable}
use better_pg_keeper.Notifier.Samples.{settings, notifier, mute}
use better_pg_keeper.Notifier.Sqlite.{sqlite_states}
use better_pg_keeper.Notifier.Evaluate.{
  state_key, still_alertable, visit_known, reminder_due, announce, build_active, StateEntry,
  evaluate_suggestions, decide, alertable, state_text,
}
use better_pg_keeper.Notifier.Evaluate.Applied.{state_at, HasState}
use better_pg_keeper.Notifier.Evaluate.Retry.{evaluate-retries}
use better_pg_keeper.Notifier.Evaluate.Records.{IsCurrent, issue_of}
use better_pg_keeper.Notifier.Evaluate.Recorded.{evaluate-records}
use better_pg_keeper.Notifier.Evaluate.Quiet.{item_text}
use better_pg_keeper.Notifier.Evaluate.Silence.{decide-silent}

abbrev healthy : Environment
healthy = record { fails = λ _. none; clock = λ n. 1000 + n }

abbrev stored : ℕ → String → String → Severity → Status → Models.Suggestion
stored id rule target severity status = record {
  id = id;
  instance_id = 1;
  rule_id = rule;
  severity = severity;
  title = "title";
  description = "description";
  target_object = target;
  metadata = "{}";
  status = status;
  first_seen_at = 10;
  last_seen_at = 20;
  dismissed_at = none;
  resolved_at = none;
}

abbrev slow : Models.Suggestion
slow = stored 1 "slow_query" "query:7" critical active

abbrev bloat : Models.Suggestion
bloat = stored 2 "bloat" "public.a" warning active

abbrev told : NotificationState
told = record {
  instance_id = 1;
  rule_id = "bloat";
  target_object = "public.a";
  severity = warning;
  notified_at = 90;
  cleared_at = none;
}

abbrev table : List Models.Suggestion
table = slow ∷ bloat ∷ []

abbrev states : List NotificationState
states = told ∷ []

abbrev db : Db
db = record {
  suggestions = table;
  notification_states = states;
  notifier_times = [];
  snapshots = [];
  snapshot_collectors = [];
  statements = 0;
}

abbrev as_given : List StateEntry → List StateEntry
as_given l = l

as_given-IsOrder : IsOrder as_given
as_given-IsOrder = record { keeps = λ P l a. a; covers = λ e l m. m }

table-IsKeyed : IsKeyed table
unfolding are_distinct lacks ℕ_discrete key_dec str_dec
table-IsKeyed = record {
  distinct_keys = Distinct-of row_key key_dec table refl;
  distinct_ids = Distinct-of row_id ℕ_discrete table refl;
}

states-Distinct : Distinct state_row_key states
states-Distinct = (tt, tt)

table_names : All (λ x. IsFree nul x.rule_id) table
unfolding lacks_char
table_names = (IsFree-of nul "slow_query" refl, (IsFree-of nul "bloat" refl, tt))

state_names : All (λ st. IsFree nul st.rule_id) states
unfolding lacks_char
state_names = (IsFree-of nul "bloat" refl, tt)

slow_name : IsFree nul "slow_query"
slow_name = table_names.0

abbrev hello : Message (Unit {0})
hello = record {
  kind = kind_test;
  instance = "";
  title = "hello";
  detail = "";
  items = [];
  digest = none;
  url = "";
  sent_at = 0;
}

-- One channel of two accepts.
deliver-Accepts_example :
    (deliver notifier 7 hello ≡ [])
    ↔ (Any (Accepts (stamped notifier 7 hello)) notifier.channels ⊎ (notifier.channels ≡ []))
deliver-Accepts_example = deliver-Accepts notifier 7 hello

slow-unknown : state_at (1, "slow_query", "query:7") states ≡ none
unfolding find_by key_dec ℕ_discrete str_dec
slow-unknown = refl

nothing_delivered : (m : Message (Unit {0})) → deliver mute 100 m ≢ []
unfolding deliver send_all
nothing_delivered m h = absurd (cc (h))

evaluate-retries_example :
    state_at
      (1, "slow_query", "query:7")
      (evaluate_suggestions (sqlite_states healthy) mute as_given 100 100 db).1.notification_states
    ≡ none
unfolding sqlite_states
evaluate-retries_example =
    evaluate-retries (sqlite_states healthy) mute as_given as_given-IsOrder 100 100 db "slow_query"
      "query:7" slow_name state_names nothing_delivered slow-unknown

abbrev whole_run : List String × Db
whole_run = evaluate_suggestions (sqlite_states healthy) notifier as_given 100 101 db

no_error : whole_run.0 ≡ []
unfolding evaluate_suggestions sqlite_states ℕ_discrete still_alertable find_by rows_by_status
    status_dec str_dec alertable visit_known reminder_due severity_dec announce
no_error = refl

slow-alertable : alertable settings 1 100 slow ≡ true
unfolding alertable
slow-alertable = refl

evaluate-records_example :
    HasState
      (sqlite_states healthy)
      (issue_of slow)
      (IsCurrent slow)
      whole_run.1.notification_states
unfolding sqlite_states
evaluate-records_example =
    evaluate-records (sqlite_states healthy) notifier as_given as_given-IsOrder 100 101 db slow
      table-IsKeyed table_names states-Distinct state_names (Memᴰ.head refl) refl refl
      slow-alertable no_error

abbrev opened_item : Item
opened_item = record {
  event = event_opened;
  severity = warning;
  previous_severity = Models.other "";
  rule_id = "bloat";
  target = "public.a";
  title = "title";
  url = "";
  outcome = "";
}

abbrev items : List Item
items = opened_item ∷ record opened_item { severity = critical } ∷ opened_item ∷ []

sort_items-stable_example : sort_items items ≡ by_severity items
sort_items-stable_example = sort_items-stable items

-- The bloat was told at 90, and its reminder is due at 140.
decide-silent_example :
    All
      (λ it. item_text it ≢ state_text told)
      (decide settings 1 100 as_given table [] states).items
unfolding state_key str_dec severity_rank reminder_due still_alertable alertable build_active
    index_by assign find_by
decide-silent_example =
    decide-silent settings 1 100 as_given as_given-IsOrder told table [] states (Memᴰ.head refl)
      ((λ e. refl), tt)
      ((λ same high. absurd (ne_by str_dec _ _ refl same)), ((λ same high. (refl, inr refl)), tt))
      (inl refl)
