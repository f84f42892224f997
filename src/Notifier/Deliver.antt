-- ===== src/Notifier/Deliver.antt =====
-- internal/notifier/notifier.go: delivery of a message to the channels, the items and the title of an alert.
pub mod Accepts
use Prim.Native.String.{String}
use better_pg_keeper.Common.{
  ℕ, ◌+◌, none, some, List, [], ◌∷◌, ◌++◌, ◌==◌, str_dec, find_by, assign, sprint, decimal, ite,
  if◌then◌else◌, code_eq,
}
use better_pg_keeper.Models
use better_pg_keeper.Models.{Severity, critical, warning, info, other, NotificationState}
use better_pg_keeper.Notifier.Message.{
  Event, event_opened, event_escalated, event_reminder, event_resolved, event_downgraded, Item,
  Message,
}
use better_pg_keeper.Notifier.Settings.{NotificationsConfig, Channel, Notifier}

module _ {D : Type 0} where
  -- The errors of the channels that refused, and how many accepted.
  unfoldable pub send_all : List (Channel D) → Message D → List String × ℕ
  send_all [] m = ([], 0)
  send_all (ch ∷ chs) m =
      let (errs, delivered) = send_all chs m in
      elim (ch.send m) [
        | some e ↦ (sprint (ch.name ∷ ": " ∷ e ∷ []) ∷ errs, delivered)
        | none ↦ (errs, delivered + 1)
      ]

  -- The errors joined; none is success. `sent_at` is n.now().
  unfoldable pub deliver : Notifier D → ℕ → Message D → List String
  unfolding send_all
  deliver n sent_at m =
      let (errs, delivered) =
        send_all n.channels (record m { instance = n.instance; sent_at = sent_at }) in
      if delivered == 0 then errs else []

-- strings.TrimRight(s, "/")
unfoldable pub trim_slashes : String → String
trim_slashes String.[] = ""
trim_slashes (String.◌∷◌ c s) =
    let rest = trim_slashes s in
    if code_eq c "/" then ite (str_dec rest "") "" (String.◌∷◌ c rest) else String.◌∷◌ c rest

unfoldable pub link : NotificationsConfig → String → String
unfolding trim_slashes
link cfg path =
    ite (str_dec cfg.dashboard_url "") "" (sprint (trim_slashes cfg.dashboard_url ∷ path ∷ []))

unfoldable pub item : NotificationsConfig → Event → Models.Suggestion → Severity → Item
unfolding link
item cfg event sug previous = record {
  event = event;
  severity = sug.severity;
  previous_severity = previous;
  rule_id = sug.rule_id;
  target = sug.target_object;
  title = sug.title;
  url = link cfg (sprint ("/suggestions/" ∷ decimal sug.id ∷ []));
  outcome = "";
}

unfoldable pub resolved_title : List Models.Suggestion → NotificationState → String
resolved_title [] st = sprint (st.rule_id ∷ " " ∷ st.target_object ∷ [])
resolved_title (s ∷ ss) st =
    let rest = resolved_title ss st in
    ite (str_dec s.rule_id st.rule_id) (ite (str_dec s.target_object st.target_object) s.title rest)
      rest

unfoldable pub severity_text : Severity → String
severity_text critical = "critical"
severity_text warning = "warning"
severity_text info = "info"
severity_text (other s) = s

unfoldable pub item_label : Item → String
unfolding severity_text
item_label it = elim it.event [
  | event_opened ↦ sprint ("new " ∷ severity_text it.severity ∷ [])
  | event_escalated ↦ sprint ("escalated to " ∷ severity_text it.severity ∷ [])
  | event_reminder ↦ sprint ("still " ∷ severity_text it.severity ∷ [])
  | event_resolved ↦ "resolved"
  | event_downgraded ↦ "resolved"
]

abbrev pub label_of : String × ℕ → String
label_of e = e.0

-- `counts` in the order of `order`: a label is added at its first item.
unfoldable pub count_label : String → List (String × ℕ) → List (String × ℕ)
count_label label counts = elim (find_by label_of str_dec label counts) [
  | none ↦ counts ++ (label, 1) ∷ []
  | some e ↦ assign label_of str_dec (label, e.1 + 1) counts
]

unfoldable pub count_labels : List Item → List (String × ℕ) → List (String × ℕ)
unfolding count_label item_label
count_labels [] counts = counts
count_labels (it ∷ its) counts = count_labels its (count_label (item_label it) counts)

-- strings.Join(parts, ", ")
unfoldable pub join_counts : List (String × ℕ) → String
join_counts [] = ""
join_counts (e ∷ es) =
    let rest = join_counts es in
    elim es [
      | [] ↦ sprint (decimal e.1 ∷ " " ∷ e.0 ∷ [])
      | _ ∷ _ ↦ sprint (decimal e.1 ∷ " " ∷ e.0 ∷ ", " ∷ rest ∷ [])
    ]

unfoldable pub alert_title : List Item → String
unfolding count_labels join_counts
alert_title items = join_counts (count_labels items [])
