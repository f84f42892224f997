-- ===== src/Notifier/Evaluate.antt =====
-- internal/notifier/notifier.go, evaluateSuggestions: the two loops that decide what to send and what to
-- write, and the whole of it over any storage. The closures that write a state are values here. `order` is
-- the order in which `range` visits the entries of a map.
pub mod Steps
pub mod Applied
pub mod Reads
pub mod Texts
pub mod Retry
pub mod Marks
pub mod Records
pub mod Recorded
pub mod Quiet
pub mod Silence
use Prim.Native.Char.{nul}
use Prim.Native.String
use Prim.Native.String.{String}
use better_pg_keeper.Common.{
  entry_key, index_by, ℕ, ◌+◌, Bool, true, false, ◌&&◌, not, Option, none, some, List, [], ◌∷◌,
  ◌++◌, ltb, leb, str_dec, find_by, assign, ite, if◌then◌else◌,
}
use better_pg_keeper.Models
use better_pg_keeper.Models.{Severity, severity_dec, other, NotificationState, active, resolved}
use better_pg_keeper.Storage.Suggestions.{Key}
use better_pg_keeper.Storage.Notifications.{state_row_key}
use better_pg_keeper.Notifier.Message.{
  kind_alert, Event, event_opened, event_escalated, event_reminder, event_resolved,
  event_downgraded, Item, Message, severity_rank, sort_items,
}
use better_pg_keeper.Notifier.Settings.{NotificationsConfig, Notifier}
use better_pg_keeper.Notifier.Deliver.{deliver, link, item, resolved_title, alert_title}
use better_pg_keeper.Notifier.Store.{Storage}

unfoldable pub state_key : String → String → String
state_key rule_id target = String.◌++◌ rule_id (String.◌∷◌ nul target)

-- The maps of evaluateSuggestions, as lists of their entries.
abbrev pub StateEntry : Type 0
StateEntry = String × NotificationState

abbrev pub ActiveEntry : Type 0
ActiveEntry = String × Models.Suggestion

abbrev pub flag : String → String
flag k = k

abbrev pub state_text : NotificationState → String
state_text st = state_key st.rule_id st.target_object

abbrev pub issue_text : Models.Suggestion → String
issue_text s = state_key s.rule_id s.target_object

unfoldable pub build_states : List NotificationState → List StateEntry
unfolding index_by state_key
build_states sts = index_by state_text sts []

unfoldable pub build_active : List Models.Suggestion → List ActiveEntry
unfolding index_by state_key
build_active ss = index_by issue_text ss []

unfoldable pub build_resolved : List Models.Suggestion → List String → List String
unfolding state_key
build_resolved [] m = m
build_resolved (s ∷ ss) m =
    build_resolved ss (assign flag str_dec (state_key s.rule_id s.target_object) m)

-- A write of a state.
pub data Write : Type 0 where
  upsert : NotificationState → Write
  forget : NotificationState → Write

-- The variables that the loops fill.
pub record Plan : Type 0 where
  pub items : List Item
  pub on_delivered : List Write
  pub always : List Write

abbrev pub no_plan : Plan
no_plan = record { items = []; on_delivered = []; always = [] }

unfoldable pub announce : Item → Write → Plan → Plan
announce it w p = record p { items = p.items ++ it ∷ []; on_delivered = p.on_delivered ++ w ∷ [] }

unfoldable pub silently : Write → Plan → Plan
silently w p = record p { always = p.always ++ w ∷ [] }

abbrev pub no_severity : Severity
no_severity = other ""

module _ (cfg : NotificationsConfig) (instance_id now : ℕ) where
  -- What is recorded once the suggestion has been announced.
  unfoldable pub next_state : Models.Suggestion → NotificationState
  next_state sug = record {
    instance_id = instance_id;
    rule_id = sug.rule_id;
    target_object = sug.target_object;
    severity = sug.severity;
    notified_at = now;
    cleared_at = none;
  }

  unfoldable pub alertable : Models.Suggestion → Bool
  unfolding severity_rank
  alertable sug = leb (severity_rank cfg.min_severity) (severity_rank sug.severity)

  unfoldable pub reminder_due : NotificationState → Bool
  reminder_due st = ltb 0 cfg.renotify_after && leb (st.notified_at + cfg.renotify_after) now

  -- The switch, for a suggestion that is known with the state `st`.
  unfoldable pub visit_known : NotificationState → Models.Suggestion → Plan → Plan
  visit_known st sug p =
      let next = next_state sug in
      let kept = record next { notified_at = st.notified_at } in
      if ltb (severity_rank st.severity) (severity_rank sug.severity)
      then announce (item cfg event_escalated sug st.severity) (upsert next) p
      else elim st.cleared_at [
        | some _ ↦ silently (upsert kept) p
        | none ↦
            if reminder_due st
            then announce (item cfg event_reminder sug no_severity) (upsert next) p
            else ite (severity_dec sug.severity st.severity) p (silently (upsert kept) p)
      ]

  -- The body of the loop over the active suggestions.
  unfoldable pub visit_active : List StateEntry → Models.Suggestion → Plan → Plan
  unfolding state_key
  visit_active states sug p =
      if alertable sug
      then elim (find_by entry_key str_dec (state_key sug.rule_id sug.target_object) states) [
        | none ↦ announce (item cfg event_opened sug no_severity) (upsert (next_state sug)) p
        | some e ↦ visit_known e.1 sug p
      ]
      else p

  unfoldable pub visit_all_active : List StateEntry → List Models.Suggestion → Plan → Plan
  unfolding visit_active
  visit_all_active states [] p = p
  visit_all_active states (sug ∷ sugs) p = visit_all_active states sugs (visit_active states sug p)

  unfoldable pub within_grace : ℕ → Bool
  within_grace cleared_at = ltb now (cleared_at + cfg.resolve_grace)

  module _ (active_by_key : List ActiveEntry) (resolved_keys : List String)
      (resolved_list : List Models.Suggestion) where
    -- The item that announces that the issue is gone, if any.
    unfoldable pub farewell : String → NotificationState → Option Item
    farewell key st =
        if cfg.notify_resolved
        then elim (find_by entry_key str_dec key active_by_key) [
          | some e ↦ some (item cfg event_downgraded e.1 st.severity)
          | none ↦ elim (find_by flag str_dec key resolved_keys) [
            | none ↦ none
            | some _ ↦ some (record {
              event = event_resolved;
              severity = st.severity;
              previous_severity = no_severity;
              rule_id = st.rule_id;
              target = st.target_object;
              title = resolved_title resolved_list st;
              url = "";
              outcome = "";
            })
          ]
        ]
        else none

    unfoldable pub still_alertable : String → Bool
    still_alertable key = elim (find_by entry_key str_dec key active_by_key) [
      | none ↦ false
      | some e ↦ alertable e.1
    ]

    -- An issue that is gone, or no longer alertable.
    unfoldable pub visit_gone : String → NotificationState → Plan → Plan
    visit_gone key st p = elim st.cleared_at [
      | none ↦ silently (upsert (record st { cleared_at = some now })) p
      | some cleared_at ↦ if within_grace cleared_at then p else elim (farewell key st) [
        | none ↦ silently (forget st) p
        | some it ↦ announce it (forget st) p
      ]
    ]

    -- The body of the loop over the states.
    unfoldable pub visit_state : StateEntry → Plan → Plan
    visit_state (key, st) p = if still_alertable key then p else visit_gone key st p

    unfoldable pub visit_states : List StateEntry → Plan → Plan
    unfolding visit_state
    visit_states [] p = p
    visit_states (e ∷ es) p = visit_states es (visit_state e p)

  unfoldable pub decide :
      (List StateEntry → List StateEntry)
      → List Models.Suggestion
      → List Models.Suggestion
      → List NotificationState
      → Plan
  unfolding visit_all_active visit_states build_states build_active build_resolved
  decide order active_list resolved_list state_list =
      let states = build_states state_list in
      visit_states (build_active active_list) (build_resolved resolved_list []) resolved_list
        (order states) (visit_all_active states active_list no_plan)

module _ {S : Type 0} (storage : Storage S) where
  unfoldable pub apply_write : Write → S → Option String × S
  apply_write (upsert st) = storage.upsert_notification_state st
  apply_write (forget st) = storage.delete_notification_state (state_row_key st)

  -- The errors that errors.Join keeps, and the storage after the writes.
  unfoldable pub apply_writes : List Write → S → List String × S
  unfolding apply_write
  apply_writes [] s = ([], s)
  apply_writes (w ∷ ws) s =
      let (failed, s') = apply_write w s in
      let (errs, s'') = apply_writes ws s' in (elim failed [ none ↦ errs | some e ↦ e ∷ errs ], s'')

module _ {D S : Type 0} (storage : Storage S) (n : Notifier D) where
  abbrev pub alert : List Item → Message D
  alert items =
      let sorted = sort_items items in
      record {
        kind = kind_alert;
        instance = "";
        title = alert_title sorted;
        detail = "";
        items = sorted;
        digest = none;
        url = link n.cfg "/suggestions";
        sent_at = 0;
      }

  -- What follows the decisions. `sent_at` is the time at which a message is sent.
  unfoldable pub carry_out : ℕ → Plan → S → List String × S
  unfolding apply_writes deliver alert_title sort_items link
  carry_out sent_at p s =
      let (errs, s') = apply_writes storage p.always s in
      elim p.items [
        | [] ↦ (errs, s')
        | it ∷ its ↦ elim (deliver n sent_at (alert (it ∷ its))) [
          | [] ↦ let (errs', s'') = apply_writes storage p.on_delivered s' in (errs ++ errs', s'')
          | e ∷ es ↦ (errs ++ e ∷ es, s')
        ]
      ]

  -- The errors, none of them for nil, and the storage after the run.
  unfoldable pub evaluate_suggestions :
      (List StateEntry → List StateEntry) → (now : ℕ) → (sent_at : ℕ) → S → List String × S
  unfolding decide carry_out
  evaluate_suggestions order now sent_at s =
      let ((failed, actives), s1) = storage.get_suggestions_by_status n.instance_id active s in
      elim failed [
        | some e ↦ (e ∷ [], s1)
        | none ↦
            let ((failed', resolveds), s2) =
              storage.get_suggestions_by_status n.instance_id resolved s1 in
            elim failed' [
              | some e ↦ (e ∷ [], s2)
              | none ↦
                  let ((failed'', state_list), s3) =
                    storage.list_notification_states n.instance_id s2 in
                  elim failed'' [
                    | some e ↦ (e ∷ [], s3)
                    | none ↦
                        carry_out sent_at
                          (decide n.cfg n.instance_id now order actives resolveds state_list) s3
                  ]
            ]
      ]
