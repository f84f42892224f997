-- ===== src/Notifier/Evaluate/Marks.antt =====
-- internal/notifier/notifier.go, evaluateSuggestions: an alertable issue is marked in the plan, or is
-- recorded already.
use Prim.Native.String.{String}
use better_pg_keeper.Common.{
  ℕ, ◌≡◌, ◌≢◌, ◌⊎◌, inl, inr, ite_both, ite_cases, true, none, some, List, [], ◌∷◌, ◌++◌, Any,
  Any-append, ltb, entry_key, find_by, str_dec, Bool-cases, Option-cases,
}
use better_pg_keeper.Models
use better_pg_keeper.Models.{NotificationState, severity_dec}
use better_pg_keeper.Storage.Suggestions.{Key}
use better_pg_keeper.Notifier.Store.{Storage}
use better_pg_keeper.Notifier.Message.{
  Item, event_opened, event_escalated, event_reminder, severity_rank,
}
use better_pg_keeper.Notifier.Settings.{NotificationsConfig}
use better_pg_keeper.Notifier.Deliver.{item}
use better_pg_keeper.Notifier.Evaluate.{
  StateEntry, ActiveEntry, issue_text, Write, Plan, announce, silently, no_severity, next_state,
  alertable, reminder_due, within_grace, visit_known, visit_active, still_alertable, farewell,
  visit_gone, visit_state,
}
use better_pg_keeper.Notifier.Evaluate.Steps.{kept_state}
use better_pg_keeper.Notifier.Evaluate.Applied.{IsMark}

-- A property that both ways of adding to a plan keep is kept by every visit.
module _ (P : Plan → Type 0) (told : (it : Item) (w : Write) (p : Plan) → P p → P (announce it w p))
    (noted : (w : Write) (p : Plan) → P p → P (silently w p)) (cfg : NotificationsConfig)
    (instance_id now : ℕ) where
  visit_known_closed :
      (st : NotificationState) (sug : Models.Suggestion) (p : Plan)
      → P p
      → P (visit_known cfg instance_id now st sug p)
  unfolding visit_known
  visit_known_closed st sug p h =
      elim (Bool-cases (ltb (severity_rank st.severity) (severity_rank sug.severity))) [
        | inl rises ↦ rw (rises, visit_known) (told _ _ p h)
        | inr stays ↦ elim (Option-cases st.cleared_at) [
          | inr (c, gone) ↦ rw (stays, gone, visit_known) (noted _ p h)
          | inl fresh ↦ elim (Bool-cases (reminder_due cfg instance_id now st)) [
            | inl due ↦ rw (stays, fresh, due, visit_known) (told _ _ p h)
            | inr quiet ↦
                rw (stays, fresh, quiet, visit_known)
                  (ite_both P (severity_dec sug.severity st.severity) p _ h (noted _ p h))
          ]
        ]
      ]

  pub visit_active_closed :
      (states : List StateEntry) (sug : Models.Suggestion) (p : Plan)
      → P p
      → P (visit_active cfg instance_id now states sug p)
  unfolding visit_active
  visit_active_closed states sug p h = elim (Bool-cases (alertable cfg instance_id now sug)) [
    | inr low ↦ rw (low, visit_active) h
    | inl high ↦ elim (Option-cases (find_by entry_key str_dec (issue_text sug) states)) [
      | inl unknown ↦ rw (high, unknown, visit_active) (told _ _ p h)
      | inr (e, known) ↦ rw (high, known, visit_active) (visit_known_closed e.1 sug p h)
    ]
  ]

  module _ (active_by_key : List ActiveEntry) (resolved_keys : List String)
      (resolved_list : List Models.Suggestion) where
    visit_gone_closed :
        (key : String) (st : NotificationState) (p : Plan)
        → P p
        → P (visit_gone cfg instance_id now active_by_key resolved_keys resolved_list key st p)
    unfolding visit_gone
    visit_gone_closed key st p h = elim (Option-cases st.cleared_at) [
      | inl fresh ↦ rw (fresh, visit_gone) (noted _ p h)
      | inr (c, gone) ↦ elim (Bool-cases (within_grace cfg instance_id now c)) [
        | inl soon ↦ rw (gone, soon, visit_gone) h
        | inr late ↦
            elim (Option-cases
              (farewell cfg instance_id now active_by_key resolved_keys resolved_list key st)) [
                | inl quiet ↦ rw (gone, late, quiet, visit_gone) (noted _ p h)
                | inr (it, said) ↦ rw (gone, late, said, visit_gone) (told it _ p h)
              ]
      ]
    ]

    pub visit_state_closed :
        (e : StateEntry) (p : Plan)
        → P p
        → P (visit_state cfg instance_id now active_by_key resolved_keys resolved_list e p)
    unfolding visit_state
    visit_state_closed (key, st) p h =
        elim (Bool-cases
          (still_alertable cfg instance_id now active_by_key resolved_keys resolved_list key)) [
            | inl on ↦ rw (on, visit_state) h
            | inr off ↦ rw (off, visit_state) (visit_gone_closed key st p h)
          ]

-- `R` holds, or the plan writes a good state of the issue: always, or after a message.
module _ {S : Type 0} (storage : Storage S) (k : Key) (Good : NotificationState → Type 0)
    (R : Type 0) where
  abbrev pub IsDone : Plan → Type 0
  IsDone p =
      R
      ⊎ Any (IsMark storage k Good) p.always
      ⊎ Any (IsMark storage k Good) p.on_delivered × (p.items ≢ [])

  append_not_empty : (it : Item) (its : List Item) → (its ++ it ∷ []) ≢ []
  append_not_empty it [] e = absurd (cc)
  append_not_empty it (x ∷ xs) e = absurd (cc)

  pub announce-IsDone : (it : Item) (w : Write) (p : Plan) → IsDone p → IsDone (announce it w p)
  unfolding announce
  announce-IsDone it w p (inl r) = inl r
  announce-IsDone it w p (inr (inl m)) = inr (inl m)
  announce-IsDone it w p (inr (inr (m, some_items))) = inr (
      inr (
        Any-append (IsMark storage k Good) p.on_delivered (w ∷ []) (inl m),
        append_not_empty it p.items,
      ))

  pub silently-IsDone : (w : Write) (p : Plan) → IsDone p → IsDone (silently w p)
  unfolding silently
  silently-IsDone w p (inl r) = inl r
  silently-IsDone w p (inr (inl m)) =
      inr (inl (Any-append (IsMark storage k Good) p.always (w ∷ []) (inl m)))
  silently-IsDone w p (inr (inr h)) = inr (inr h)

  announce-marks :
      (it : Item) (w : Write) (p : Plan) → IsMark storage k Good w → IsDone (announce it w p)
  unfolding announce
  announce-marks it w p m = inr (
      inr (
        Any-append (IsMark storage k Good) p.on_delivered (w ∷ []) (inr (inl m)),
        append_not_empty it p.items,
      ))

  silently-marks : (w : Write) (p : Plan) → IsMark storage k Good w → IsDone (silently w p)
  unfolding silently
  silently-marks w p m =
      inr (inl (Any-append (IsMark storage k Good) p.always (w ∷ []) (inr (inl m))))

  module _ (cfg : NotificationsConfig) (instance_id now : ℕ) (sug : Models.Suggestion)
      (mark : (t : ℕ)
        → IsMark storage k Good (Write.upsert (kept_state cfg instance_id now sug t))) where
    visit_known-marks :
        (st : NotificationState) (p : Plan)
        → (sug.severity ≡ st.severity → st.cleared_at ≡ none → R)
        → IsDone (visit_known cfg instance_id now st sug p)
    unfolding visit_known next_state
    visit_known-marks st p recorded =
        elim (Bool-cases (ltb (severity_rank st.severity) (severity_rank sug.severity))) [
          | inl rises ↦
              rw (rises, visit_known)
                (announce-marks (item cfg event_escalated sug st.severity) _ p (mark now))
          | inr stays ↦ elim (Option-cases st.cleared_at) [
            | inr (c, gone) ↦
                rw (stays, gone, visit_known) (silently-marks _ p (mark st.notified_at))
            | inl fresh ↦ elim (Bool-cases (reminder_due cfg instance_id now st)) [
              | inl due ↦
                  rw (stays, fresh, due, visit_known)
                    (announce-marks (item cfg event_reminder sug no_severity) _ p (mark now))
              | inr quiet ↦
                  rw (stays, fresh, quiet, visit_known)
                    (ite_cases IsDone (severity_dec sug.severity st.severity) p _
                      (λ same. inl (recorded same fresh))
                      (λ _. silently-marks _ p (mark st.notified_at)))
            ]
          ]
        ]

    -- The visit of an alertable suggestion.
    pub visit_active-marks :
        (states : List StateEntry) (p : Plan)
        → alertable cfg instance_id now sug ≡ true
        → ((e : StateEntry)
            → find_by entry_key str_dec (issue_text sug) states ≡ some e
            → sug.severity ≡ e.1.severity
            → e.1.cleared_at ≡ none
            → R)
        → IsDone (visit_active cfg instance_id now states sug p)
    unfolding visit_active next_state
    visit_active-marks states p high recorded =
        elim (Option-cases (find_by entry_key str_dec (issue_text sug) states)) [
          | inl unknown ↦
              rw (high, unknown, visit_active)
                (announce-marks (item cfg event_opened sug no_severity) _ p (mark now))
          | inr (e, known) ↦
              rw (high, known, visit_active) (visit_known-marks e.1 p (recorded e known))
        ]
