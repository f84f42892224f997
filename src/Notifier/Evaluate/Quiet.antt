-- ===== src/Notifier/Evaluate/Quiet.antt =====
-- internal/notifier/notifier.go, evaluateSuggestions: when an issue that has been announced is not announced
-- again.
use Prim.Native.String.{String}
use better_pg_keeper.Common.{
  ℕ, ◌≡◌, ◌≢◌, refl, ◌⊎◌, inl, inr, ite_both, true, false, none, some, List, [], ◌∷◌, All,
  All-append, IsOrder, ltb, entry_key, find_by, str_dec, Bool-cases, Option-cases,
}
use better_pg_keeper.Models
use better_pg_keeper.Models.{NotificationState, severity_dec}
use better_pg_keeper.Notifier.Message.{Event, Item, severity_rank}
use better_pg_keeper.Notifier.Settings.{NotificationsConfig}
use better_pg_keeper.Notifier.Deliver.{item}
use better_pg_keeper.Notifier.Evaluate.{
  StateEntry, state_key, state_text, issue_text, Plan, Write, announce, silently, alertable,
  reminder_due, visit_known, visit_active,
}

abbrev pub item_text : Item → String
item_text it = state_key it.rule_id it.target

module _ (cfg : NotificationsConfig) (instance_id now : ℕ)
    (order : List StateEntry → List StateEntry) (iteration : IsOrder order)
    (st : NotificationState) where
  -- The severity is not above the recorded one, and the issue was gone or its reminder is not due.
  abbrev pub IsCalm : Models.Suggestion → Type 0
  IsCalm sug =
      (ltb (severity_rank st.severity) (severity_rank sug.severity) ≡ false)
      × ((st.cleared_at ≢ none) ⊎ (reminder_due cfg instance_id now st ≡ false))

  -- No item is about the issue.
  abbrev pub IsQuiet : Plan → Type 0
  IsQuiet p = All (λ it. item_text it ≢ state_text st) p.items

  pub announce-IsQuiet :
      (it : Item) (w : Write) (p : Plan)
      → item_text it ≢ state_text st
      → IsQuiet p
      → IsQuiet (announce it w p)
  unfolding announce
  announce-IsQuiet it w p other h =
      All-append (λ x. item_text x ≢ state_text st) p.items (it ∷ []) h (other, tt)

  pub silently-IsQuiet : (w : Write) (p : Plan) → IsQuiet p → IsQuiet (silently w p)
  unfolding silently
  silently-IsQuiet w p h = h

  pub item-text :
      (event : Event) (sug : Models.Suggestion) (previous : Models.Severity)
      → item_text (item cfg event sug previous) ≡ issue_text sug
  unfolding item
  item-text event sug previous = refl

  visit_known_calm :
      (sug : Models.Suggestion) (p : Plan)
      → IsCalm sug
      → IsQuiet p
      → IsQuiet (visit_known cfg instance_id now st sug p)
  unfolding visit_known
  visit_known_calm sug p (stays, calm) h = elim (Option-cases st.cleared_at) [
    | inr (c, gone) ↦ rw (stays, gone, visit_known) (silently-IsQuiet _ p h)
    | inl fresh ↦ elim calm [
      | inl gone ↦ absurd (gone fresh)
      | inr quiet ↦
          rw (stays, fresh, quiet, visit_known)
            (ite_both IsQuiet (severity_dec sug.severity st.severity) p _ h
              (silently-IsQuiet _ p h))
    ]
  ]

  visit_known_other :
      (st' : NotificationState) (sug : Models.Suggestion) (p : Plan)
      → issue_text sug ≢ state_text st
      → IsQuiet p
      → IsQuiet (visit_known cfg instance_id now st' sug p)
  unfolding visit_known item
  visit_known_other st' sug p other h =
      elim (Bool-cases (ltb (severity_rank st'.severity) (severity_rank sug.severity))) [
        | inl rises ↦ rw (rises, visit_known) (announce-IsQuiet _ _ p other h)
        | inr stays ↦ elim (Option-cases st'.cleared_at) [
          | inr (c, gone) ↦ rw (stays, gone, visit_known) (silently-IsQuiet _ p h)
          | inl fresh ↦ elim (Bool-cases (reminder_due cfg instance_id now st')) [
            | inl due ↦ rw (stays, fresh, due, visit_known) (announce-IsQuiet _ _ p other h)
            | inr quiet ↦
                rw (stays, fresh, quiet, visit_known)
                  (ite_both IsQuiet (severity_dec sug.severity st'.severity) p _ h
                    (silently-IsQuiet _ p h))
          ]
        ]
      ]

  -- A suggestion of the issue that is alertable is calm.
  abbrev pub CalmIfSame : Models.Suggestion → Type 0
  CalmIfSame sug =
      issue_text sug ≡ state_text st → alertable cfg instance_id now sug ≡ true → IsCalm sug

  pub visit_active-IsQuiet :
      (states : List StateEntry)
      → find_by entry_key str_dec (state_text st) states ≡ some (state_text st, st)
      → (sug : Models.Suggestion) (p : Plan) → CalmIfSame sug
      → IsQuiet p
      → IsQuiet (visit_active cfg instance_id now states sug p)
  unfolding visit_active item
  visit_active-IsQuiet states found sug p calm h =
      elim (Bool-cases (alertable cfg instance_id now sug)) [
        | inr low ↦ rw (low, visit_active) h
        | inl high ↦ elim (str_dec (issue_text sug) (state_text st)) [
          | yes same ↦
              let known : find_by entry_key str_dec (issue_text sug) states
                  ≡ some (state_text st, st) =
                rw same found in
              rw (high, known, visit_active) (visit_known_calm sug p (calm same high) h)
          | no other ↦ elim (Option-cases (find_by entry_key str_dec (issue_text sug) states)) [
            | inl unknown ↦ rw (high, unknown, visit_active) (announce-IsQuiet _ _ p other h)
            | inr (e, known) ↦ rw (high, known, visit_active) (visit_known_other e.1 sug p other h)
          ]
        ]
      ]
