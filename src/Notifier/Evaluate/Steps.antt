-- ===== src/Notifier/Evaluate/Steps.antt =====
-- internal/notifier/notifier.go, evaluateSuggestions: what each visit of the two loops may add to the plan,
-- and what the loops keep.
use Prim.Native.String.{String}
use better_pg_keeper.Common.{
  ltb, ite_both, ℕ, ◌≡◌, ◌⊎◌, inl, inr, true, Option, none, some, List, [], ◌∷◌, All, All-append,
  Memᴰ, entry_key, find_by, str_dec, Bool-cases, Option-cases,
}
use mathlib.Core.Path.{subst}
use better_pg_keeper.Models
use better_pg_keeper.Models.{NotificationState, severity_dec}
use better_pg_keeper.Notifier.Message.{Item}
use better_pg_keeper.Notifier.Settings.{NotificationsConfig}
use better_pg_keeper.Notifier.Evaluate.{
  StateEntry, ActiveEntry, issue_text, Write, Plan, announce, silently, next_state, alertable,
  visit_known, visit_active, visit_all_active, still_alertable, farewell, visit_gone, visit_state,
  visit_states, reminder_due, within_grace, no_severity,
}
use better_pg_keeper.Notifier.Deliver.{item}
use better_pg_keeper.Notifier.Message.{event_opened, event_escalated, event_reminder, severity_rank}

-- The states that the visit of a suggestion may write.
abbrev pub kept_state : NotificationsConfig → ℕ → ℕ → Models.Suggestion → ℕ → NotificationState
kept_state cfg instance_id now sug t = record (next_state cfg instance_id now sug) {
  notified_at = t;
}

-- The writes after delivery have one property, and the others another.
module _ (D A : Write → Type 0) where
  pub record Writes (p : Plan) : Type 0 where
    pub delivered : All D p.on_delivered
    pub silent : All A p.always

  announce-Writes : (it : Item) (w : Write) (p : Plan) → D w → Writes p → Writes (announce it w p)
  unfolding announce
  announce-Writes it w p d h = record {
    delivered = All-append D p.on_delivered (w ∷ []) h.delivered (d, tt);
    silent = h.silent;
  }

  silently-Writes : (w : Write) (p : Plan) → A w → Writes p → Writes (silently w p)
  unfolding silently
  silently-Writes w p a h = record {
    delivered = h.delivered;
    silent = All-append A p.always (w ∷ []) h.silent (a, tt);
  }

  module _ (cfg : NotificationsConfig) (instance_id now : ℕ) where
    visit_known-Writes :
        (st : NotificationState) (sug : Models.Suggestion) (p : Plan)
        → D (Write.upsert (kept_state cfg instance_id now sug now))
        → ((t : ℕ) → A (Write.upsert (kept_state cfg instance_id now sug t)))
        → Writes p
        → Writes (visit_known cfg instance_id now st sug p)
    unfolding visit_known next_state
    visit_known-Writes st sug p d a h =
        let sent =
          announce-Writes (item cfg event_escalated sug st.severity)
            (Write.upsert (kept_state cfg instance_id now sug now)) p d h in
        let reminded =
          announce-Writes (item cfg event_reminder sug no_severity)
            (Write.upsert (kept_state cfg instance_id now sug now)) p d h in
        let noted =
          silently-Writes (Write.upsert (kept_state cfg instance_id now sug st.notified_at)) p
            (a st.notified_at) h in
        elim (Bool-cases (ltb (severity_rank st.severity) (severity_rank sug.severity))) [
          | inl rises ↦ rw (rises, visit_known) sent
          | inr stays ↦ elim (Option-cases st.cleared_at) [
            | inr (c, gone) ↦ rw (stays, gone, visit_known) noted
            | inl fresh ↦ elim (Bool-cases (reminder_due cfg instance_id now st)) [
              | inl due ↦ rw (stays, fresh, due, visit_known) reminded
              | inr quiet ↦
                  rw (stays, fresh, quiet, visit_known)
                    (ite_both Writes (severity_dec sug.severity st.severity) p _ h noted)
            ]
          ]
        ]

    pub visit_active-Writes :
        (states : List StateEntry) (sug : Models.Suggestion) (p : Plan)
        → D (Write.upsert (kept_state cfg instance_id now sug now))
        → (find_by entry_key str_dec (issue_text sug) states ≡ none)
          ⊎ ((t : ℕ) → A (Write.upsert (kept_state cfg instance_id now sug t)))
        → Writes p
        → Writes (visit_active cfg instance_id now states sug p)
    unfolding visit_active next_state
    visit_active-Writes states sug p d a h = elim (Bool-cases (alertable cfg instance_id now sug)) [
      | inr low ↦ rw (low, visit_active) h
      | inl high ↦ elim (Option-cases (find_by entry_key str_dec (issue_text sug) states)) [
        | inl unknown ↦
            rw (high, unknown, visit_active)
              (announce-Writes (item cfg event_opened sug no_severity)
                (Write.upsert (kept_state cfg instance_id now sug now)) p d h)
        | inr (e, known) ↦ elim a [
          | inl unknown ↦ absurd (cc (unknown, known))
          | inr all ↦ rw (high, known, visit_active) (visit_known-Writes e.1 sug p d all h)
        ]
      ]
    ]

    module _ (active_by_key : List ActiveEntry) (resolved_keys : List String)
        (resolved_list : List Models.Suggestion) where
      visit_gone-Writes :
          (key : String) (st : NotificationState) (p : Plan)
          → ((c : Option ℕ) → A (Write.upsert (record st { cleared_at = c })))
          → A (Write.forget st)
          → D (Write.forget st)
          → Writes p
          → Writes
              (visit_gone cfg instance_id now active_by_key resolved_keys resolved_list key st p)
      unfolding visit_gone
      visit_gone-Writes key st p u a d h = elim (Option-cases st.cleared_at) [
        | inl fresh ↦ rw (fresh, visit_gone) (silently-Writes _ p (u (some now)) h)
        | inr (c, gone) ↦ elim (Bool-cases (within_grace cfg instance_id now c)) [
          | inl soon ↦ rw (gone, soon, visit_gone) h
          | inr late ↦
              elim (Option-cases
                (farewell cfg instance_id now active_by_key resolved_keys resolved_list key st)) [
                  | inl quiet ↦ rw (gone, late, quiet, visit_gone) (silently-Writes _ p a h)
                  | inr (it, told) ↦ rw (gone, late, told, visit_gone) (announce-Writes it _ p d h)
                ]
        ]
      ]

      -- The visit of a state that is not of an alertable suggestion.
      pub visit_state-Writes :
          (e : StateEntry) (p : Plan)
          → (still_alertable cfg instance_id now active_by_key resolved_keys resolved_list e.0
              ≡ true)
            ⊎ ((c : Option ℕ) → A (Write.upsert (record e.1 { cleared_at = c })))
              × A (Write.forget e.1)
              × D (Write.forget e.1)
          → Writes p
          → Writes (visit_state cfg instance_id now active_by_key resolved_keys resolved_list e p)
      unfolding visit_state
      visit_state-Writes (key, st) p (inl on) h = rw (on, visit_state) h
      visit_state-Writes (key, st) p (inr (u, a, d)) h =
          elim (Bool-cases
            (still_alertable cfg instance_id now active_by_key resolved_keys resolved_list key)) [
              | inl on ↦ rw (on, visit_state) h
              | inr off ↦ rw (off, visit_state) (visit_gone-Writes key st p u a d h)
            ]

-- The loops keep what each of their visits keeps.
module _ (cfg : NotificationsConfig) (instance_id now : ℕ) (P : Plan → Type 0) where
  pub visit_all_active-keeps :
      (states : List StateEntry) (Q : Models.Suggestion → Type 0)
      → ((sug : Models.Suggestion) (p : Plan)
          → Q sug
          → P p
          → P (visit_active cfg instance_id now states sug p))
      → (sugs : List Models.Suggestion) (p : Plan) → All Q sugs
      → P p
      → P (visit_all_active cfg instance_id now states sugs p)
  unfolding visit_all_active
  visit_all_active-keeps states Q step [] p a h = h
  visit_all_active-keeps states Q step (sug ∷ sugs) p a h =
      visit_all_active-keeps states Q step sugs _ a.1 (step sug p a.0 h)

  -- What the visit of one suggestion reaches, and the other visits keep.
  pub visit_all_active-reaches :
      (states : List StateEntry) (B : Plan → Type 0) (sug : Models.Suggestion)
      → ((x : Models.Suggestion) (p : Plan) → B p → B (visit_active cfg instance_id now states x p))
      → ((p : Plan) → B (visit_active cfg instance_id now states sug p))
      → (sugs : List Models.Suggestion) (p : Plan) → (B p ⊎ Memᴰ sug sugs)
      → B (visit_all_active cfg instance_id now states sugs p)
  unfolding visit_all_active
  visit_all_active-reaches states B sug keep hit [] p (inl b) = b
  visit_all_active-reaches states B sug keep hit [] p (inr m) = elim m [ ]
  visit_all_active-reaches states B sug keep hit (x ∷ xs) p (inl b) =
      visit_all_active-reaches states B sug keep hit xs _ (inl (keep x p b))
  visit_all_active-reaches states B sug keep hit (x ∷ xs) p (inr (Memᴰ.head e)) =
      visit_all_active-reaches states B sug keep hit xs _
        (inl (subst (λ y. B (visit_active cfg instance_id now states y p)) e (hit p)))
  visit_all_active-reaches states B sug keep hit (x ∷ xs) p (inr (Memᴰ.tail m)) =
      visit_all_active-reaches states B sug keep hit xs _ (inr m)

  module _ (active_by_key : List ActiveEntry) (resolved_keys : List String)
      (resolved_list : List Models.Suggestion) where
    pub visit_states-keeps :
        (Q : StateEntry → Type 0)
        → ((e : StateEntry) (p : Plan)
            → Q e
            → P p
            → P (visit_state cfg instance_id now active_by_key resolved_keys resolved_list e p))
        → (es : List StateEntry) (p : Plan) → All Q es
        → P p
        → P (visit_states cfg instance_id now active_by_key resolved_keys resolved_list es p)
    unfolding visit_states
    visit_states-keeps Q step [] p a h = h
    visit_states-keeps Q step (e ∷ es) p a h = visit_states-keeps Q step es _ a.1 (step e p a.0 h)
