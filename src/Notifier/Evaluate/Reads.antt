-- ===== src/Notifier/Evaluate/Reads.antt =====
-- internal/notifier/notifier.go, evaluateSuggestions: it reads the tables, or stops at an error.
use Prim.Native.String.{String}
use better_pg_keeper.Common.{ℕ, ◌≡◌, ◌∙◌, inl, inr, List, [], ◌∷◌, Option-cases}
use better_pg_keeper.Models.{active, resolved}
use better_pg_keeper.Storage.Suggestions.{rows_by_status}
use better_pg_keeper.Storage.Notifications.{states_of}
use better_pg_keeper.Notifier.Settings.{Notifier}
use better_pg_keeper.Notifier.Store.{Storage}
use better_pg_keeper.Notifier.Evaluate.{StateEntry, Plan, decide, carry_out, evaluate_suggestions}

module _ {D S : Type 0} (storage : Storage S) (n : Notifier D)
    (order : List StateEntry → List StateEntry) (now sent_at : ℕ) (s : S) where
  -- The decisions of a run that could read the tables.
  abbrev pub plan_of : Plan
  plan_of =
      decide n.cfg n.instance_id now order (rows_by_status n.instance_id active (storage.rows s))
        (rows_by_status n.instance_id resolved (storage.rows s))
        (states_of n.instance_id (storage.states s))

  pub evaluate_cases :
      (P : List String × S → Type 0)
      → ((e : String) (t : S) → storage.states t ≡ storage.states s → P (e ∷ [], t))
      → ((t : S) → storage.states t ≡ storage.states s → P (carry_out storage n sent_at plan_of t))
      → P (evaluate_suggestions storage n order now sent_at s)
  unfolding evaluate_suggestions
  evaluate_cases P stopped went =
      let (got1, rows1, same1) = storage.selected n.instance_id active s in
      let a1 = storage.get_suggestions_by_status n.instance_id active s in
      let (got2, rows2, same2) = storage.selected n.instance_id resolved a1.1 in
      let a2 = storage.get_suggestions_by_status n.instance_id resolved a1.1 in
      let (got3, rows3, same3) = storage.listed n.instance_id a2.1 in
      let a3 = storage.list_notification_states n.instance_id a2.1 in
      elim (Option-cases a1.0.0) [
        | inr (e, failed) ↦ rw (failed, evaluate_suggestions) (stopped e a1.1 same1)
        | inl fine1 ↦ elim (Option-cases a2.0.0) [
          | inr (e, failed) ↦
              rw (fine1, failed, evaluate_suggestions) (stopped e a2.1 (same2 ∙ same1))
          | inl fine2 ↦ elim (Option-cases a3.0.0) [
            | inr (e, failed) ↦
                rw (fine1, fine2, failed, evaluate_suggestions)
                  (stopped e a3.1 (same3 ∙ (same2 ∙ same1)))
            | inl fine3 ↦
                rw (fine1, fine2, fine3, evaluate_suggestions)
                  (rw (got1 fine1, got2 fine2, got3 fine3, rows1, same2, same1)
                    (went a3.1 (same3 ∙ (same2 ∙ same1))))
          ]
        ]
      ]
