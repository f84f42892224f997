-- ===== src/Notifier/Evaluate/Recorded.antt =====
-- internal/notifier/notifier.go, evaluateSuggestions: a run that returns no error has recorded every
-- alertable issue.
use Prim.Native.Char.{nul}
use better_pg_keeper.Common.{
  ℕ, ◌≡◌, inl, inr, true, some, List, [], ◌∷◌, All, All-Memᴰ, All-of_Memᴰ, IsFree, IsOrder, Memᴰ,
  Distinct, entry_key, find_by, str_dec, index_by-IsIndexed, List-cases, empty_of_append,
}
use better_pg_keeper.Models
use better_pg_keeper.Models.{NotificationState, active, resolved}
use better_pg_keeper.Storage.Suggestions.{Key, rows_by_status}
use better_pg_keeper.Storage.Suggestions.Keys.{IsKeyed}
use better_pg_keeper.Storage.Suggestions.Listed.{listed_Memᴰ, listed-All, listed_unique}
use better_pg_keeper.Storage.Notifications.{state_row_key}
use better_pg_keeper.Notifier.Settings.{Notifier}
use better_pg_keeper.Notifier.Deliver.{deliver}
use better_pg_keeper.Notifier.Store.{Storage}
use better_pg_keeper.Notifier.Evaluate.{
  StateEntry, Plan, issue_text, build_active, alertable, apply_writes, alert, carry_out,
  evaluate_suggestions,
}
use better_pg_keeper.Notifier.Evaluate.Applied.{IsSound, HasState, apply_writes-HasState}
use better_pg_keeper.Notifier.Evaluate.Marks.{IsDone}
use better_pg_keeper.Notifier.Evaluate.Steps.{Writes}
use better_pg_keeper.Notifier.Evaluate.Records.{
  IsCurrent, issue_of, entries_known, decide-Sound, decide-Done,
}
use better_pg_keeper.Notifier.Evaluate.Reads.{plan_of, evaluate_cases}
use better_pg_keeper.Notifier.Evaluate.Texts.{state_key-injective}

module _ {D S : Type 0} (storage : Storage S) (n : Notifier D) (k : Key)
    (Good : NotificationState → Type 0) where
  -- Sound writes that are done leave a good state, if nothing failed.
  carry_out-HasState :
      (sent_at : ℕ) (p : Plan) (s : S)
      → Writes (IsSound storage k Good) (IsSound storage k Good) p
      → IsDone storage k Good (HasState storage k Good (storage.states s)) p
      → (carry_out storage n sent_at p s).0 ≡ []
      → HasState storage k Good (storage.states (carry_out storage n sent_at p s).1)
  unfolding carry_out
  carry_out-HasState sent_at p s sound done fine =
      let always = apply_writes-HasState storage k Good p.always s sound.silent in
      let t = (apply_writes storage p.always s).1 in
      let later = apply_writes-HasState storage k Good p.on_delivered t sound.delivered in
      elim (List-cases p.items) [
        | inl nothing ↦
            let fine' = rw (nothing, carry_out) at fine in
            rw (nothing, carry_out)
              (elim done [
                | inl recorded ↦ always (inl recorded)
                | inr (inl m) ↦ always (inr (m, fine'))
                | inr (inr (m, some_items)) ↦ absurd (some_items nothing)
              ])
        | inr (it, its, some_items) ↦
            elim (List-cases (deliver n sent_at (alert storage n (it ∷ its)))) [
              | inr (e, es, failed) ↦ absurd (
                  cc (
                    (empty_of_append (apply_writes storage p.always s).0 (e ∷ es)
                      (rw (some_items, failed, carry_out) at fine)).1))
              | inl accepted ↦
                  let (fine1, fine2) =
                    empty_of_append (apply_writes storage p.always s).0
                      (apply_writes storage p.on_delivered t).0
                      (rw (some_items, accepted, carry_out) at fine) in
                  rw (some_items, accepted, carry_out)
                    (elim done [
                      | inl recorded ↦ later (inl (always (inl recorded)))
                      | inr (inl m) ↦ later (inl (always (inr (m, fine1))))
                      | inr (inr (m, _)) ↦ later (inr (m, fine2))
                    ])
            ]
      ]

-- The map of the active suggestions finds the suggestion.
active_found :
    (rows : List Models.Suggestion) (sug : Models.Suggestion)
    → IsKeyed rows
    → All (λ x. IsFree nul x.rule_id) rows
    → Memᴰ sug rows
    → sug.status ≡ active
    → find_by entry_key str_dec
        (issue_text sug)
        (build_active (rows_by_status sug.instance_id active rows))
      ≡ some (issue_text sug, sug)
unfolding build_active
active_found rows sug v names m act =
    let listed = rows_by_status sug.instance_id active rows in
    let Free : Models.Suggestion → Type 0 = λ x. IsFree nul x.rule_id in
    let listed_free = listed-All Free sug.instance_id active rows names in
    index_by-IsIndexed issue_text sug listed []
      (All-of_Memᴰ (λ x. issue_text x ≡ issue_text sug → x ≡ sug) listed
        λ x mx same.
          let (rules, targets) =
            state_key-injective x.rule_id sug.rule_id x.target_object sug.target_object
              (All-Memᴰ Free listed_free mx) (All-Memᴰ Free names m) same in
          All-Memᴰ
            (λ (y : Models.Suggestion).
              y.rule_id ≡ sug.rule_id → y.target_object ≡ sug.target_object → y ≡ sug)
            (listed_unique active rows sug v m) mx rules targets)
      (listed_Memᴰ active rows sug act m)

module _ {D S : Type 0} (storage : Storage S) (n : Notifier D)
    (order : List StateEntry → List StateEntry) (iteration : IsOrder order) where
  -- A run that returns no error leaves each active issue of the instance that is at or above the minimum
  -- severity recorded, with its current severity and not cleared. Before it, the tables have no two rows of
  -- one issue, and their rule ids hold no NUL character.
  pub evaluate-records :
      (now sent_at : ℕ) (s : S) (sug : Models.Suggestion)
      → IsKeyed (storage.rows s)
      → All (λ x. IsFree nul x.rule_id) (storage.rows s)
      → Distinct state_row_key (storage.states s)
      → All (λ st. IsFree nul st.rule_id) (storage.states s)
      → Memᴰ sug (storage.rows s)
      → sug.status ≡ active
      → sug.instance_id ≡ n.instance_id
      → alertable n.cfg sug.instance_id now sug ≡ true
      → (evaluate_suggestions storage n order now sent_at s).0 ≡ []
      → HasState storage
          (issue_of sug)
          (IsCurrent sug)
          (storage.states (evaluate_suggestions storage n order now sent_at s).1)
  evaluate-records now sent_at s sug v names distinct state_names m act here high =
      let rows = storage.rows s in
      let free = All-Memᴰ (λ (x : Models.Suggestion). IsFree nul x.rule_id) names m in
      let actives = rows_by_status sug.instance_id active rows in
      let unique = listed_unique active rows sug v m in
      let found = active_found rows sug v names m act in
      let known = entries_known storage (storage.states s) sug free distinct state_names in
      evaluate_cases storage n order now sent_at s
        (λ r. r.0 ≡ [] → HasState storage (issue_of sug) (IsCurrent sug) (storage.states r.1))
        (λ e t same fine. absurd (cc))
        (λ t same fine.
          carry_out-HasState storage n (issue_of sug) (IsCurrent sug) sent_at
            (plan_of storage n order now sent_at s) t
            (rw (← here) (
              decide-Sound storage (storage.states s) sug free n.cfg now order iteration actives
                (rows_by_status sug.instance_id resolved rows) high known unique found))
            (rw (same, ← here)
              (decide-Done storage (storage.states s) sug free n.cfg now order iteration actives
                (rows_by_status sug.instance_id resolved rows) high known
                (listed_Memᴰ active rows sug act m)))
            fine)
