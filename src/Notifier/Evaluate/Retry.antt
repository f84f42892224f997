-- ===== src/Notifier/Evaluate/Retry.antt =====
-- internal/notifier/notifier.go, evaluateSuggestions: an alert that no channel accepted is not recorded.
use Prim.Native.Char.{nul}
use Prim.Native.String.{String}
use better_pg_keeper.Common.{
  ℕ, ◌≡◌, ◌≢◌, refl, ap, sym, ◌∙◌, inl, inr, none, List, [], ◌∷◌, All, All-of, All-mono, IsFree,
  IsOrder, entry_key, find_by, find_by_ne, ne_of_find_by, str_dec, index_by-All, All-zip,
  List-cases,
}
use better_pg_keeper.Models
use better_pg_keeper.Models.{NotificationState}
use better_pg_keeper.Storage.Suggestions.{Key, key_dec}
use better_pg_keeper.Storage.Notifications.{state_row_key, states_of}
use better_pg_keeper.Storage.Notifications.Listed.{states_of-All}
use better_pg_keeper.Notifier.Message.{Message}
use better_pg_keeper.Notifier.Settings.{NotificationsConfig, Notifier}
use better_pg_keeper.Notifier.Deliver.{deliver}
use better_pg_keeper.Notifier.Store.{Storage}
use better_pg_keeper.Notifier.Evaluate.{
  StateEntry, Plan, no_plan, state_key, state_text, build_states, build_active, build_resolved,
  decide, visit_active, next_state, apply_writes, alert, carry_out, evaluate_suggestions,
}
use better_pg_keeper.Notifier.Evaluate.Steps.{
  Writes, visit_active-Writes, visit_state-Writes, visit_all_active-keeps, visit_states-keeps,
}
use better_pg_keeper.Notifier.Evaluate.Applied.{state_at, write_key, apply_writes-other}
use better_pg_keeper.Notifier.Evaluate.Reads.{plan_of, evaluate_cases}
use better_pg_keeper.Notifier.Evaluate.Texts.{state_key-injective}

module _ (instance : ℕ) (rule_id target : String) (free : IsFree nul rule_id) where
  abbrev issue : Key
  issue = (instance, rule_id, target)

  -- A state of another issue of the instance, with a rule id that holds no NUL.
  abbrev pub IsOther : NotificationState → Type 0
  IsOther st = (state_row_key st ≢ issue) × IsFree nul st.rule_id × (st.instance_id ≡ instance)

  abbrev IsOtherEntry : StateEntry → Type 0
  IsOtherEntry e = (e.0 ≡ state_text e.1) × IsOther e.1

  entry-ne : (e : StateEntry) → IsOtherEntry e → e.0 ≢ state_key rule_id target
  entry-ne e (text, (other, e_free, here)) same =
      let (rules, targets) =
        state_key-injective e.1.rule_id rule_id e.1.target_object target e_free free
          (sym text ∙ same) in
      other (cc (here, rules, targets))

  entries_other :
      (sts : List NotificationState) → All IsOther sts → All IsOtherEntry (build_states sts)
  unfolding build_states
  entries_other sts a =
      index_by-All state_text IsOtherEntry sts []
        (All-mono IsOther (λ st. IsOtherEntry (state_text st, st)) (λ st h. (refl, h)) sts a) tt

  -- The issue is not in the map.
  issue_unknown :
      (sts : List NotificationState)
      → All IsOther sts
      → find_by entry_key str_dec (state_key rule_id target) (build_states sts) ≡ none
  issue_unknown sts a = find_by_ne entry_key str_dec (state_key rule_id target) (build_states sts) (
      All-mono IsOtherEntry (λ e. e.0 ≢ state_key rule_id target) entry-ne (build_states sts)
        (entries_other sts a))

  abbrev NotSilently : Plan → Type 0
  NotSilently = Writes (λ _. Unit {0}) (λ w. write_key w ≢ issue)

  module _ (cfg : NotificationsConfig) (now : ℕ) (order : List StateEntry → List StateEntry)
      (iteration : IsOrder order) where
    visit_active-NotSilently :
        (sts : List NotificationState)
        → All IsOther sts
        → (sug : Models.Suggestion) (p : Plan) → Unit {0}
        → NotSilently p
        → NotSilently (visit_active cfg instance now (build_states sts) sug p)
    unfolding next_state
    visit_active-NotSilently sts a sug p _ h =
        visit_active-Writes (λ _. Unit {0}) (λ w. write_key w ≢ issue) cfg instance now
          (build_states sts) sug p tt
          (elim (key_dec (instance, sug.rule_id, sug.target_object) issue) [
            | yes same ↦
                inl (
                  rw (ap (λ (x : Key). x.1) same, ap (λ (x : Key). x.2) same) (issue_unknown sts a))
            | no other ↦ inr (λ t. other)
          ])
          h

    -- Nothing is written about an issue without a state before it is announced.
    pub decide-NotSilently :
        (actives resolveds : List Models.Suggestion) (sts : List NotificationState)
        → All IsOther sts
        → NotSilently (decide cfg instance now order actives resolveds sts)
    unfolding decide
    decide-NotSilently actives resolveds sts a =
        visit_states-keeps cfg instance now NotSilently (build_active actives)
          (build_resolved resolveds []) resolveds IsOtherEntry
          (λ e p q h.
            visit_state-Writes (λ _. Unit {0}) (λ w. write_key w ≢ issue) cfg instance now
              (build_active actives) (build_resolved resolveds []) resolveds e p
              (inr ((λ c. q.1.0), q.1.0, tt)) h)
          (order (build_states sts)) _
          (iteration.keeps IsOtherEntry (build_states sts) (entries_other sts a))
          (visit_all_active-keeps cfg instance now NotSilently (build_states sts) (λ _. Unit {0})
            (visit_active-NotSilently sts a) actives no_plan
            (All-of (λ _. Unit {0}) (λ _. tt) actives) (record { delivered = tt; silent = tt }))

listed_others :
    (instance : ℕ) (rule_id target : String) (free : IsFree nul rule_id)
    (rows : List NotificationState)
    → state_at (instance, rule_id, target) rows ≡ none
    → All (λ st. IsFree nul st.rule_id) rows
    → All (IsOther instance rule_id target free) (states_of instance rows)
listed_others instance rule_id target free rows absent names =
    let Other : NotificationState → Type 0 = λ st. state_row_key st ≢ (instance, rule_id, target) in
    All-mono _ (IsOther instance rule_id target free) (λ st h. (h.0.0, h.0.1, h.1))
      (states_of instance rows)
      (states_of-All (λ st. Other st × IsFree nul st.rule_id) instance rows
        (All-zip Other (λ st. IsFree nul st.rule_id) rows
          (ne_of_find_by state_row_key key_dec (instance, rule_id, target) rows absent) names))

module _ {D S : Type 0} (storage : Storage S) (n : Notifier D)
    (order : List StateEntry → List StateEntry) (iteration : IsOrder order) where
  carry_out_undelivered :
      (sent_at : ℕ) (p : Plan) (s : S)
      → ((m : Message D) → deliver n sent_at m ≢ [])
      → (carry_out storage n sent_at p s).1 ≡ (apply_writes storage p.always s).1
  unfolding carry_out
  carry_out_undelivered sent_at p s refused = elim (List-cases p.items) [
    | inl nothing ↦ rw (nothing, carry_out) refl
    | inr (it, its, some_items) ↦
        elim (List-cases (deliver n sent_at (alert storage n (it ∷ its)))) [
          | inl accepted ↦ absurd (refused (alert storage n (it ∷ its)) accepted)
          | inr (e, es, failed) ↦ rw (some_items, failed, carry_out) refl
        ]
  ]

  -- An issue that has no recorded state has none after a run in which every delivery failed, so that the next
  -- run announces it again, whatever else is active or recorded and whichever calls of the storage fail. The
  -- rule ids hold no NUL character.
  pub evaluate-retries :
      (now sent_at : ℕ) (s : S) (rule_id target : String)
      → IsFree nul rule_id
      → All (λ st. IsFree nul st.rule_id) (storage.states s)
      → ((m : Message D) → deliver n sent_at m ≢ [])
      → state_at (n.instance_id, rule_id, target) (storage.states s) ≡ none
      → state_at
          (n.instance_id, rule_id, target)
          (storage.states (evaluate_suggestions storage n order now sent_at s).1)
        ≡ none
  evaluate-retries now sent_at s rule_id target free names refused absent =
      let k : Key = (n.instance_id, rule_id, target) in
      evaluate_cases storage n order now sent_at s (λ r. state_at k (storage.states r.1) ≡ none)
        (λ e t same. rw same absent)
        (λ t same.
          let plan = plan_of storage n order now sent_at s in
          let writes =
            decide-NotSilently n.instance_id rule_id target free n.cfg now order iteration _ _ _
              (listed_others n.instance_id rule_id target free (storage.states s) absent names) in
          rw (carry_out_undelivered sent_at plan t refused)
            (apply_writes-other storage k plan.always t writes.silent ∙ rw same absent))
