-- ===== src/Notifier/Evaluate/Records.antt =====
-- internal/notifier/notifier.go, evaluateSuggestions: a run without an error has recorded every alertable
-- issue.
use Prim.Native.Char.{nul}
use better_pg_keeper.Common.{
  ℕ, ◌≡◌, refl, ap, sym, ◌∙◌, inl, inr, true, none, some, List, [], All, All-of, All-mono, All-zip,
  IsFree, IsOrder, Memᴰ, Distinct, entry_key, find_by, find_by-key, find_by_All, find_by_self,
  str_dec, index_by-All,
}
use better_pg_keeper.Models
use better_pg_keeper.Models.{NotificationState, active, resolved}
use better_pg_keeper.Storage.Suggestions.{Key, key_dec}
use better_pg_keeper.Storage.Notifications.{state_row_key, states_of}
use better_pg_keeper.Storage.Notifications.Listed.{states_of-All}
use better_pg_keeper.Notifier.Settings.{NotificationsConfig}
use better_pg_keeper.Notifier.Store.{Storage}
use better_pg_keeper.Notifier.Evaluate.{
  StateEntry, Plan, no_plan, Write, state_text, issue_text, build_states, build_active,
  build_resolved, next_state, alertable, still_alertable, decide, visit_active, visit_state,
}
use better_pg_keeper.Notifier.Evaluate.Steps.{
  Writes, kept_state, visit_active-Writes, visit_state-Writes, visit_all_active-keeps,
  visit_all_active-reaches, visit_states-keeps,
}
use better_pg_keeper.Notifier.Evaluate.Applied.{state_at, IsSound, HasState}
use better_pg_keeper.Notifier.Evaluate.Marks.{
  visit_active_closed, visit_state_closed, IsDone, announce-IsDone, silently-IsDone,
  visit_active-marks,
}
use better_pg_keeper.Notifier.Evaluate.Texts.{state_key-injective}

-- The state of the issue has its current severity and is not cleared.
abbrev pub IsCurrent : Models.Suggestion → NotificationState → Type 0
IsCurrent sug st = (st.severity ≡ sug.severity) × (st.cleared_at ≡ none)

abbrev pub issue_of : Models.Suggestion → Key
issue_of sug = (sug.instance_id, sug.rule_id, sug.target_object)

module _ {S : Type 0} (storage : Storage S) (rows : List NotificationState)
    (sug : Models.Suggestion) (free : IsFree nul sug.rule_id) where
  abbrev IsKnownEntry : StateEntry → Type 0
  IsKnownEntry e =
      (e.0 ≡ state_text e.1)
      × (state_at (state_row_key e.1) rows ≡ some e.1)
      × IsFree nul e.1.rule_id
      × (e.1.instance_id ≡ sug.instance_id)

  pub entries_known :
      Distinct state_row_key rows
      → All (λ st. IsFree nul st.rule_id) rows
      → All IsKnownEntry (build_states (states_of sug.instance_id rows))
  unfolding build_states
  entries_known distinct names =
      let Known : NotificationState → Type 0 =
        λ st. (state_at (state_row_key st) rows ≡ some st) × IsFree nul st.rule_id in
      let listed = states_of sug.instance_id rows in
      index_by-All state_text IsKnownEntry listed []
        (All-mono (λ st. Known st × (st.instance_id ≡ sug.instance_id))
          (λ st. IsKnownEntry (state_text st, st)) (λ st h. (refl, h.0.0, h.0.1, h.1)) listed
          (states_of-All Known sug.instance_id rows (
            All-zip (λ st. state_at (state_row_key st) rows ≡ some st) (λ st. IsFree nul st.rule_id)
              rows (find_by_self state_row_key key_dec rows distinct) names)))
        tt

  abbrev Sound : Plan → Type 0
  Sound =
      Writes (IsSound storage (issue_of sug) (IsCurrent sug))
        (IsSound storage (issue_of sug) (IsCurrent sug))

  abbrev Done : Plan → Type 0
  Done =
      IsDone storage (issue_of sug) (IsCurrent sug)
        (HasState storage (issue_of sug) (IsCurrent sug) rows)

  module _ (cfg : NotificationsConfig) (now : ℕ) (order : List StateEntry → List StateEntry)
      (iteration : IsOrder order) (actives resolveds : List Models.Suggestion)
      (high : alertable cfg sug.instance_id now sug ≡ true) where
    -- Every visit of a suggestion writes a current state of the issue, or is about another one.
    visit_active-Sound :
        (states : List StateEntry) (x : Models.Suggestion) (p : Plan)
        → (x.rule_id ≡ sug.rule_id → x.target_object ≡ sug.target_object → x ≡ sug)
        → Sound p
        → Sound (visit_active cfg sug.instance_id now states x p)
    unfolding next_state
    visit_active-Sound states x p u h =
        let good : (t : ℕ)
            → IsSound storage (issue_of sug) (IsCurrent sug)
                (Write.upsert (kept_state cfg sug.instance_id now x t)) =
          λ t. elim (key_dec (sug.instance_id, x.rule_id, x.target_object) (issue_of sug)) [
            | no other ↦ inl other
            | yes same ↦ inr (
              ap (λ (y : Models.Suggestion). y.severity)
                  (u (ap (λ (y : Key). y.1) same) (ap (λ (y : Key). y.2) same)),
              refl,
            )
          ] in
        visit_active-Writes _ _ cfg sug.instance_id now states x p (good now) (inr good) h

    -- The issue is alertable, so the second loop passes over its state.
    passed_over :
        (e : StateEntry)
        → IsKnownEntry e
        → state_row_key e.1 ≡ issue_of sug
        → find_by entry_key str_dec (issue_text sug) (build_active actives)
          ≡ some (issue_text sug, sug)
        → still_alertable cfg sug.instance_id now
            (build_active actives)
            (build_resolved resolveds [])
            resolveds
            e.0
          ≡ true
    unfolding still_alertable
    passed_over e known same found =
        let here : e.0 ≡ issue_text sug =
          cc (known.0, ap (λ (y : Key). y.1) same, ap (λ (y : Key). y.2) same) in
        rw here (rw (found, still_alertable) high)

    visit_state-Sound :
        find_by entry_key str_dec (issue_text sug) (build_active actives)
          ≡ some (issue_text sug, sug)
        → (e : StateEntry) (p : Plan) → IsKnownEntry e
        → Sound p
        → Sound (
            visit_state cfg sug.instance_id now
              (build_active actives)
              (build_resolved resolveds [])
              resolveds
              e
              p)
    visit_state-Sound found e p known h =
        visit_state-Writes _ _ cfg sug.instance_id now (build_active actives)
          (build_resolved resolveds []) resolveds e p
          (elim (key_dec (state_row_key e.1) (issue_of sug)) [
            | yes same ↦ inl (passed_over e known same found)
            | no other ↦ inr ((λ c. inl other), other, other)
          ])
          h

    recorded_entry :
        (states : List StateEntry)
        → All IsKnownEntry states
        → (e : StateEntry) → find_by entry_key str_dec (issue_text sug) states ≡ some e
        → sug.severity ≡ e.1.severity
        → e.1.cleared_at ≡ none
        → HasState storage (issue_of sug) (IsCurrent sug) rows
    recorded_entry states a e found same fresh =
        let (text, there, e_free, here) =
          find_by_All entry_key str_dec IsKnownEntry (issue_text sug) states a found in
        let key = find_by-key entry_key str_dec (issue_text sug) states found in
        let (rules, targets) =
          state_key-injective e.1.rule_id sug.rule_id e.1.target_object sug.target_object e_free
            free (sym text ∙ key) in
        record { state = e.1; found = cc (there, here, rules, targets); good = (sym same, fresh) }

    pub decide-Sound :
        All IsKnownEntry (build_states (states_of sug.instance_id rows))
        → All (λ x. x.rule_id ≡ sug.rule_id → x.target_object ≡ sug.target_object → x ≡ sug) actives
        → find_by entry_key str_dec (issue_text sug) (build_active actives)
          ≡ some (issue_text sug, sug)
        → Sound (
            decide cfg sug.instance_id now order actives resolveds (states_of sug.instance_id rows))
    unfolding decide
    decide-Sound known unique found =
        let states = build_states (states_of sug.instance_id rows) in
        visit_states-keeps cfg sug.instance_id now Sound (build_active actives)
          (build_resolved resolveds []) resolveds IsKnownEntry (visit_state-Sound found)
          (order states) _ (iteration.keeps IsKnownEntry states known)
          (visit_all_active-keeps cfg sug.instance_id now Sound states
            (λ x. x.rule_id ≡ sug.rule_id → x.target_object ≡ sug.target_object → x ≡ sug)
            (visit_active-Sound states) actives no_plan unique
            (record { delivered = tt; silent = tt }))

    pub decide-Done :
        All IsKnownEntry (build_states (states_of sug.instance_id rows))
        → Memᴰ sug actives
        → Done (
            decide cfg sug.instance_id now order actives resolveds (states_of sug.instance_id rows))
    unfolding decide next_state
    decide-Done known m =
        let states = build_states (states_of sug.instance_id rows) in
        let R = HasState storage (issue_of sug) (IsCurrent sug) rows in
        let told = announce-IsDone storage (issue_of sug) (IsCurrent sug) R in
        let noted = silently-IsDone storage (issue_of sug) (IsCurrent sug) R in
        visit_states-keeps cfg sug.instance_id now Done (build_active actives)
          (build_resolved resolveds []) resolveds (λ _. Unit {0})
          (λ e p _ d.
            visit_state_closed Done told noted cfg sug.instance_id now (build_active actives)
              (build_resolved resolveds []) resolveds e p d)
          (order states) _ (All-of (λ _. Unit {0}) (λ _. tt) (order states))
          (visit_all_active-reaches cfg sug.instance_id now Done states Done sug
            (visit_active_closed Done told noted cfg sug.instance_id now states)
            (λ p.
              visit_active-marks storage (issue_of sug) (IsCurrent sug) R cfg sug.instance_id now
                sug (λ t. (refl, (refl, refl))) states p high (recorded_entry states known))
            actives no_plan (inr m))
