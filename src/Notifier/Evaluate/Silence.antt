-- ===== src/Notifier/Evaluate/Silence.antt =====
-- internal/notifier/notifier.go, evaluateSuggestions: the second loop on an issue that has been announced,
-- and both loops together.
use Prim.Native.String.{String}
use better_pg_keeper.Common.{
  ℕ, ◌≡◌, ◌≢◌, refl, ap, sym, ◌∙◌, ◌⊎◌, inl, inr, true, Option, none, some, List, [], All, All-of,
  All-mono, IsOrder, Memᴰ, entry_key, find_by, find_by-key, find_by_All, str_dec, index_by-All,
  index_by-IsIndexed, Bool-cases, Option-cases,
}
use better_pg_keeper.Models
use better_pg_keeper.Models.{NotificationState}
use better_pg_keeper.Notifier.Message.{Item}
use better_pg_keeper.Notifier.Settings.{NotificationsConfig}
use better_pg_keeper.Notifier.Deliver.{item}
use better_pg_keeper.Notifier.Evaluate.{
  StateEntry, ActiveEntry, flag, state_text, issue_text, build_states, build_active, build_resolved,
  Plan, no_plan, within_grace, still_alertable, farewell, visit_gone, visit_state, decide,
}
use better_pg_keeper.Notifier.Evaluate.Steps.{visit_all_active-keeps, visit_states-keeps}
use better_pg_keeper.Notifier.Evaluate.Quiet.{
  item_text, IsQuiet, CalmIfSame, announce-IsQuiet, silently-IsQuiet, visit_active-IsQuiet,
}

module _ (cfg : NotificationsConfig) (instance_id now : ℕ)
    (order : List StateEntry → List StateEntry) (iteration : IsOrder order) (st : NotificationState)
    (actives resolveds : List Models.Suggestion) where
  abbrev by_key : List ActiveEntry
  by_key = build_active actives

  abbrev resolved_keys : List String
  resolved_keys = build_resolved resolveds []

  -- The issue is still alertable, or is only seen to be gone now, or is within its grace period.
  abbrev pub IsPending : Type 0
  IsPending =
      (still_alertable cfg instance_id now by_key resolved_keys resolveds (state_text st) ≡ true)
      ⊎ (st.cleared_at ≡ none)
      ⊎ ((c : ℕ) × (st.cleared_at ≡ some c) × (within_grace cfg instance_id now c ≡ true))

  abbrev Quiet : Plan → Type 0
  Quiet = IsQuiet cfg instance_id now order iteration st

  active_texts : All (λ e. e.0 ≡ issue_text e.1) by_key
  unfolding build_active
  active_texts =
      index_by-All issue_text (λ e. e.0 ≡ issue_text e.1) actives []
        (All-of (λ x. issue_text x ≡ issue_text x) (λ x. refl) actives) tt

  -- What is said of an issue that is gone is about that issue.
  farewell-text :
      (st' : NotificationState) (it : Item)
      → farewell cfg instance_id now by_key resolved_keys resolveds (state_text st') st' ≡ some it
      → item_text it ≡ state_text st'
  unfolding farewell item
  farewell-text st' it said = elim (Bool-cases cfg.notify_resolved) [
    | inr off ↦ absurd (cc (rw (off, farewell) at said))
    | inl on ↦ elim (Option-cases (find_by entry_key str_dec (state_text st') by_key)) [
      | inr (e, here) ↦
          let it_is = rw (on, here, farewell) at said in
          let text =
            find_by_All entry_key str_dec (λ e. e.0 ≡ issue_text e.1) (state_text st') by_key
              active_texts here in
          let key = find_by-key entry_key str_dec (state_text st') by_key here in
          cc (it_is, text, key)
      | inl absent ↦ elim (Option-cases (find_by flag str_dec (state_text st') resolved_keys)) [
        | inl missing ↦ absurd (cc (rw (on, absent, missing, farewell) at said))
        | inr (f, here) ↦
            let it_is = rw (on, absent, here, farewell) at said in
            sym (ap (λ (o : Option Item). elim o [ none ↦ "" | some x ↦ item_text x ]) it_is)
      ]
    ]
  ]

  -- What is said of another issue that is gone is about that one.

  visit_gone_other :
      (st' : NotificationState) (p : Plan)
      → state_text st' ≢ state_text st
      → Quiet p
      → Quiet (visit_gone cfg instance_id now by_key resolved_keys resolveds (state_text st') st' p)
  unfolding visit_gone
  visit_gone_other st' p other h = elim (Option-cases st'.cleared_at) [
    | inl fresh ↦
        rw (fresh, visit_gone) (silently-IsQuiet cfg instance_id now order iteration st _ p h)
    | inr (c, gone) ↦ elim (Bool-cases (within_grace cfg instance_id now c)) [
      | inl soon ↦ rw (gone, soon, visit_gone) h
      | inr late ↦
          elim (Option-cases
            (farewell cfg instance_id now by_key resolved_keys resolveds (state_text st') st')) [
              | inl quiet ↦
                  rw (gone, late, quiet, visit_gone)
                    (silently-IsQuiet cfg instance_id now order iteration st _ p h)
              | inr (it, said) ↦
                  rw (gone, late, said, visit_gone)
                    (announce-IsQuiet cfg instance_id now order iteration st it _ p
                      (λ same. other (sym (farewell-text st' it said) ∙ same)) h)
            ]
    ]
  ]

  visit_gone_pending :
      (p : Plan)
      → (st.cleared_at ≡ none)
        ⊎ ((c : ℕ) × (st.cleared_at ≡ some c) × (within_grace cfg instance_id now c ≡ true))
      → Quiet p
      → Quiet (visit_gone cfg instance_id now by_key resolved_keys resolveds (state_text st) st p)
  unfolding visit_gone
  visit_gone_pending p (inl fresh) h =
      rw (fresh, visit_gone) (silently-IsQuiet cfg instance_id now order iteration st _ p h)
  visit_gone_pending p (inr (c, gone, soon)) h = rw (gone, soon, visit_gone) h

  abbrev IsOwnEntry : StateEntry → Type 0
  IsOwnEntry e = (e.0 ≡ state_text e.1) × (state_text e.1 ≡ state_text st → e.1 ≡ st)

  visit_state-IsQuiet :
      IsPending
      → (e : StateEntry) (p : Plan) → IsOwnEntry e
      → Quiet p
      → Quiet (visit_state cfg instance_id now by_key resolved_keys resolveds e p)
  unfolding visit_state
  visit_state-IsQuiet pending (key, st') p (text, own) h =
      elim (Bool-cases (still_alertable cfg instance_id now by_key resolved_keys resolveds key)) [
        | inl on ↦ rw (on, visit_state) h
        | inr off ↦ elim (str_dec (state_text st') (state_text st)) [
          | no other ↦ rw (off, visit_state) (rw text (visit_gone_other st' p other h))
          | yes same ↦
              let here : key ≡ state_text st = text ∙ same in
              elim pending [
                | inl on ↦ absurd (cc (on, off, here))
                | inr gone ↦
                    rw (off, visit_state) (rw (here, own same) (visit_gone_pending p gone h))
              ]
        ]
      ]

  -- An issue that has been announced is not in the next message if each of its active suggestions that is
  -- alertable has no higher severity than recorded, and was gone or has no reminder due; and if it is still
  -- alertable, or is only now seen to be gone, or is within its grace period. No other listed state has the
  -- issue's key.
  pub decide-silent :
      (states : List NotificationState)
      → Memᴰ st states
      → All (λ y. state_text y ≡ state_text st → y ≡ st) states
      → All (CalmIfSame cfg instance_id now order iteration st) actives
      → IsPending
      → All
          (λ it. item_text it ≢ state_text st)
          (decide cfg instance_id now order actives resolveds states).items
  unfolding decide build_states
  decide-silent states m unique calm pending =
      let map = build_states states in
      let found = index_by-IsIndexed state_text st states [] unique m in
      let own =
        index_by-All state_text IsOwnEntry states []
          (All-mono (λ y. state_text y ≡ state_text st → y ≡ st) (λ y. IsOwnEntry (state_text y, y))
            (λ y u. (refl, u)) states unique)
          tt in
      visit_states-keeps cfg instance_id now Quiet by_key resolved_keys resolveds IsOwnEntry
        (visit_state-IsQuiet pending) (order map) _ (iteration.keeps IsOwnEntry map own)
        (visit_all_active-keeps cfg instance_id now Quiet map
          (CalmIfSame cfg instance_id now order iteration st)
          (visit_active-IsQuiet cfg instance_id now order iteration st map found) actives no_plan
          calm tt)
