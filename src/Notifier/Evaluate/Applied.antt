-- ===== src/Notifier/Evaluate/Applied.antt =====
-- internal/notifier/notifier.go, evaluateSuggestions: what the states read after the writes of a plan.
use better_pg_keeper.Common.{
  ◌≡◌, ◌≢◌, refl, ◌∙◌, ◌⊎◌, inl, inr, if_pos, if_neg, Option, none, some, List, [], ◌∷◌, All, Any,
  find_by, find_by-assign, find_by-erase_by, Option-cases,
}
use better_pg_keeper.Models.{NotificationState}
use better_pg_keeper.Storage.Suggestions.{Key, key_dec}
use better_pg_keeper.Storage.Notifications.{state_row_key, upsert_states, delete_states}
use better_pg_keeper.Notifier.Store.{Storage}
use better_pg_keeper.Notifier.Evaluate.{Write, apply_write, apply_writes}

-- The state of an issue in the table.
abbrev pub state_at : Key → List NotificationState → Option NotificationState
state_at k = find_by state_row_key key_dec k

abbrev pub write_key : Write → Key
write_key (Write.upsert st) = state_row_key st
write_key (Write.forget st) = state_row_key st

module _ {S : Type 0} (storage : Storage S) (k : Key) where
  apply_write-other :
      (w : Write) (s : S)
      → write_key w ≢ k
      → state_at k (storage.states (apply_write storage w s).1) ≡ state_at k (storage.states s)
  unfolding apply_write upsert_states delete_states
  apply_write-other (Write.upsert st) s other = elim (storage.upserted st s) [
    | inl done ↦ rw done (
        rw
          (
            find_by-assign state_row_key key_dec k st (storage.states s),
            if_neg (key_dec (state_row_key st) k) other,
          )
          refl)
    | inr (_, same) ↦ rw same refl
  ]
  apply_write-other (Write.forget st) s other = elim (storage.deleted (state_row_key st) s) [
    | inl done ↦ rw done (
        rw
          (
            find_by-erase_by state_row_key key_dec (state_row_key st) k (storage.states s),
            if_neg (key_dec (state_row_key st) k) other,
          )
          refl)
    | inr (_, same) ↦ rw same refl
  ]

  -- Writes of other issues leave the state of this one.
  pub apply_writes-other :
      (ws : List Write) (s : S)
      → All (λ w. write_key w ≢ k) ws
      → state_at k (storage.states (apply_writes storage ws s).1) ≡ state_at k (storage.states s)
  unfolding apply_writes
  apply_writes-other [] s a = refl
  apply_writes-other (w ∷ ws) s a =
      apply_writes-other ws (apply_write storage w s).1 a.1 ∙ apply_write-other w s a.0

  module _ (Good : NotificationState → Type 0) where
    -- The issue has a state that is good.
    pub record HasState (rows : List NotificationState) : Type 0 where
      pub state : NotificationState
      pub found : state_at k rows ≡ some state
      pub good : Good state

    -- A write of another issue, or of a good state.
    abbrev pub IsSound : Write → Type 0
    IsSound (Write.upsert st) = (state_row_key st ≢ k) ⊎ Good st
    IsSound (Write.forget st) = state_row_key st ≢ k

    -- The write of a good state of this issue.
    abbrev pub IsMark : Write → Type 0
    IsMark (Write.upsert st) = (state_row_key st ≡ k) × Good st
    IsMark (Write.forget st) = ⊥

    upserted-HasState :
        (st : NotificationState) (rows : List NotificationState)
        → state_row_key st ≡ k
        → Good st
        → HasState (upsert_states st rows)
    unfolding upsert_states
    upserted-HasState st rows same good = record {
      state = st;
      found =
          rw
            (
              find_by-assign state_row_key key_dec k st rows,
              if_pos (key_dec (state_row_key st) k) same,
            )
            refl;
      good = good;
    }

    apply_write-HasState :
        (w : Write) (s : S)
        → IsSound w
        → HasState (storage.states s)
        → HasState (storage.states (apply_write storage w s).1)
    unfolding apply_write
    apply_write-HasState (Write.upsert st) s sound h = elim (key_dec (state_row_key st) k) [
      | no other ↦ record {
        state = h.state;
        found = apply_write-other (Write.upsert st) s other ∙ h.found;
        good = h.good;
      }
      | yes same ↦ elim sound [
        | inl other ↦ absurd (other same)
        | inr good ↦ elim (storage.upserted st s) [
          | inl done ↦ rw done (upserted-HasState st (storage.states s) same good)
          | inr (_, kept) ↦ rw kept h
        ]
      ]
    ]
    apply_write-HasState (Write.forget st) s sound h = record {
      state = h.state;
      found = apply_write-other (Write.forget st) s sound ∙ h.found;
      good = h.good;
    }

    apply_write-marks :
        (w : Write) (s : S)
        → IsMark w
        → (apply_write storage w s).0 ≡ none
        → HasState (storage.states (apply_write storage w s).1)
    unfolding apply_write
    apply_write-marks (Write.upsert st) s (same, good) fine = elim (storage.upserted st s) [
      | inl done ↦ rw done (upserted-HasState st (storage.states s) same good)
      | inr (failed, _) ↦ absurd (failed fine)
    ]
    apply_write-marks (Write.forget st) s m fine = absurd m

    -- Sound writes keep a good state, and make one if one of them does and none fails.
    pub apply_writes-HasState :
        (ws : List Write) (s : S)
        → All IsSound ws
        → HasState (storage.states s) ⊎ Any IsMark ws × ((apply_writes storage ws s).0 ≡ [])
        → HasState (storage.states (apply_writes storage ws s).1)
    unfolding apply_writes
    apply_writes-HasState [] s a (inl h) = h
    apply_writes-HasState [] s a (inr (m, e)) = absurd m
    apply_writes-HasState (w ∷ ws) s a (inl h) =
        apply_writes-HasState ws _ a.1 (inl (apply_write-HasState w s a.0 h))
    apply_writes-HasState (w ∷ ws) s a (inr (m, e)) =
        elim (Option-cases (apply_write storage w s).0) [
          | inr (x, failed) ↦ absurd (cc (e, failed))
          | inl fine ↦ elim m [
            | inl here ↦ apply_writes-HasState ws _ a.1 (inl (apply_write-marks w s here fine))
            | inr later ↦ apply_writes-HasState ws _ a.1 (inr (later, rw (fine, apply_writes) at e))
          ]
        ]
