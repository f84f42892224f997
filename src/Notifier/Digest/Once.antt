-- ===== src/Notifier/Digest/Once.antt =====
-- internal/notifier/digest.go, maybeSendDigest: one digest for each slot.
use Prim.Native.String.{String}
use better_pg_keeper.Common.{
  ℕ, ◌≤◌, ◌≡◌, refl, sym, ◌∙◌, inl, inr, if_pos, true, false, Option, none, some, List, [], arith,
  ltb, find_by, find_by-assign, Bool-cases, Option-cases, Sum-cases, List-cases,
}
use better_pg_keeper.Models
use better_pg_keeper.Storage.Notifications.{
  TimeKey, TimeRow, time_row_key, time_key_dec, time_at, set_time_at,
}
use better_pg_keeper.Notifier.Settings.{Notifier}
use better_pg_keeper.Notifier.Deliver.{deliver}
use better_pg_keeper.Notifier.Store.{Storage}
use better_pg_keeper.Notifier.Schedule.{last_digest_slot, previous_slot}
use better_pg_keeper.Notifier.Digest.{
  Digest, build_digest, time_key, set_slot, send_digest, maybe_send_digest,
}

time_at-set_time_at :
    (k : TimeKey) (t : ℕ) (rows : List TimeRow) → time_at k (set_time_at k t rows) ≡ some t
unfolding time_at set_time_at
time_at-set_time_at k t rows =
    let law =
      find_by-assign time_row_key time_key_dec k (k.0, k.1, t) rows
      ∙ if_pos (time_key_dec k k) refl (some (k.0, k.1, t))
          (find_by time_row_key time_key_dec k rows) in
    rw (law, time_at) refl

module _ {Q S : Type 0} (storage : Storage S) (top_queries : ℕ → ℕ → S → List Q × S)
    (outcome : ℕ → Models.Suggestion → String) (format_date : ℕ → String)
    (normalize : String → String) (n : Notifier (Digest Q)) where
  abbrev key : TimeKey
  key = time_key storage top_queries outcome format_date normalize n

  -- The stored slot is `slot` or a later one.
  abbrev pub IsRecorded : ℕ → S → Type 0
  IsRecorded slot s = (t : ℕ) × (time_at key (storage.times s) ≡ some t) × (slot ≤ t)

  set_slot-IsRecorded :
      (slot : ℕ) (s : S)
      → (set_slot storage top_queries outcome format_date normalize n slot s).0 ≡ []
      → IsRecorded slot (set_slot storage top_queries outcome format_date normalize n slot s).1
  unfolding set_slot
  set_slot-IsRecorded slot s fine = elim (Option-cases (storage.set_notifier_time key slot s).0) [
    | inr (e, failed) ↦ absurd (cc (rw (failed, set_slot) at fine))
    | inl ok ↦ elim (storage.time_set key slot s) [
      | inl done ↦ (slot, rw done (time_at-set_time_at key slot (storage.times s)), omega arith)
      | inr (failed, _) ↦ absurd (failed ok)
    ]
  ]

  send_digest-IsRecorded :
      (last_collection : Option ℕ) (now sent_at slot : ℕ) (s : S)
      → (send_digest storage top_queries outcome format_date normalize n last_collection now sent_at
          slot s).0
        ≡ []
      → IsRecorded slot
          (send_digest storage top_queries outcome format_date normalize n last_collection now
            sent_at slot s).2
  unfolding send_digest
  send_digest-IsRecorded last_collection now sent_at slot s fine =
      let built =
        build_digest storage top_queries outcome format_date normalize n last_collection
          (previous_slot n.cfg.digest slot) now s in
      elim (Sum-cases built.0) [
        | inl (e, failed) ↦ absurd (cc (rw (failed, send_digest) at fine))
        | inr (msg, ok) ↦ elim (List-cases (deliver n sent_at msg)) [
          | inr (e, es, failed) ↦ absurd (cc (rw (ok, failed, send_digest) at fine))
          | inl sent ↦
              rw (ok, sent, send_digest)
                (set_slot-IsRecorded slot built.1 (rw (ok, sent, send_digest) at fine))
        ]
      ]

  maybe_send_digest-IsRecorded :
      (last_collection : Option ℕ) (now sent_at slot : ℕ) (s : S)
      → n.cfg.digest.enabled ≡ true
      → last_digest_slot normalize n.cfg.digest now ≡ inr slot
      → (maybe_send_digest storage top_queries outcome format_date normalize n last_collection now
          sent_at s).0
        ≡ []
      → IsRecorded slot
          (maybe_send_digest storage top_queries outcome format_date normalize n last_collection now
            sent_at s).2
  unfolding maybe_send_digest
  maybe_send_digest-IsRecorded last_collection now sent_at slot s on due fine =
      let (got, same) = storage.got_time key s in
      let answer = storage.get_notifier_time key s in
      elim (Sum-cases answer.0) [
        | inl (e, failed) ↦ absurd (cc (rw (on, due, failed, maybe_send_digest) at fine))
        | inr (v, ok) ↦ elim (Option-cases v) [
          | inl never ↦
              let read : answer.0 ≡ inr none = cc (ok, never) in
              rw (on, due, read, maybe_send_digest)
                (set_slot-IsRecorded slot answer.1 (rw (on, due, read, maybe_send_digest) at fine))
          | inr (last, before) ↦
              let read : answer.0 ≡ inr (some last) = cc (ok, before) in
              elim (Bool-cases (ltb last slot)) [
                | inl new ↦
                    rw (on, due, read, new, maybe_send_digest)
                      (send_digest-IsRecorded last_collection now sent_at slot answer.1
                        (rw (on, due, read, new, maybe_send_digest) at fine))
                | inr old ↦
                    rw (on, due, read, old, maybe_send_digest)
                      (last, rw same (sym (got (some last) read)), ground (arith, old))
              ]
        ]
      ]

  -- After a run with digests enabled that returns no error, the next run sends no digest if its slot is not
  -- later, whatever the storage answers then.
  pub maybe_send_digest-once :
      (last_collection last_collection' : Option ℕ) (now sent_at now' sent_at' slot slot' : ℕ)
      (s : S)
      → n.cfg.digest.enabled ≡ true
      → last_digest_slot normalize n.cfg.digest now ≡ inr slot
      → last_digest_slot normalize n.cfg.digest now' ≡ inr slot'
      → slot' ≤ slot
      → (maybe_send_digest storage top_queries outcome format_date normalize n last_collection now
          sent_at s).0
        ≡ []
      → (maybe_send_digest storage top_queries outcome format_date normalize n last_collection' now'
          sent_at'
          (maybe_send_digest storage top_queries outcome format_date normalize n last_collection now
            sent_at s).2).1
        ≡ false
  unfolding maybe_send_digest
  maybe_send_digest-once last_collection last_collection' now sent_at now' sent_at' slot slot' s on
        due due' early fine =
      let t =
        (maybe_send_digest storage top_queries outcome format_date normalize n last_collection now
          sent_at s).2 in
      let (last, recorded, late) =
        maybe_send_digest-IsRecorded last_collection now sent_at slot s on due fine in
      let (got, same) = storage.got_time key t in
      let answer = storage.get_notifier_time key t in
      elim (Sum-cases answer.0) [
        | inl (e, failed) ↦ rw (on, due', failed, maybe_send_digest) refl
        | inr (v, ok) ↦
            let read : answer.0 ≡ inr (some last) = cc (ok, got v ok, recorded) in
            let old : ltb last slot' ≡ false = ground (arith, early, late) in
            rw (on, due', read, old, maybe_send_digest) refl
      ]
