-- ===== src/Notifier/Collection/Log.antt =====
-- internal/notifier/notifier.go, checkCollection: the order of what it delivers.
use Prim.Native.String.{String}
use better_pg_keeper.Common.{
  if_cases, ℕ, ◌+◌, ◌-◌, ◌≤◌, ◌<◌, ◌≡◌, refl, inl, inr, true, false, some, List, [], ◌∷◌, arith,
  leb, Bool-cases, Option-cases, List-cases,
}
use better_pg_keeper.Notifier.Settings.{Notifier}
use better_pg_keeper.Notifier.Deliver.{deliver}
use better_pg_keeper.Notifier.Collection.{
  Poll, Notice, failing, recovered, Checked, already_told, report_failing, report_recovery, since,
  is_down, check_status, check_collection, log_of, collection_run, failing_message,
  recovered_message, nothing_done,
}

-- In a log, the last notice first: a recovery follows a failure, and a failure that follows a failure comes
-- no sooner than `wait` after it, and only if `wait` is not zero.
abbrev pub IsSpaced : ℕ → List Notice → Type 0
IsSpaced wait [] = Unit
IsSpaced wait (failing t ∷ []) = Unit
IsSpaced wait (recovered t ∷ []) = ⊥
IsSpaced wait (failing t ∷ failing u ∷ log) =
    (0 < wait) × (u + wait ≤ t) × IsSpaced wait (failing u ∷ log)
IsSpaced wait (failing t ∷ recovered u ∷ log) = IsSpaced wait (recovered u ∷ log)
IsSpaced wait (recovered t ∷ failing u ∷ log) = IsSpaced wait (failing u ∷ log)
IsSpaced wait (recovered t ∷ recovered u ∷ log) = ⊥

module _ {D : Type 0} where
  -- The memory of the notifier agrees with its last notice.
  abbrev pub Agrees : Notifier D → List Notice → Type 0
  Agrees n [] = n.collection_alerted ≡ false
  Agrees n (failing t ∷ log) = (n.collection_alerted ≡ true) × (n.collection_alerted_at ≡ t)
  Agrees n (recovered t ∷ log) = n.collection_alerted ≡ false

  abbrev pub IsLogged : ℕ → List Notice × Notifier D → Type 0
  IsLogged wait r = IsSpaced wait r.0 × Agrees r.1 r.0 × (r.1.cfg.renotify_after ≡ wait)

module _ {D : Type 0} (outage_detail : ℕ → String → String) (wait : ℕ) where
  -- A failure may follow the log, if it was not told already.
  failing_follows :
      (n : Notifier D) (t : ℕ) (log : List Notice)
      → already_told n t ≡ false
      → IsLogged wait (log, n)
      → IsSpaced wait (failing t ∷ log)
  unfolding already_told
  failing_follows n t [] fresh h = tt
  failing_follows n t (failing u ∷ log) fresh (spaced, (told, at), same) =
      (ground (arith, fresh, told, at, same), ground (arith, fresh, told, at, same), spaced)
  failing_follows n t (recovered u ∷ log) fresh (spaced, _, _) = spaced

  recovered_follows :
      (n : Notifier D) (t : ℕ) (log : List Notice)
      → n.collection_alerted ≡ true
      → IsLogged wait (log, n)
      → IsSpaced wait (recovered t ∷ log)
  recovered_follows n t [] told (_, quiet, _) = absurd (cc (told, quiet))
  recovered_follows n t (failing u ∷ log) told (spaced, _, _) = spaced
  recovered_follows n t (recovered u ∷ log) told (_, quiet, _) = absurd (cc (told, quiet))

  report_failing-IsLogged :
      (n : Notifier D) (poll : Poll) (down : ℕ) (e : String) (log : List Notice)
      → already_told n poll.now ≡ false
      → IsLogged wait (log, n)
      → IsLogged wait (
        log_of (report_failing outage_detail n poll down e).delivered log,
        (report_failing outage_detail n poll down e).after,
      )
  unfolding report_failing
  report_failing-IsLogged n poll down e log fresh h =
      elim (List-cases (deliver n poll.sent_at (failing_message outage_detail n down e))) [
        | inl sent ↦
            rw (sent, report_failing) (failing_follows n poll.now log fresh h, (refl, refl), h.2)
        | inr (x, xs, failed) ↦ rw (failed, report_failing) h
      ]

  report_recovery-IsLogged :
      (n : Notifier D) (poll : Poll) (log : List Notice)
      → n.collection_alerted ≡ true
      → IsLogged wait (log, n)
      → IsLogged wait
          (log_of (report_recovery n poll).delivered log, (report_recovery n poll).after)
  unfolding report_recovery
  report_recovery-IsLogged n poll log told h =
      elim (List-cases (deliver n poll.sent_at (recovered_message n))) [
        | inl sent ↦ rw (sent, report_recovery) (recovered_follows n poll.now log told h, refl, h.2)
        | inr (x, xs, failed) ↦ rw (failed, report_recovery) h
      ]

  check_status-IsLogged :
      (n : Notifier D) (poll : Poll) (last : ℕ) (e : String) (log : List Notice)
      → IsLogged wait (log, n)
      → IsLogged wait (
        log_of (check_status outage_detail n poll last e).delivered log,
        (check_status outage_detail n poll last e).after,
      )
  unfolding check_status
  check_status-IsLogged n poll last e log h = elim (Bool-cases (is_down n poll last)) [
    | inl down ↦ elim (Bool-cases (already_told n poll.now)) [
      | inl told ↦ rw (down, told, check_status) h
      | inr fresh ↦
          rw (down, fresh, check_status)
            (report_failing-IsLogged n poll (poll.now - since n last) e log fresh h)
    ]
    | inr up ↦
        rw (up, check_status)
          (if_cases (λ (r : Checked D). IsLogged wait (log_of r.delivered log, r.after))
            n.collection_alerted (report_recovery n poll) (nothing_done n)
            (λ told. report_recovery-IsLogged n poll log told h) (λ _. h))
  ]

  check_collection-IsLogged :
      (n : Notifier D) (poll : Poll) (log : List Notice)
      → IsLogged wait (log, n)
      → IsLogged wait (
        log_of (check_collection outage_detail n poll).delivered log,
        (check_collection outage_detail n poll).after,
      )
  unfolding check_collection
  check_collection-IsLogged n poll log h = elim (Option-cases poll.status) [
    | inl absent ↦ rw (absent, check_collection) h
    | inr (s, present) ↦ elim (Bool-cases (leb n.cfg.collection_stale_after 0)) [
      | inl off ↦ rw (present, off, check_collection) h
      | inr on ↦ rw (present, on, check_collection) (check_status-IsLogged n poll s.0 s.1 log h)
    ]
  ]

module _ {D : Type 0} (outage_detail : ℕ → String → String) where
  collection_run-IsLogged :
      (polls : List Poll) (n : Notifier D)
      → n.collection_alerted ≡ false
      → IsLogged n.cfg.renotify_after (collection_run outage_detail polls n)
  unfolding collection_run
  collection_run-IsLogged [] n quiet = (tt, quiet, refl)
  collection_run-IsLogged (p ∷ ps) n quiet =
      let (log, n') = collection_run outage_detail ps n in
      check_collection-IsLogged outage_detail n.cfg.renotify_after n' p log
        (collection_run-IsLogged ps n quiet)

  -- Whatever the polls report and whichever deliveries fail: a recovery is announced only after an alert that
  -- was delivered and not yet followed by a recovery; and a repeated alert comes only if repeating is on, and no
  -- sooner than the configured wait after the one before it. The notifier starts without an alert.
  pub collection_run-IsSpaced :
      (polls : List Poll) (n : Notifier D)
      → n.collection_alerted ≡ false
      → IsSpaced n.cfg.renotify_after (collection_run outage_detail polls n).0
  collection_run-IsSpaced polls n quiet = (collection_run-IsLogged polls n quiet).0

  -- A poll that returns no error leaves the alert on exactly if collection is down at it: no success since the
  -- last one, or since the start, for the configured time, which is not zero.
  pub check_collection-tells :
      (n : Notifier D) (poll : Poll) (last : ℕ) (e : String)
      → poll.status ≡ some (last, e)
      → 0 < n.cfg.collection_stale_after
      → (check_collection outage_detail n poll).errors ≡ []
      → (check_collection outage_detail n poll).after.collection_alerted ≡ is_down n poll last
  unfolding check_collection check_status report_failing report_recovery already_told
  check_collection-tells n poll last e present on fine = ground (arith, present, on, fine)
