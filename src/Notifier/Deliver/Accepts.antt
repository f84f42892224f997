-- ===== src/Notifier/Deliver/Accepts.antt =====
-- internal/notifier/notifier.go, deliver.
use better_pg_keeper.Common.{
  ℕ, ◌≡◌, ◌<◌, refl, ◌⊎◌, ◌↔◌, inl, inr, none, List, [], ◌∷◌, arith, Any, Option-cases,
}
use better_pg_keeper.Notifier.Message.{Message}
use better_pg_keeper.Notifier.Settings.{Channel, Notifier}
use better_pg_keeper.Notifier.Deliver.{send_all, deliver}

-- The message as the channels get it.
abbrev pub stamped : {D : Type 0} → Notifier D → ℕ → Message D → Message D
stamped n sent_at m = record m { instance = n.instance; sent_at = sent_at }

module _ {D : Type 0} where
  abbrev pub Accepts : Message D → Channel D → Type 0
  Accepts m ch = ch.send m ≡ none

  send_all-count :
      (chs : List (Channel D)) (m : Message D)
      → (Any (Accepts m) chs × (0 < (send_all chs m).1))
        ⊎ (¬ Any (Accepts m) chs) × ((send_all chs m).1 ≡ 0) × ((send_all chs m).0 ≡ [] → chs ≡ [])
  unfolding send_all
  send_all-count [] m = inr ((λ a. a), refl, (λ _. refl))
  send_all-count (ch ∷ chs) m = elim (Option-cases (ch.send m)) [
    | inl ok ↦ inl (inl ok, rw (ok, send_all) (omega arith))
    | inr (e, failed) ↦ elim (send_all-count chs m) [
      | inl (some_ok, count) ↦ inl (inr some_ok, rw (failed, send_all) count)
      | inr (none_ok, count, _) ↦ inr (
        (λ a. elim a [ inl ok ↦ absurd (cc (ok, failed)) | inr later ↦ none_ok later ]),
        rw (failed, send_all) count,
        (λ h. absurd (cc (rw (failed, send_all) at h))),
      )
    ]
  ]

  no_channels : (chs : List (Channel D)) (m : Message D) → chs ≡ [] → (send_all chs m).0 ≡ []
  unfolding send_all
  no_channels chs m e = rw e refl

  -- A delivery succeeds if and only if some channel accepts the message, stamped with the instance and the
  -- time, or there are no channels at all.
  pub deliver-Accepts :
      (n : Notifier D) (sent_at : ℕ) (m : Message D)
      → (deliver n sent_at m ≡ [])
        ↔ (Any (Accepts (stamped n sent_at m)) n.channels ⊎ (n.channels ≡ []))
  unfolding deliver
  deliver-Accepts n sent_at m = elim (send_all-count n.channels (stamped n sent_at m)) [
    | inl (some_ok, count) ↦ ((λ _. inl some_ok), (λ _. ground (arith, count)))
    | inr (none_ok, count, empty) ↦ (
      (λ h. inr (empty (rw (count, deliver) at h))),
      (λ h. elim h [
        | inl a ↦ absurd (none_ok a)
        | inr e ↦ ground (arith, no_channels n.channels (stamped n sent_at m) e)
      ]),
    )
  ]
