-- ===== src/Notifier/Digest/Counts.antt =====
-- internal/notifier/digest.go, buildDigest: what the loop over the active suggestions counts and lists.
use better_pg_keeper.Common.{
  ℕ, ◌+◌, ◌≤◌, ◌<◌, ◌≡◌, refl, sym, ap, ◌∙◌, inl, inr, Bool, true, false, List, [], ◌∷◌, ◌++◌,
  arith, length, take, take-append, take_all, append_nil, length-append, append_assoc, ltb, leb,
  filter, map, Bool-cases,
}
use better_pg_keeper.Models
use better_pg_keeper.Models.{Severity, critical, warning, info, other}
use better_pg_keeper.Notifier.Message.{Item, event_opened}
use better_pg_keeper.Notifier.Settings.{NotificationsConfig}
use better_pg_keeper.Notifier.Deliver.{item}
use better_pg_keeper.Notifier.Evaluate.{no_severity}
use better_pg_keeper.Notifier.Digest.{
  Digest, max_listed, append_capped, count_severity, count_active, count_all_active,
}

abbrev pub severity_total : {Q : Type 0} → Digest Q → ℕ
severity_total d = d.critical_count + d.warning_count + d.info_count

-- The suggestions that were first seen in the period.
abbrev pub is_recent : ℕ → Models.Suggestion → Bool
is_recent since s = leb since s.first_seen_at

less_of_test : {a b : ℕ} → ltb a b ≡ true → a < b
less_of_test h = ground (arith, h)

full_of_test : {a b : ℕ} → ltb a b ≡ false → b ≤ a
full_of_test h = ground (arith, h)

append_capped_lem :
    (it : Item) (its rest : List Item)
    → length its ≤ max_listed
    → (take max_listed (append_capped it its ++ rest) ≡ take max_listed (its ++ it ∷ rest))
      × (length (append_capped it its) ≤ max_listed)
append_capped_lem it its rest small = elim (Bool-cases (ltb (length its) max_listed)) [
  | inl room ↦ rw room (
    ap (take max_listed) (append_assoc its (it ∷ []) rest),
    omega (arith, length-append its (it ∷ []), less_of_test room),
  )
  | inr full ↦ rw full (
    take-append max_listed its rest (omega (arith, full_of_test full))
        ∙ sym (take-append max_listed its (it ∷ rest) (omega (arith, full_of_test full))),
    small,
  )
]

module _ {Q : Type 0} where
  count_severity_lem :
      (s : Severity) (d : Digest Q)
      → (severity_total (count_severity s d) ≡ severity_total d + 1)
        × ((count_severity s d).new ≡ d.new)
        × ((count_severity s d).new_total ≡ d.new_total)
  unfolding count_severity
  count_severity_lem critical d = (omega arith, refl, refl)
  count_severity_lem warning d = (omega arith, refl, refl)
  count_severity_lem info d = (omega arith, refl, refl)
  count_severity_lem (other _) d = (omega arith, refl, refl)

abbrev pub opened : NotificationsConfig → Models.Suggestion → Item
opened cfg s = item cfg event_opened s no_severity

abbrev pub recents : ℕ → List Models.Suggestion → List Models.Suggestion
recents since = filter (is_recent since)

module _ {Q : Type 0} (cfg : NotificationsConfig) (since : ℕ) where
  count_active_recent :
      (s : Models.Suggestion) (d : Digest Q)
      → is_recent since s ≡ true
      → (severity_total (count_active cfg since s d) ≡ severity_total d + 1)
        × ((count_active cfg since s d).new ≡ append_capped (opened cfg s) d.new)
        × ((count_active cfg since s d).new_total ≡ d.new_total + 1)
  unfolding count_active
  count_active_recent s d recent =
      let (total, same_new, same_total) = count_severity_lem s.severity d in
      rw (recent, count_active)
        (total, ap (append_capped (opened cfg s)) same_new, ap (λ x. x + 1) same_total)

  count_active_earlier :
      (s : Models.Suggestion) (d : Digest Q)
      → is_recent since s ≡ false
      → (severity_total (count_active cfg since s d) ≡ severity_total d + 1)
        × ((count_active cfg since s d).new ≡ d.new)
        × ((count_active cfg since s d).new_total ≡ d.new_total)
  unfolding count_active
  count_active_earlier s d earlier = rw (earlier, count_active) (count_severity_lem s.severity d)

  -- What a loop over the suggestions makes of the digest.
  abbrev CountsFrom : Digest Q → List Models.Suggestion → Digest Q → Type 0
  CountsFrom d ss r =
      (severity_total r ≡ severity_total d + length ss)
      × (r.new_total ≡ d.new_total + length (recents since ss))
      × (r.new ≡ take max_listed (d.new ++ map (opened cfg) (recents since ss)))

  count_all_active_lem :
      (ss : List Models.Suggestion) (d : Digest Q)
      → length d.new ≤ max_listed
      → CountsFrom d ss (count_all_active cfg since ss d)
  unfolding count_all_active filter
  count_all_active_lem [] d small = (
    omega arith,
    omega arith,
    sym (take_all max_listed d.new small) ∙ ap (take max_listed) (sym (append_nil d.new)),
  )
  count_all_active_lem (s ∷ ss) d small = elim (Bool-cases (is_recent since s)) [
    | inl recent ↦
        let (total, new, new_total) = count_active_recent s d recent in
        let (cut, less) =
          append_capped_lem (opened cfg s) d.new (map (opened cfg) (recents since ss)) small in
        let (a, b, c) = count_all_active_lem ss (count_active cfg since s d) (rw new less) in
        rw recent (omega (arith, a, total), omega (arith, b, new_total), c ∙ rw new cut)
    | inr earlier ↦
        let (total, new, new_total) = count_active_earlier s d earlier in
        let (a, b, c) = count_all_active_lem ss (count_active cfg since s d) (rw new small) in
        rw earlier (
          omega (arith, a, total),
          omega (arith, b, new_total),
          c ∙ ap (λ l. take max_listed (l ++ map (opened cfg) (recents since ss))) new,
        )
  ]

  -- The counts of a digest add up to the active suggestions; the number of new ones is that of the suggestions
  -- first seen in the period; and the list holds the first fifteen of them, in the order of the storage.
  pub count_all_active-counts :
      (ss : List Models.Suggestion) (d : Digest Q)
      → severity_total d ≡ 0
      → d.new_total ≡ 0
      → d.new ≡ []
      → (severity_total (count_all_active cfg since ss d) ≡ length ss)
        × ((count_all_active cfg since ss d).new_total ≡ length (recents since ss))
        × ((count_all_active cfg since ss d).new
            ≡ take max_listed (map (opened cfg) (recents since ss)))
  count_all_active-counts ss d zero_total zero_new no_new =
      let (a, b, c) = count_all_active_lem ss d (rw no_new (omega arith)) in
      (
        omega (arith, a, zero_total),
        omega (arith, b, zero_new),
        c ∙ ap (λ l. take max_listed (l ++ map (opened cfg) (recents since ss))) no_new,
      )
