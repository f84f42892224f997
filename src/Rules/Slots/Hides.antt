-- ===== src/Rules/Slots/Hides.antt =====
-- internal/suggester/rules/replication_slot.go: a check that failed hides what Evaluate reported before.
use Prim.Native.String.{String}
use better_pg_keeper.Common.{
  ◌≡◌, refl, ◌⊎◌, inl, inr, true, false, some, List, [], ◌∷◌, All, All-mono, Memᴰ, IsOrder,
  Bool-cases,
}
use better_pg_keeper.Models.{warning}
use better_pg_keeper.Suggester.Rule.{Suggestion}
use better_pg_keeper.Suggester.Collect.{has_any_prefix}
use better_pg_keeper.Rules.Shared.{Floats, Metadata, is_failed, unobserved_targets-hides}
use better_pg_keeper.Rules.Slots.{ReplicationSlotRule}
use better_pg_keeper.Rules.Slots.Evaluate.{OutageRisk, slot_rule_unobserved}
use better_pg_keeper.Rules.Slots.Reports.{HasPrefix, IsReport, evaluate_slot_rule-IsReport}

-- The targets are hidden from a later analysis, or it could read what they are from.
abbrev pub IsHeld :
    {R : Type 0}
    → (List (String × String) → List (String × String))
    → OutageRisk R
    → String
    → List (Suggestion (Metadata R))
    → Type 0
IsHeld order later check ss =
    (is_failed later.unavailable check ≡ false)
    ⊎ All (λ s. has_any_prefix s.target_object (slot_rule_unobserved order (some later)) ≡ true) ss

IsHeld-of_prefix :
    (floats : Floats) (r : ReplicationSlotRule floats.Float)
    (order : List (String × String) → List (String × String))
    → IsOrder order
    → (later : OutageRisk floats.Float) (check prefix : String)
    → Memᴰ {A = String × String}
        (check, prefix)
        (("replication_slots", "slot:") ∷ ("replication", "replica:") ∷ [])
    → (ss : List (Suggestion (Metadata floats.Float))) → All (HasPrefix floats r prefix) ss
    → IsHeld order later check ss
unfolding slot_rule_unobserved
IsHeld-of_prefix floats r order iteration later check prefix m ss a =
    elim (Bool-cases (is_failed later.unavailable check)) [
      | inr f ↦ inl f
      | inl t ↦ inr (
          All-mono (HasPrefix floats r prefix) _
            (λ s h.
              unobserved_targets-hides order iteration later.unavailable
                (("replication_slots", "slot:") ∷ ("replication", "replica:") ∷ []) (check, prefix)
                s.target_object m t h)
            ss a)
    ]

-- Whatever Evaluate reported in an analysis: if a later one cannot read the slots, then the prefixes that
-- UnobservedTargets gives hide every suggestion about a slot, and if it cannot read the standbys, every
-- suggestion about a standby.
pub evaluate_slot_rule-hides :
    (floats : Floats) (r : ReplicationSlotRule floats.Float)
    (order : List (String × String) → List (String × String))
    → IsOrder order
    → (risk later : OutageRisk floats.Float)
    → (k : IsReport floats r risk) × IsHeld order later "replication_slots" k.found
      × IsHeld order later "replication" k.lagging
evaluate_slot_rule-hides floats r order iteration risk later =
    let k = evaluate_slot_rule-IsReport floats r risk in
    (
      k,
      IsHeld-of_prefix floats r order iteration later "replication_slots" "slot:" (Memᴰ.head refl)
          k.found k.about_slots,
      IsHeld-of_prefix floats r order iteration later "replication" "replica:"
          (Memᴰ.tail (Memᴰ.head refl)) k.lagging
          (All-mono (λ s. (s.severity ≡ warning) × HasPrefix floats r "replica:" s)
            (HasPrefix floats r "replica:") (λ s a. a.1) k.lagging k.about_standbys),
    )
