-- ===== src/Rules/Slots/Reports.antt =====
-- internal/suggester/rules/replication_slot.go: what Evaluate reports of all slots and standbys, and that a
-- check that failed hides it.
use Prim.Native.String.{String}
use text.Mathlib.Text.{starts_with}
use text.Mathlib.TextPositions.{starts_with-append}
use better_pg_keeper.Common.{
  ◌≡◌, refl, inl, inr, Bool, true, false, not, Option, none, some, List, [], ◌∷◌, ◌++◌, map, filter,
  All, arith, Bool-cases, Option-cases, sprint,
}
use better_pg_keeper.Models.{Severity, warning}
use better_pg_keeper.Suggester.Rule.{Suggestion}
use better_pg_keeper.Rules.Shared.{Floats, Metadata}
use better_pg_keeper.Rules.Slots.{
  ReplicationSlot, ReplicaLag, ReplicationSlotRule, Outcome, panics, returns, evaluate_slot,
}
use better_pg_keeper.Rules.Slots.Verdict.{
  slot_risk, severity_of, evaluate_slot-severity, evaluate_slot-target,
}
use better_pg_keeper.Rules.Slots.Evaluate.{
  OutageRisk, replica_name, replica_suggestion, evaluate_replica, evaluate_slots, evaluate_replicas,
  evaluate_slot_rule,
}

module _ {R : Type 0} (r : ReplicationSlotRule R) where
  -- The severities of the slots that are at risk.
  unfoldable pub slot_risks : List ReplicationSlot → List Severity
  unfolding slot_risk
  slot_risks [] = []
  slot_risks (slot ∷ slots) =
      let rest = slot_risks slots in elim (slot_risk r slot) [ none ↦ rest | some s ↦ s ∷ rest ]

abbrev pub is_behind :
    (floats : Floats) → ReplicationSlotRule floats.Float → ReplicaLag floats.Float → Bool
is_behind floats r replica = elim replica.replay_lag_secs [
  | none ↦ false
  | some lag ↦ not (floats.less lag r.lag_warning)
]

abbrev pub replica_target : {R : Type 0} → ReplicaLag R → String
replica_target replica = sprint ("replica:" ∷ replica_name replica ∷ [])

module _ (floats : Floats) (r : ReplicationSlotRule floats.Float) where
  abbrev Found : Type 0
  Found = Suggestion (Metadata floats.Float)

  abbrev pub HasPrefix : String → Found → Type 0
  HasPrefix p s = starts_with s.target_object p ≡ true

  -- The suggestions about slots.
  record SlotReport (slots : List ReplicationSlot) : Type 0 where
    pub found : List Found
    pub result : evaluate_slots floats r slots ≡ returns found
    pub severities : map (λ s. s.severity) found ≡ slot_risks r slots
    pub targets : All (HasPrefix "slot:") found

  -- One more slot, by what is reported of it.
  add_slot :
      (slot : ReplicationSlot) (slots : List ReplicationSlot)
      → SlotReport slots
      → (o : Outcome (Option Found)) → evaluate_slot floats r slot ≡ o
      → severity_of o ≡ returns (slot_risk r slot)
      → SlotReport (slot ∷ slots)
  unfolding evaluate_slots slot_risks
  add_slot slot slots k panics e v = absurd (cc)
  add_slot slot slots k (returns none) e v = elim (Option-cases (slot_risk r slot)) [
    | inr (s, q) ↦ let v' = rw q at v in absurd (cc)
    | inl q ↦ record {
      found = k.found;
      result = rw (e, evaluate_slots) k.result;
      severities = rw (q, slot_risks) k.severities;
      targets = k.targets;
    }
  ]
  add_slot slot slots k (returns (some x)) e v = elim (Option-cases (slot_risk r slot)) [
    | inl q ↦ let v' = rw q at v in absurd (cc)
    | inr (s, q) ↦
        let v' = rw q at v in
        let same : x.severity ≡ s = cc in
        record {
          found = x ∷ k.found;
          result = rw (e, evaluate_slots) (rw k.result refl);
          severities = rw (q, slot_risks) (rw (same, k.severities) refl);
          targets = (
            rw (evaluate_slot-target floats r slot x e) (starts_with-append "slot:" slot.name),
            k.targets,
          );
        }
  ]

  report_of : (slots : List ReplicationSlot) → SlotReport slots
  unfolding evaluate_slots slot_risks
  report_of [] = record { found = []; result = refl; severities = refl; targets = tt }
  report_of (slot ∷ slots) =
      add_slot slot slots (report_of slots) (evaluate_slot floats r slot) refl
        (evaluate_slot-severity floats r slot)

  evaluate_replicas-targets :
      (replicas : List (ReplicaLag floats.Float))
      → map {A = Found} (λ s. s.target_object) (evaluate_replicas floats r replicas)
        ≡ map replica_target (filter (is_behind floats r) replicas)
  unfolding evaluate_replicas evaluate_replica replica_suggestion filter
  evaluate_replicas-targets [] = refl
  evaluate_replicas-targets (p ∷ ps) = ground (arith, evaluate_replicas-targets ps)

  evaluate_replicas-All :
      (replicas : List (ReplicaLag floats.Float))
      → All
          (λ s. (s.severity ≡ warning) × HasPrefix "replica:" s)
          (evaluate_replicas floats r replicas)
  unfolding evaluate_replicas evaluate_replica replica_suggestion
  evaluate_replicas-All [] = tt
  evaluate_replicas-All (p ∷ ps) =
      let rest = evaluate_replicas-All ps in
      elim (Option-cases p.replay_lag_secs) [
        | inl e ↦ rw (e, evaluate_replicas) rest
        | inr (lag, e) ↦ elim (Bool-cases (floats.less lag r.lag_warning)) [
          | inl t ↦ rw (e, evaluate_replicas) (rw t rest)
          | inr f ↦
              rw (e, evaluate_replicas)
                (rw f ((refl, starts_with-append "replica:" (replica_name p)), rest))
        ]
      ]

  evaluate_slot_rule-result :
      (risk : OutageRisk floats.Float)
      → evaluate_slot_rule floats r (some risk)
        ≡ returns ((report_of risk.slots).found ++ evaluate_replicas floats r risk.replicas)
  unfolding evaluate_slot_rule
  evaluate_slot_rule-result risk = rw ((report_of risk.slots).result, evaluate_slot_rule) refl

-- What Evaluate returns: the suggestions of the slots at risk, in their order and with their severities,
-- and one warning for each standby that is behind.
pub record IsReport (floats : Floats) (r : ReplicationSlotRule floats.Float)
    (risk : OutageRisk floats.Float) : Type 0 where
  pub found : List (Suggestion (Metadata floats.Float))
  pub lagging : List (Suggestion (Metadata floats.Float))
  pub result : evaluate_slot_rule floats r (some risk) ≡ returns (found ++ lagging)
  pub severities : map (λ s. s.severity) found ≡ slot_risks r risk.slots
  pub standbys :
      map {A = Suggestion (Metadata floats.Float)} (λ s. s.target_object) lagging
      ≡ map replica_target (filter (is_behind floats r) risk.replicas)
  pub about_slots : All (HasPrefix floats r "slot:") found
  pub about_standbys : All (λ s. (s.severity ≡ warning) × HasPrefix floats r "replica:" s) lagging

-- Evaluate never panics. It returns a suggestion for each slot at risk, in their order: critical if its
-- WAL is about to be removed, or it retains too much of it, or it holds back freezing; otherwise a
-- warning, if its WAL is lost or it is inactive and retains much. After them is a warning for each
-- standby that is behind.
pub evaluate_slot_rule-IsReport :
    (floats : Floats) (r : ReplicationSlotRule floats.Float) (risk : OutageRisk floats.Float)
    → IsReport floats r risk
evaluate_slot_rule-IsReport floats r risk =
    let k = report_of floats r risk.slots in
    record {
      found = k.found;
      lagging = evaluate_replicas floats r risk.replicas;
      result = evaluate_slot_rule-result floats r risk;
      severities = k.severities;
      standbys = evaluate_replicas-targets floats r risk.replicas;
      about_slots = k.targets;
      about_standbys = evaluate_replicas-All floats r risk.replicas;
    }
