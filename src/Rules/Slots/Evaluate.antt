-- ===== src/Rules/Slots/Evaluate.antt =====
-- internal/suggester/rules/replication_slot.go, ReplicationSlotRule: Evaluate, with evaluateReplica, and
-- UnobservedTargets.
use Prim.Native.String.{String}
use better_pg_keeper.Common.{
  Option, none, some, List, [], ◌∷◌, ◌++◌, str_dec, ite, sprint, if◌then◌else◌,
}
use better_pg_keeper.Models.{warning}
use better_pg_keeper.Suggester.Rule.{Suggestion}
use better_pg_keeper.Rules.Shared.{Floats, Metadata, str, real, unobserved_targets}
use better_pg_keeper.Rules.Slots.{
  ReplicationSlot, ReplicaLag, ReplicationSlotRule, Outcome, panics, returns, evaluate_slot,
}

-- The fields of OutageRisk that the rule reads.
pub record OutageRisk (R : Type 0) : Type 0 where
  pub slots : List ReplicationSlot
  pub replicas : List (ReplicaLag R)
  pub unavailable : List (String × String)

unfoldable pub replica_name : {R : Type 0} → ReplicaLag R → String
unfolding str_dec
replica_name replica =
    ite (str_dec replica.application_name "") replica.client_addr replica.application_name

-- UnobservedTargets, at the risk of an analysis, `none` if it has none; a nil map has no entries.
unfoldable pub slot_rule_unobserved :
    {R : Type 0}
    → (List (String × String) → List (String × String))
    → Option (OutageRisk R)
    → List String
unfolding unobserved_targets
slot_rule_unobserved order risk =
    unobserved_targets order (elim risk [ none ↦ [] | some k ↦ k.unavailable ])
      (("replication_slots", "slot:") ∷ ("replication", "replica:") ∷ [])

module _ (floats : Floats) (r : ReplicationSlotRule floats.Float) where
  -- The suggestion of evaluateReplica.
  unfoldable pub replica_suggestion :
      ReplicaLag floats.Float → floats.Float → Suggestion (Metadata floats.Float)
  unfolding replica_name
  replica_suggestion replica lag = record {
    rule_id = "replication_slot";
    severity = warning;
    title =
        sprint ("Standby " ∷ replica_name replica ∷ " is " ∷ floats.fixed 0 lag ∷ "s behind" ∷ []);
    description = sprint (
        "Standby `"
        ∷ replica_name replica
        ∷ "` ("
        ∷ replica.client_addr
        ∷ ", state "
        ∷ replica.state
        ∷ ") is "
        ∷ floats.fixed 0 lag
        ∷ " seconds behind in replaying WAL.\n\n**Why it matters:**\nReads from this standby return stale data, a failover to it loses or delays recent writes, and the primary keeps WAL for it (with a slot) or it may fall off entirely (without one).\n\n**What to do:**\n- Check the standby for long-running queries that pause replay (`max_standby_streaming_delay`).\n- Check its disk and network throughput against the primary's WAL rate.\n"
        ∷ []);
    target_object = sprint ("replica:" ∷ replica_name replica ∷ []);
    metadata =
        ("application_name", str replica.application_name)
        ∷ ("client_addr", str replica.client_addr)
        ∷ ("state", str replica.state)
        ∷ ("replay_lag_seconds", real lag)
        ∷ [];
  }

  -- evaluateReplica; `none` is nil.
  unfoldable pub evaluate_replica :
      ReplicaLag floats.Float → Option (Suggestion (Metadata floats.Float))
  unfolding replica_suggestion
  evaluate_replica replica = elim replica.replay_lag_secs [
    | none ↦ none
    | some lag ↦
        if floats.less lag r.lag_warning then none else some (replica_suggestion replica lag)
  ]

  -- The loop over the slots.
  unfoldable pub evaluate_slots :
      List ReplicationSlot → Outcome (List (Suggestion (Metadata floats.Float)))
  unfolding evaluate_slot
  evaluate_slots [] = returns []
  evaluate_slots (slot ∷ slots) =
      let rest = evaluate_slots slots in
      elim (evaluate_slot floats r slot) [
        | panics ↦ panics
        | returns none ↦ rest
        | returns (some s) ↦ elim rest [ panics ↦ panics | returns ss ↦ returns (s ∷ ss) ]
      ]

  -- The loop over the standbys.
  unfoldable pub evaluate_replicas :
      List (ReplicaLag floats.Float) → List (Suggestion (Metadata floats.Float))
  unfolding evaluate_replica
  evaluate_replicas [] = []
  evaluate_replicas (replica ∷ replicas) =
      let rest = evaluate_replicas replicas in
      elim (evaluate_replica replica) [ none ↦ rest | some s ↦ s ∷ rest ]

  -- Evaluate
  unfoldable pub evaluate_slot_rule :
      Option (OutageRisk floats.Float) → Outcome (List (Suggestion (Metadata floats.Float)))
  unfolding evaluate_slots evaluate_replicas
  evaluate_slot_rule none = returns []
  evaluate_slot_rule (some risk) = elim (evaluate_slots risk.slots) [
    | panics ↦ panics
    | returns found ↦ returns (found ++ evaluate_replicas risk.replicas)
  ]
