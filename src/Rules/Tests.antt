-- ===== src/Rules/Tests.antt =====
-- Small inputs of the rules, with the floating-point numbers as whole ones, for the statements about them.
use Prim.Native.String.{String}
use better_pg_keeper.Common.{
  ℕ, ◌/◌, ◌≡◌, refl, Bool, true, false, none, some, List, [], ◌∷◌, ltb, map, decimal, IsOrder,
  str_dec, sort_by, str_less, assign, find_by, fields, ℤ, pos, negsuc, sprint, filter,
  if◌then◌else◌,
}
use better_pg_keeper.Models.{Severity, critical, warning, info}
use better_pg_keeper.Suggester.Rule.{Suggestion}
use better_pg_keeper.Analyzer.Indexes.{
  IndexStat, index_issues, saves_more, more_scanned, detect_duplicate_indexes,
  detect_unused_indexes, redundant_with,
}
use better_pg_keeper.Analyzer.Tests.{plain_index, index_stats, as_given}
use better_pg_keeper.Rules.Shared.{Floats, Metadata}
use better_pg_keeper.Rules.Indexes.{evaluate_unused, evaluate_duplicates}
use better_pg_keeper.Rules.Risk.{PreparedXact, PreparedTransactionRule, evaluate_prepared}
use better_pg_keeper.Rules.Risk.Thresholds.{is_aged, evaluate_prepared-aged}
use better_pg_keeper.Rules.Slots.{ReplicationSlot, ReplicationSlotRule, Outcome, panics, returns}
use better_pg_keeper.Rules.Slots.Evaluate.{OutageRisk, evaluate_slot_rule}
use better_pg_keeper.Rules.Slots.Reports.{IsReport, evaluate_slot_rule-IsReport}
use better_pg_keeper.Rules.Slots.Hides.{IsHeld, evaluate_slot_rule-hides}

abbrev old_index : IndexStat
old_index = record (plain_index "d" 0 "4:0:0:0") { stats_since = some 0 }

-- As of the eleventh day, with a window of ten days.
abbrev as_of : ℕ
as_of = 950400000000000

abbrev suggested : List (Suggestion (Metadata ℕ)) → List (String × Severity)
suggested ss = map (λ s. (s.target_object, s.severity)) ss

suggested_indexes :
    (suggested (evaluate_unused (index_issues as_given 10 as_of (old_index ∷ index_stats)))
      ≡ ("public.orders.d", info) ∷ [])
    × (suggested (evaluate_duplicates (index_issues as_given 10 as_of (old_index ∷ index_stats)))
        ≡ ("public.orders.c", info) ∷ ("public.orders.a", warning) ∷ [])
unfolding evaluate_unused evaluate_duplicates index_issues detect_unused_indexes
    detect_duplicate_indexes saves_more sort_by more_scanned str_less redundant_with str_dec assign
    find_by fields
suggested_indexes = (refl, refl)

abbrev whole_numbers : Floats
whole_numbers = record { Float = ℕ; less = ltb; quotient = λ a b. a / b; fixed = λ d x. decimal x }

abbrev rule : ReplicationSlotRule ℕ
rule = record {
  retained_warning = 1073741824;
  retained_critical = 10737418240;
  xmin_critical = 500000000;
  lag_warning = 30;
}

abbrev slot : String → Bool → String → ℕ → ReplicationSlot
slot name active status retained = record {
  name = name;
  slot_type = "logical";
  is_active = active;
  wal_status = status;
  retained_bytes = some retained;
  safe_wal_size = none;
  xmin_age = none;
  catalog_xmin_age = some 40;
}

abbrev risk : OutageRisk ℕ
risk = record {
  slots =
      slot "quiet" true "reserved" 2147483648
      ∷ slot "stuck" false "extended" 2147483648
      ∷ slot "gone" true "lost" 0
      ∷ slot "full" false "unreserved" 21474836480
      ∷ [];
  replicas =
      record {
        application_name = "";
        client_addr = "10.0.0.7";
        state = "streaming";
        replay_lag_secs = some 45;
      }
      ∷ [];
  unavailable = [];
}

abbrev later_risk : OutageRisk ℕ
later_risk = record {
  slots = [];
  replicas = [];
  unavailable = ("replication_slots", "permission denied") ∷ [];
}

abbrev outcome : Outcome (List (Suggestion (Metadata ℕ))) → List (String × Severity)
outcome panics = []
outcome (returns ss) = suggested ss

evaluated :
    outcome (evaluate_slot_rule whole_numbers rule (some risk))
    ≡ ("slot:stuck", warning)
      ∷ ("slot:gone", warning)
      ∷ ("slot:full", critical)
      ∷ ("replica:10.0.0.7", warning)
      ∷ []
unfolding evaluate_slot_rule str_dec
evaluated = refl

evaluate_slot_rule-IsReport_example : IsReport whole_numbers rule risk
evaluate_slot_rule-IsReport_example = evaluate_slot_rule-IsReport whole_numbers rule risk

abbrev in_order : List (String × String) → List (String × String)
in_order l = l

in_order-IsOrder : IsOrder in_order
in_order-IsOrder = record { keeps = λ P l a. a; covers = λ e l m. m }

evaluate_slot_rule-hides_example :
    (k : IsReport whole_numbers rule risk) × IsHeld in_order later_risk "replication_slots" k.found
    × IsHeld in_order later_risk "replication" k.lagging
evaluate_slot_rule-hides_example =
    evaluate_slot_rule-hides whole_numbers rule in_order in_order-IsOrder risk later_risk

abbrev prepared : String → ℕ → PreparedXact
prepared gid at = record { gid = gid; database = "shop"; owner = "app"; prepared = at; xid_age = 9 }

-- One transaction in an hour, one in two days, and one after the analysis.
abbrev prepared_xacts : List PreparedXact
prepared_xacts =
    prepared "fresh" 200000000000000 ∷ prepared "old" 10 ∷ prepared "late" 300000000000000 ∷ []

abbrev prepared_rule : PreparedTransactionRule
prepared_rule = record { warning_age = 0; critical_age = 172800000000000 }

abbrev whole_seconds : ℤ → ℕ
whole_seconds (pos n) = n / 1000000000
whole_seconds (negsuc _) = 0

evaluated_prepared :
    suggested (
      evaluate_prepared whole_numbers whole_seconds decimal prepared_rule 200000000000005
        prepared_xacts)
    ≡ ("prepared:fresh", warning) ∷ ("prepared:old", critical) ∷ []
unfolding evaluate_prepared
evaluated_prepared = refl

evaluate_prepared-aged_example :
    map {A = Suggestion (Metadata ℕ)} {B = String × Severity}
      (λ s. (s.target_object, s.severity))
      (evaluate_prepared whole_numbers whole_seconds decimal prepared_rule 200000000000005
        prepared_xacts)
    ≡ map
        (λ p. (
          sprint ("prepared:" ∷ p.gid ∷ []),
          if is_aged 200000000000005 prepared_rule.critical_age p then critical else warning,
        ))
        (filter (is_aged 200000000000005 prepared_rule.warning_age) prepared_xacts)
evaluate_prepared-aged_example =
    evaluate_prepared-aged whole_numbers whole_seconds decimal prepared_rule 200000000000005
      prepared_xacts
