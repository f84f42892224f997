-- ===== src/Rules/Slots/Verdict.antt =====
-- internal/suggester/rules/replication_slot.go, evaluateSlot: what it reports of a slot.
use Prim.Native.String.{String}
use mathlib.Core.Path.{subst}
use better_pg_keeper.Common.{
  ◌≡◌, refl, Bool, true, false, not, ◌&&◌, ◌||◌, Option, none, some, List, [], ◌∷◌, str_dec, sprint,
  ite, leb, arith, if◌then◌else◌,
}
use better_pg_keeper.Models.{Severity, critical, warning, info, other}
use better_pg_keeper.Suggester.Rule.{Suggestion}
use better_pg_keeper.Rules.Shared.{Floats, Metadata, max_severity}
use better_pg_keeper.Rules.Slots.{
  ReplicationSlot, ReplicationSlotRule, Outcome, panics, returns, retained_of, xmin_of,
  by_wal_status, by_retained, by_xmin, reasons_of, slot_suggestion, report_slot, evaluate_slot,
}

abbrev pub has_status : String → ReplicationSlot → Bool
has_status s slot = ite (str_dec slot.wal_status s) true false

module _ {R : Type 0} (r : ReplicationSlotRule R) where
  -- The severity of a slot: critical if its WAL is about to be removed, or it retains too much of it, or
  -- it holds back freezing; a warning if its WAL is lost, or if it is inactive and retains much.
  unfoldable pub slot_risk : ReplicationSlot → Option Severity
  slot_risk slot =
      if has_status "unreserved" slot
        || (leb r.retained_critical (retained_of slot) || leb r.xmin_critical (xmin_of slot))
      then some critical
      else if has_status "lost" slot
          || (not slot.is_active && leb r.retained_warning (retained_of slot))
      then some warning
      else none

abbrev pub severity_of : {M : Type 0} → Outcome (Option (Suggestion M)) → Outcome (Option Severity)
severity_of panics = panics
severity_of (returns none) = returns none
severity_of (returns (some s)) = returns (some s.severity)

module _ (floats : Floats) (r : ReplicationSlotRule floats.Float) (slot : ReplicationSlot) where
  pub evaluate_slot-severity :
      severity_of (evaluate_slot floats r slot) ≡ returns (slot_risk r slot)
  unfolding evaluate_slot reasons_of report_slot by_retained by_xmin by_wal_status slot_risk
      max_severity
  evaluate_slot-severity = ground (arith)

  -- What is reported is about the slot.
  abbrev HasTarget : Outcome (Option (Suggestion (Metadata floats.Float))) → Type 0
  HasTarget panics = Unit
  HasTarget (returns none) = Unit
  HasTarget (returns (some s)) = s.target_object ≡ sprint ("slot:" ∷ slot.name ∷ [])

  report_slot-HasTarget : (q : Severity × List String) → HasTarget (report_slot floats r slot q)
  unfolding report_slot slot_suggestion
  report_slot-HasTarget (other String.[], reasons) = tt
  report_slot-HasTarget (other (String.◌∷◌ c s), []) = tt
  report_slot-HasTarget (other (String.◌∷◌ c s), x ∷ xs) = refl
  report_slot-HasTarget (critical, []) = tt
  report_slot-HasTarget (critical, x ∷ xs) = refl
  report_slot-HasTarget (warning, []) = tt
  report_slot-HasTarget (warning, x ∷ xs) = refl
  report_slot-HasTarget (info, []) = tt
  report_slot-HasTarget (info, x ∷ xs) = refl

  pub evaluate_slot-target :
      (s : Suggestion (Metadata floats.Float))
      → evaluate_slot floats r slot ≡ returns (some s)
      → s.target_object ≡ sprint ("slot:" ∷ slot.name ∷ [])
  unfolding evaluate_slot
  evaluate_slot-target s h = subst HasTarget h (report_slot-HasTarget (reasons_of floats r slot))
