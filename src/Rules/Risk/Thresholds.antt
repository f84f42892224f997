-- ===== src/Rules/Risk/Thresholds.antt =====
-- internal/suggester/rules/prepared_transaction.go: which transactions the rule reports.
use Prim.Native.String.{String}
use better_pg_keeper.Common.{
  ℕ, ◌+◌, ◌≡◌, refl, ℤ, sub_ℕ, Bool, not, List, [], ◌∷◌, map, filter, leb, arith, sprint,
  if◌then◌else◌,
}
use better_pg_keeper.Models.{Severity, critical, warning}
use better_pg_keeper.Suggester.Rule.{Suggestion}
use better_pg_keeper.Rules.Shared.{Floats, Metadata}
use better_pg_keeper.Rules.Risk.{
  PreparedXact, PreparedTransactionRule, below, prepared_suggestion, evaluate_prepared,
}

-- At least so old: no subtraction, and so no age below 0.
abbrev pub is_aged : ℕ → ℕ → PreparedXact → Bool
is_aged now t p = leb (p.prepared + t) now

below-is_aged :
    (now t : ℕ) (p : PreparedXact) → below (sub_ℕ now p.prepared) t ≡ not (is_aged now t p)
unfolding below
below-is_aged now t p = ground arith

module _ (floats : Floats) (seconds : ℤ → floats.Float) (date : ℕ → String)
    (r : PreparedTransactionRule) where
  abbrev Reported : Type 0
  Reported = Suggestion (Metadata floats.Float)

  -- The rule reports each transaction that was prepared at least the warning's age before the analysis,
  -- in their order, as critical if it was at least the critical age before it; none that was prepared
  -- after it, whatever the thresholds are.
  pub evaluate_prepared-aged :
      (now : ℕ) (ps : List PreparedXact)
      → map {A = Reported} {B = String × Severity}
          (λ s. (s.target_object, s.severity))
          (evaluate_prepared floats seconds date r now ps)
        ≡ map
            (λ p. (
              sprint ("prepared:" ∷ p.gid ∷ []),
              if is_aged now r.critical_age p then critical else warning,
            ))
            (filter (is_aged now r.warning_age) ps)
  unfolding evaluate_prepared prepared_suggestion filter
  evaluate_prepared-aged now [] = refl
  evaluate_prepared-aged now (p ∷ ps) = ground (
    arith,
    evaluate_prepared-aged now ps,
    below-is_aged now r.warning_age p,
    below-is_aged now r.critical_age p,
  )
