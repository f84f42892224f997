-- ===== src/Suggester/Rule.antt =====
-- internal/suggester/rule.go: what a rule is, and the suggestions that it returns. The metadata map and
-- its JSON rendering, json.Marshal, are parameters.
use Prim.Native.String.{String}
use better_pg_keeper.Common.{ℕ, Option, none, List, [], ◌∷◌, sprint, ◌⊎◌, inl, inr}
use better_pg_keeper.Models.{Severity, unset}
use better_pg_keeper.Models
use better_pg_keeper.Analyzer.Coverage.{AnalysisResult}

pub record Suggestion (M : Type 0) : Type 0 where
  pub rule_id : String
  pub severity : Severity
  pub title : String
  pub description : String
  pub target_object : String
  pub metadata : M

-- The methods of the Rule interface. `evaluate` returns an error or suggestions;
-- `unobserved_targets` is there if the rule is PartiallyObserved.
pub record Rule (F M : Type 0) : Type 0 where
  pub id : String
  pub required_domains : List String
  pub evaluate : AnalysisResult F → String ⊎ List (Suggestion M)
  pub unobserved_targets : Option (AnalysisResult F → List String)

module _ {M : Type 0} (marshal : M → String ⊎ String) where
  -- The error, or the row to store: its id, status and times are still the zero values.
  unfoldable pub to_model : ℕ → Suggestion M → String ⊎ Models.Suggestion
  to_model instance_id sug = elim (marshal sug.metadata) [
    | inl e ↦ inl (sprint ("marshaling metadata: " ∷ e ∷ []))
    | inr metadata_json ↦ inr (record {
      id = 0;
      instance_id = instance_id;
      rule_id = sug.rule_id;
      severity = sug.severity;
      title = sug.title;
      description = sug.description;
      target_object = sug.target_object;
      metadata = metadata_json;
      status = unset;
      first_seen_at = 0;
      last_seen_at = 0;
      dismissed_at = none;
      resolved_at = none;
    })
  ]
