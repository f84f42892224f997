-- ===== src/Suggester/Collect.antt =====
-- internal/suggester/suggester.go, the first loop of Suggester.Suggest: it runs the rules whose data was
-- observed. A Go map is a list of entries.
use Prim.Native.String.{String}
use text.Mathlib.Text.{starts_with}
use better_pg_keeper.Common.{
  Bool, true, false, ◌||◌, none, some, List, [], ◌∷◌, ◌++◌, inl, inr, str_dec, find_by, assign,
  erase_by, sprint, if◌then◌else◌,
}
use better_pg_keeper.Analyzer.Coverage.{AnalysisResult, domains_usable}
use better_pg_keeper.Suggester.Rule.{Suggestion, Rule}

unfoldable pub suggestion_key : String → String → String
suggestion_key rule_id target_object = sprint (rule_id ∷ ":" ∷ target_object ∷ [])

unfoldable pub has_any_prefix : String → List String → Bool
has_any_prefix s [] = false
has_any_prefix s (p ∷ ps) = starts_with s p || has_any_prefix s ps

-- map[string]bool, as the list of the keys that are set.
abbrev pub flag : String → String
flag k = k

unfoldable pub is_set : String → List String → Bool
is_set k flags = elim (find_by flag str_dec k flags) [ none ↦ false | some _ ↦ true ]

abbrev pub prefix_key : String × List String → String
prefix_key e = e.0

unfoldable pub prefixes_of : String → List (String × List String) → List String
prefixes_of rule_id m = elim (find_by prefix_key str_dec rule_id m) [ none ↦ [] | some e ↦ e.1 ]

-- The variables that the first loop fills.
pub record Collected (M : Type 0) : Type 0 where
  pub all_suggestions : List (Suggestion M)
  pub resolvable_rules : List String
  pub unobserved : List (String × List String)
  pub skipped_rules : List String
  pub errors : List String

module _ {F M : Type 0} (analysis : AnalysisResult F) where
  unfoldable pub note_unobserved :
      Rule F M → List (String × List String) → List (String × List String)
  note_unobserved rule m = elim rule.unobserved_targets [
    | none ↦ m
    | some targets ↦ elim (targets analysis) [
      | [] ↦ m
      | p ∷ ps ↦ assign prefix_key str_dec (rule.id, p ∷ ps) m
    ]
  ]

  -- A rule whose data is usable.
  unfoldable pub evaluate_rule : Rule F M → Collected M → Collected M
  unfolding note_unobserved
  evaluate_rule rule c =
      let marked = assign flag str_dec rule.id c.resolvable_rules in
      elim (rule.evaluate analysis) [
        | inl e ↦ record c {
          resolvable_rules = erase_by flag str_dec rule.id marked;
          errors = c.errors ++ sprint ("rule " ∷ rule.id ∷ ": " ∷ e ∷ []) ∷ [];
        }
        | inr suggestions ↦ record c {
          resolvable_rules = marked;
          all_suggestions = c.all_suggestions ++ suggestions;
          unobserved = note_unobserved rule c.unobserved;
        }
      ]

  -- The body of the first loop.
  unfoldable pub run_rule : Rule F M → Collected M → Collected M
  unfolding domains_usable evaluate_rule
  run_rule rule c =
      if domains_usable analysis rule.required_domains
      then evaluate_rule rule c
      else record c { skipped_rules = c.skipped_rules ++ rule.id ∷ [] }

  unfoldable pub run_rules : List (Rule F M) → Collected M → Collected M
  unfolding run_rule
  run_rules [] c = c
  run_rules (rule ∷ rules) c = run_rules rules (run_rule rule c)

abbrev pub collected_nothing : {M : Type 0} → Collected M
collected_nothing = record {
  all_suggestions = [];
  resolvable_rules = [];
  unobserved = [];
  skipped_rules = [];
  errors = [];
}
