-- ===== src/Suggester/Suggest.antt =====
-- internal/suggester/suggester.go, Suggester.Suggest over any storage: the upsert loop and the resolve
-- loop, and the whole of it. `order` is the order in which `range` visits the entries of a map.
pub mod Steps
pub mod Resolvable
pub mod Hidden
pub mod Safety
pub mod Recovery
pub mod Resolves
pub mod Frame
pub mod Reported
pub mod Opens
pub mod Reopens
use Prim.Native.String.{String}
use better_pg_keeper.Common.{
  entry_key, index_by, ℕ, ◌+◌, Bool, true, false, not, ◌||◌, Option, none, some, List, [], ◌∷◌,
  ◌++◌, ◌⊎◌, inl, inr, str_dec, find_by, assign, length, sprint, decimal, if◌then◌else◌,
}
use better_pg_keeper.Models.{active}
use better_pg_keeper.Models
use better_pg_keeper.Analyzer.Coverage.{AnalysisResult}
use better_pg_keeper.Suggester.Rule.{Suggestion, Rule, to_model}
use better_pg_keeper.Suggester.Store.{Storage}
use better_pg_keeper.Suggester.Collect.{
  suggestion_key, has_any_prefix, flag, is_set, prefixes_of, Collected, run_rules,
  collected_nothing,
}

pub record SuggestResult : Type 0 where
  pub total_suggestions : ℕ
  pub new_suggestions : ℕ
  pub updated_count : ℕ
  pub resolved_count : ℕ
  pub skipped_rules : List String
  pub errors : List String

-- existingMap: the active rows under their keys.
abbrev pub Existing : Type 0
Existing = String × Models.Suggestion

abbrev pub key_of : Models.Suggestion → String
key_of r = suggestion_key r.rule_id r.target_object

unfoldable pub build_existing : List Models.Suggestion → List Existing
unfolding index_by suggestion_key
build_existing sugs = index_by key_of sugs []

-- The variables of the other two loops, with the storage.
pub record Progress (S : Type 0) : Type 0 where
  pub result : SuggestResult
  pub still_active : List String
  pub store : S

unfoldable pub add_error : String → SuggestResult → SuggestResult
add_error e r = record r { errors = r.errors ++ e ∷ [] }

unfoldable pub count_one : Bool → SuggestResult → SuggestResult
count_one exists r =
    if exists
    then record r { updated_count = r.updated_count + 1 }
    else record r { new_suggestions = r.new_suggestions + 1 }

unfoldable pub is_existing : String → List Existing → Bool
is_existing k m = elim (find_by entry_key str_dec k m) [ none ↦ false | some _ ↦ true ]

module _ {S : Type 0} (storage : Storage S) where
  -- UpsertSuggestion, with its error in the result.
  unfoldable pub store_one : Models.Suggestion → Progress S → Progress S
  unfolding add_error
  store_one model p =
      let (failed, store) = storage.upsert_suggestion model p.store in
      record p {
        result = elim failed [
          | none ↦ p.result
          | some e ↦ add_error (sprint ("upserting suggestion: " ∷ e ∷ [])) p.result
        ];
        store = store;
      }

  -- ResolveSuggestion, with its outcome in the result.
  unfoldable pub resolve_one : Models.Suggestion → Progress S → Progress S
  unfolding add_error
  resolve_one sug p =
      let (failed, store) = storage.resolve_suggestion sug.id p.store in
      record p {
        result = elim failed [
          | none ↦ record p.result { resolved_count = p.result.resolved_count + 1 }
          | some e ↦
              add_error (sprint ("resolving suggestion " ∷ decimal sug.id ∷ ": " ∷ e ∷ [])) p.result
        ];
        store = store;
      }

module _ {M S : Type 0} (marshal : M → String ⊎ String) (storage : Storage S) (instance_id : ℕ)
    (existing : List Existing) where
  unfoldable pub upsert_one : Suggestion M → Progress S → Progress S
  unfolding suggestion_key to_model store_one count_one is_existing add_error
  upsert_one sug p =
      let key = suggestion_key sug.rule_id sug.target_object in
      let p' = record p { still_active = assign flag str_dec key p.still_active } in
      elim (to_model marshal instance_id sug) [
        | inl e ↦ record p' {
          result = add_error (sprint ("converting suggestion: " ∷ e ∷ [])) p'.result;
        }
        | inr model ↦
            store_one storage model
              (record p' { result = count_one (is_existing key existing) p'.result })
      ]

  unfoldable pub upsert_all : List (Suggestion M) → Progress S → Progress S
  unfolding upsert_one
  upsert_all [] p = p
  upsert_all (sug ∷ sugs) p = upsert_all sugs (upsert_one sug p)

module _ {M : Type 0} (collected : Collected M) where
  -- The issue is not eligible: its rule did not run, or its target was not observed.
  unfoldable pub held_back : Models.Suggestion → Bool
  unfolding is_set has_any_prefix prefixes_of
  held_back sug =
      not (is_set sug.rule_id collected.resolvable_rules)
      || has_any_prefix sug.target_object (prefixes_of sug.rule_id collected.unobserved)

module _ {M S : Type 0} (storage : Storage S) (collected : Collected M) where
  unfoldable pub visit_existing : Existing → Progress S → Progress S
  unfolding is_set held_back resolve_one
  visit_existing (key, sug) p =
      if is_set key p.still_active || held_back collected sug then p else resolve_one storage sug p

  unfoldable pub resolve_all : List Existing → Progress S → Progress S
  unfolding visit_existing
  resolve_all [] p = p
  resolve_all (e ∷ es) p = resolve_all es (visit_existing e p)

abbrev pub initial_result : {M : Type 0} → Collected M → SuggestResult
initial_result c = record {
  total_suggestions = length c.all_suggestions;
  new_suggestions = 0;
  updated_count = 0;
  resolved_count = 0;
  skipped_rules = c.skipped_rules;
  errors = c.errors;
}

module _ {M S : Type 0} (marshal : M → String ⊎ String) (storage : Storage S)
    (order : List Existing → List Existing) where
  -- What follows the reading of the active rows.
  unfoldable pub apply_collected : ℕ → Collected M → List Models.Suggestion → S → Progress S
  unfolding build_existing upsert_all resolve_all
  apply_collected instance_id c rows store =
      let existing = build_existing rows in
      resolve_all storage c (order existing) (
        upsert_all marshal storage instance_id existing c.all_suggestions
          (record { result = initial_result c; still_active = []; store = store }))

module _ {F M S : Type 0} (marshal : M → String ⊎ String) (storage : Storage S)
    (order : List Existing → List Existing) where
  unfoldable pub suggest_analysis :
      List (Rule F M) → AnalysisResult F → S → (String ⊎ SuggestResult) × S
  unfolding run_rules apply_collected
  suggest_analysis rules analysis store =
      let c = run_rules analysis rules collected_nothing in
      let (answer, store') = storage.get_suggestions_by_status analysis.instance_id active store in
      elim answer.0 [
        | some e ↦ (inl (sprint ("getting active suggestions: " ∷ e ∷ [])), store')
        | none ↦
            let p = apply_collected marshal storage order analysis.instance_id c answer.1 store' in
            (inr p.result, p.store)
      ]

  -- A nil analysis is refused.
  unfoldable pub suggest :
      List (Rule F M) → Option (AnalysisResult F) → S → (String ⊎ SuggestResult) × S
  unfolding suggest_analysis
  suggest rules none store = (inl "analysis result is nil", store)
  suggest rules (some analysis) store = suggest_analysis rules analysis store
