-- ===== src/Suggester/Tests.antt =====
-- A run of the suggester on a small table, for the statements about Suggester.Suggest.
use Prim.Native.String.{String}
use better_pg_keeper.Suggester.Suggest.Reported.{IsOpen}
use better_pg_keeper.Suggester.Suggest.Reopens.{suggest-opens_reported}
use better_pg_keeper.Common.{
  pos, Memᴰ, IsOrder, ℕ, ◌+◌, ◌≡◌, refl, ◌⊎◌, inl, inr, true, false, none, some, List, [], ◌∷◌,
  arith, IsFree, str_dec, ◌≢◌, ne_by, sym, All, assign, update_at, IsFree-of, lacks_char,
  are_distinct, lacks, Distinct-of, ℕ_discrete, find_by, map,
}
use better_pg_keeper.Models
use better_pg_keeper.Models.{Status, info, warning, active, dismissed, resolved, status_dec}
use better_pg_keeper.Analyzer.Coverage.{domain_coverage, usable, AnalysisResult, domains_usable}
use better_pg_keeper.Storage.Db.{Environment, Db, exec}
use better_pg_keeper.Storage.Suggestions.Ops.{
  upsert_suggestion, count_affected, insert_suggestion, get_suggestions_by_status,
  resolve_suggestion,
}
use better_pg_keeper.Storage.Suggestions.{
  rows_by_status, resolve_rows, update_rows, row_by_id, row_id, row_key, key_dec,
}
use better_pg_keeper.Storage.Suggestions.Keys.{IsKeyed}
use better_pg_keeper.Suggester.Rule.{Suggestion, Rule}
use better_pg_keeper.Suggester.Sqlite.{sqlite_storage}
use better_pg_keeper.Suggester.Suggest.{key_of, Existing, SuggestResult, suggest}
use better_pg_keeper.Suggester.Keys.{colon, suggestion_key-injective}
use better_pg_keeper.Suggester.Collect.{
  suggestion_key, run_rules, run_rule, evaluate_rule, collected_nothing,
}
use better_pg_keeper.Suggester.Suggest.Resolves.{IsGone, suggest-resolves_gone}
use better_pg_keeper.Suggester.Suggest.Safety.{Reads, suggest-keeps_unobserved}
use better_pg_keeper.Suggester.Suggest.Frame.{
  suggest-IsKeyed, suggest-keeps_dismissed, suggest-leaves_others,
}

abbrev healthy : Environment
healthy = record { fails = λ _. none; clock = λ n. 1000 + n }

abbrev stored : ℕ → ℕ → String → String → Status → Models.Suggestion
stored id instance rule target status = record {
  id = id;
  instance_id = instance;
  rule_id = rule;
  severity = warning;
  title = "title";
  description = "description";
  target_object = target;
  metadata = "{}";
  status = status;
  first_seen_at = 10;
  last_seen_at = 20;
  dismissed_at = none;
  resolved_at = none;
}

abbrev slow : Models.Suggestion
slow = stored 1 1 "slow_query" "query:7" active

abbrev unused : Models.Suggestion
unused = stored 2 1 "unused_index" "public.a" active

abbrev ignored : Models.Suggestion
ignored = stored 3 1 "slow_query" "query:9" dismissed

abbrev foreign : Models.Suggestion
foreign = stored 4 2 "slow_query" "query:7" active

abbrev table : List Models.Suggestion
table = slow ∷ unused ∷ ignored ∷ foreign ∷ []

abbrev db : Db
db = record {
  suggestions = table;
  notification_states = [];
  notifier_times = [];
  snapshots = [];
  snapshot_collectors = [];
  statements = 0;
}

-- query_stats was collected, index_stats was not.
abbrev analysis : AnalysisResult (Unit {0})
analysis = record {
  snapshot_id = 5;
  instance_id = 1;
  analyzed_at = 100;
  errors = [];
  error_count = 0;
  coverage =
      (
        "query_stats",
        record { present = true; snapshot_id = 5; captured_at = 90; age = pos 10; stale = false },
      )
      ∷ [];
  findings = tt;
}

abbrev reported : Suggestion String
reported = record {
  rule_id = "slow_query";
  severity = info;
  title = "slower";
  description = "d";
  target_object = "query:9";
  metadata = "{}";
}

abbrev slow_rule : Rule (Unit {0}) String
slow_rule = record {
  id = "slow_query";
  required_domains = "query_stats" ∷ [];
  evaluate = λ _. inr (reported ∷ []);
  unobserved_targets = none;
}

abbrev unused_rule : Rule (Unit {0}) String
unused_rule = record {
  id = "unused_index";
  required_domains = "index_stats" ∷ [];
  evaluate = λ _. inr [];
  unobserved_targets = none;
}

abbrev rules : List (Rule (Unit {0}) String)
rules = slow_rule ∷ unused_rule ∷ []

abbrev as_given : List Existing → List Existing
as_given l = l

abbrev marshal_text : String → String ⊎ String
marshal_text = inr

as_given-IsOrder : IsOrder as_given
as_given-IsOrder = record { keeps = λ P l a. a; covers = λ e l m. m }

table-IsKeyed : IsKeyed table
unfolding are_distinct lacks ℕ_discrete key_dec str_dec
table-IsKeyed = record {
  distinct_keys = Distinct-of row_key key_dec table refl;
  distinct_ids = Distinct-of row_id ℕ_discrete table refl;
}

missing_index_stats : domains_usable analysis unused_rule.required_domains ≡ false
unfolding domains_usable domain_coverage usable find_by str_dec
missing_index_stats = refl

unused-found : row_by_id 2 table ≡ some unused
unfolding row_by_id find_by ℕ_discrete
unused-found = refl

ignored-found : row_by_id 3 table ≡ some ignored
unfolding row_by_id find_by ℕ_discrete
ignored-found = refl

foreign-found : row_by_id 4 table ≡ some foreign
unfolding row_by_id find_by ℕ_discrete
foreign-found = refl

slow-found : row_by_id 1 table ≡ some slow
unfolding row_by_id find_by ℕ_discrete
slow-found = refl

slow-ne-unused : slow_rule.id ≢ unused.rule_id
unfolding str_dec
slow-ne-unused = ne_by str_dec _ _ refl

abbrev run : (String ⊎ SuggestResult) × Db
run = suggest marshal_text (sqlite_storage healthy) as_given rules (some analysis) db

-- The index data is missing: the unused index stays.
suggest-keeps_unobserved_example : Reads 2 active run.1.suggestions
unfolding sqlite_storage
suggest-keeps_unobserved_example =
    suggest-keeps_unobserved marshal_text (sqlite_storage healthy) as_given as_given-IsOrder rules
      analysis db unused table-IsKeyed unused-found refl
      ((λ e. absurd (slow-ne-unused e)), ((λ e. inl (inl missing_index_stats)), tt))

suggest-IsKeyed_example : IsKeyed run.1.suggestions
unfolding sqlite_storage
suggest-IsKeyed_example =
    suggest-IsKeyed marshal_text (sqlite_storage healthy) as_given as_given-IsOrder rules analysis
      db table-IsKeyed

suggest-keeps_dismissed_example : Reads 3 dismissed run.1.suggestions
unfolding sqlite_storage
suggest-keeps_dismissed_example =
    suggest-keeps_dismissed marshal_text (sqlite_storage healthy) as_given as_given-IsOrder rules
      analysis db ignored ignored-found refl

suggest-leaves_others_example : row_by_id 4 run.1.suggestions ≡ some foreign
unfolding sqlite_storage
suggest-leaves_others_example =
    suggest-leaves_others marshal_text (sqlite_storage healthy) as_given as_given-IsOrder rules
      analysis db foreign table-IsKeyed foreign-found (omega arith)

usable_query_stats : domains_usable analysis slow_rule.required_domains ≡ true
unfolding domains_usable domain_coverage usable find_by str_dec
usable_query_stats = refl

-- Only the slow rule runs, and it reports one issue.
collected_reports : (run_rules analysis rules collected_nothing).all_suggestions ≡ reported ∷ []
unfolding run_rules run_rule evaluate_rule domains_usable domain_coverage usable find_by str_dec
collected_reports = refl

other_key : suggestion_key reported.rule_id reported.target_object ≢ key_of slow
unfolding suggestion_key str_dec
other_key = ne_by str_dec _ _ refl

slow-IsGone : IsGone rules analysis slow
slow-IsGone = record {
  has_rule = inl refl;
  heard = (
    (λ e. (usable_query_stats, (reported ∷ [], refl))),
    ((λ e. absurd (slow-ne-unused (sym e))), tt),
  );
  seen = ((λ e. tt), ((λ e. tt), tt));
  unreported = rw collected_reports (other_key, tt);
}

table_names_IsFree : All (λ x. IsFree colon x.rule_id) table
unfolding lacks_char
table_names_IsFree = (
  IsFree-of colon "slow_query" refl,
  (
    IsFree-of colon "unused_index" refl,
    (IsFree-of colon "slow_query" refl, (IsFree-of colon "slow_query" refl, tt)),
  ),
)

suggest-resolves_gone_example : Reads 1 resolved run.1.suggestions
unfolding sqlite_storage get_suggestions_by_status resolve_suggestion exec
suggest-resolves_gone_example =
    suggest-resolves_gone marshal_text (sqlite_storage healthy) as_given as_given-IsOrder rules
      analysis db slow table-IsKeyed table_names_IsFree slow-found refl refl refl (λ id t. refl)
      slow-IsGone

-- What the run leaves of each row: resolved, kept, still dismissed, not touched.
run_statuses :
    map (λ (r : Models.Suggestion). r.status) run.1.suggestions
    ≡ resolved ∷ active ∷ dismissed ∷ active ∷ []
unfolding suggest sqlite_storage rows_by_status ℕ_discrete status_dec assign str_dec resolve_rows
    update_at key_dec update_rows
run_statuses = refl

suggestion_key-injective_example : ("slow_query" ≡ slow.rule_id) × ("query:7" ≡ slow.target_object)
unfolding lacks_char
suggestion_key-injective_example =
    suggestion_key-injective "slow_query" slow.rule_id "query:7" slow.target_object
      (IsFree-of colon "slow_query" refl) (IsFree-of colon "slow_query" refl) refl

reported_once : Memᴰ reported (run_rules analysis rules collected_nothing).all_suggestions
reported_once = rw collected_reports (Memᴰ.head refl)

abbrev busy_table : List Models.Suggestion
busy_table = unused ∷ stored 5 1 "slow_query" "query:9" resolved ∷ []

abbrev busy : Db
busy = record db { suggestions = busy_table }

busy-IsKeyed : IsKeyed busy_table
unfolding are_distinct lacks ℕ_discrete key_dec str_dec
busy-IsKeyed = record {
  distinct_keys = Distinct-of row_key key_dec busy_table refl;
  distinct_ids = Distinct-of row_id ℕ_discrete busy_table refl;
}

healthy_upserts :
    (x : Models.Suggestion) (t : Db) → ((sqlite_storage healthy).upsert_suggestion x t).0 ≡ none
unfolding sqlite_storage upsert_suggestion count_affected insert_suggestion exec
healthy_upserts x t = ground arith

-- The resolved issue is reported again.
suggest-opens_reported_example :
    IsOpen
      (1, "slow_query", "query:9")
      (suggest marshal_text
        (sqlite_storage healthy)
        as_given
        rules
        (some analysis)
        busy).1.suggestions
unfolding sqlite_storage get_suggestions_by_status
suggest-opens_reported_example =
    suggest-opens_reported marshal_text (sqlite_storage healthy) as_given as_given-IsOrder rules
      analysis busy reported "{}" busy-IsKeyed reported_once refl refl healthy_upserts
