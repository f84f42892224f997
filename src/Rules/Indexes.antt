-- ===== src/Rules/Indexes.antt =====
-- internal/suggester/rules/duplicate_index.go and unused_index.go: DuplicateIndexRule.Evaluate and
-- UnusedIndexRule.Evaluate, over the index findings of an analysis.
pub mod Safe
use Prim.Native.String.{String}
use better_pg_keeper.Common.{
  ℕ, ◌/◌, ◌||◌, Bool, true, false, List, [], ◌∷◌, str_dec, ite, sprint, decimal, if◌then◌else◌,
}
use better_pg_keeper.Models.{Severity, warning, info}
use better_pg_keeper.Analyzer.Indexes.{IndexIssue, unused, duplicate, day}
use better_pg_keeper.Suggester.Rule.{Suggestion}
use better_pg_keeper.Rules.Shared.{Metadata, str, int, flag, quote_qualified, format_bytes}

-- The three parts of the name of an index.
abbrev pub target_of : IndexIssue → String
target_of issue = sprint (issue.schema_name ∷ "." ∷ issue.table_name ∷ "." ∷ issue.index_name ∷ [])

unfoldable pub drop_index_sql : IndexIssue → String
unfolding quote_qualified
drop_index_sql issue = sprint (
    "`DROP INDEX CONCURRENTLY` does not block reads or writes, but cannot run inside a transaction block:\n"
    ∷ "```sql\nDROP INDEX CONCURRENTLY "
    ∷ quote_qualified issue.schema_name issue.index_name
    ∷ ";\n```\n"
    ∷ [])

unfoldable pub describe_duplicate : IndexIssue → String
unfolding format_bytes drop_index_sql decimal
describe_duplicate issue = sprint (
    (if issue.exact_duplicate
      then sprint (
          "Index `"
          ∷ target_of issue
          ∷ "` has the same definition as `"
          ∷ issue.duplicate_of
          ∷ "`. PostgreSQL maintains both on every write but only needs one.\n\n"
          ∷ [])
      else sprint (
          "The columns of index `"
          ∷ target_of issue
          ∷ "` are the leading columns of `"
          ∷ issue.duplicate_of
          ∷ "`, which can serve the same lookups.\n\n"
          ∷ []))
    ∷ "**Definitions:**\n- Candidate: `"
    ∷ issue.index_def
    ∷ "`\n- Retained: `"
    ∷ issue.duplicate_of_def
    ∷ "`\n\n**Usage:**\n- Candidate index scans: "
    ∷ decimal issue.idx_scan
    ∷ "\n- Retained index scans: "
    ∷ decimal issue.duplicate_of_idx_scan
    ∷ "\n- Space saved by dropping: "
    ∷ format_bytes issue.space_savings
    ∷ "\n\n**Recommendation:**\n"
    ∷ (if issue.exact_duplicate
        then "Drop the candidate. Queries that used it will use the retained index, which is identical.\n\n"
        else "Dropping the candidate is usually safe: queries that used it will use the retained index instead. That index is wider, so those queries may read slightly more pages. Check the most frequent queries on this table afterwards.\n\n")
    ∷ drop_index_sql issue
    ∷ [])

unfoldable pub describe_unused : IndexIssue → String
unfolding format_bytes drop_index_sql decimal str_dec
describe_unused issue =
    let days = decimal (issue.stats_window / day) in
    sprint (
      "Index `"
      ∷ target_of issue
      ∷ "` has had 0 scans in the "
      ∷ days
      ∷ " days PostgreSQL has been counting them.\n\n**Index Details:**\n- Table: "
      ∷ issue.schema_name
      ∷ "."
      ∷ issue.table_name
      ∷ "\n"
      ∷ ite (str_dec issue.index_def "") ""
          (sprint ("- Definition: `" ∷ issue.index_def ∷ "`\n" ∷ []))
      ∷ "- Index size: "
      ∷ format_bytes issue.index_size
      ∷ "\n- Index scans: "
      ∷ decimal issue.idx_scan
      ∷ " in "
      ∷ days
      ∷ " days\n\n**Recommendation:**\nEvery write to the table also updates this index, and it takes disk space and cache. If nothing needs it, dropping it speeds up writes.\n\n**Before dropping:**\n- Scans on read replicas are not visible here. If replicas serve reads, check `pg_stat_user_indexes` on each of them.\n- Consider rare jobs that run less often than the window above (quarterly reports, yearly archiving).\n- Save the definition above so the index can be recreated if something slows down.\n\n"
      ∷ drop_index_sql issue
      ∷ [])

module _ {R : Type 0} where
  unfoldable pub duplicate_suggestion : IndexIssue → Suggestion (Metadata R)
  unfolding describe_duplicate
  duplicate_suggestion issue = record {
    rule_id = "duplicate_index";
    severity = if issue.exact_duplicate then warning else info;
    title =
        if issue.exact_duplicate
        then sprint
            ("Duplicate index: " ∷ issue.index_name ∷ " is identical to " ∷ issue.duplicate_of ∷ [])
        else sprint
            ("Redundant index: " ∷ issue.index_name ∷ " is covered by " ∷ issue.duplicate_of ∷ []);
    description = describe_duplicate issue;
    target_object = target_of issue;
    metadata =
        ("schema_name", str issue.schema_name)
        ∷ ("table_name", str issue.table_name)
        ∷ ("index_name", str issue.index_name)
        ∷ ("duplicate_of", str issue.duplicate_of)
        ∷ ("idx_scan", int issue.idx_scan)
        ∷ ("duplicate_of_idx_scan", int issue.duplicate_of_idx_scan)
        ∷ ("index_size", int issue.index_size)
        ∷ ("space_savings", int issue.space_savings)
        ∷ ("detection_method", str "index_definition")
        ∷ ("exact_duplicate", flag issue.exact_duplicate)
        ∷ ("index_def", str issue.index_def)
        ∷ ("duplicate_of_def", str issue.duplicate_of_def)
        ∷ [];
  }

  -- DuplicateIndexRule.Evaluate
  unfoldable pub evaluate_duplicates : List IndexIssue → List (Suggestion (Metadata R))
  unfolding duplicate_suggestion
  evaluate_duplicates [] = []
  evaluate_duplicates (issue ∷ issues) =
      let rest = evaluate_duplicates issues in
      elim issue.issue_type [ duplicate ↦ duplicate_suggestion issue ∷ rest | unused ↦ rest ]

  unfoldable pub unused_suggestion : IndexIssue → Suggestion (Metadata R)
  unfolding describe_unused
  unused_suggestion issue = record {
    rule_id = "unused_index";
    severity = issue.severity;
    title = sprint ("Unused index: " ∷ issue.index_name ∷ []);
    description = describe_unused issue;
    target_object = target_of issue;
    metadata =
        ("schema_name", str issue.schema_name)
        ∷ ("table_name", str issue.table_name)
        ∷ ("index_name", str issue.index_name)
        ∷ ("index_size", int issue.index_size)
        ∷ ("idx_scan", int issue.idx_scan)
        ∷ ("is_unique", flag issue.is_unique)
        ∷ ("is_primary", flag issue.is_primary)
        ∷ ("space_savings", int issue.space_savings)
        ∷ ("stats_days", int (issue.stats_window / day))
        ∷ ("index_def", str issue.index_def)
        ∷ [];
  }

  -- UnusedIndexRule.Evaluate
  unfoldable pub evaluate_unused : List IndexIssue → List (Suggestion (Metadata R))
  unfolding unused_suggestion
  evaluate_unused [] = []
  evaluate_unused (issue ∷ issues) =
      let rest = evaluate_unused issues in
      elim issue.issue_type [
        | duplicate ↦ rest
        | unused ↦
            if issue.is_primary || issue.is_unique then rest else unused_suggestion issue ∷ rest
      ]
