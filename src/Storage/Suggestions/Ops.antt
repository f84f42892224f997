-- ===== src/Storage/Suggestions/Ops.antt =====
-- internal/storage/sqlite/storage.go: the suggestion operations of the storage, statement by
-- statement. Each returns the error, if any, and the database after it.
use Prim.Native.String.{String, ◌++◌}
use better_pg_keeper.Common.{ℕ, Option, none, some, List}
use better_pg_keeper.Models.{Suggestion, Status}
use better_pg_keeper.Storage.Db.{Environment, Db, tick, exec}
use better_pg_keeper.Storage.Suggestions.{
  row_key, row_by_key, update_rows, insert_row, resolve_rows, dismiss_rows, rows_by_status,
}

module _ (env : Environment) where
  unfoldable pub insert_suggestion : ℕ → Suggestion → Db → Option String × Db
  unfolding exec
  insert_suggestion now sug =
      exec env "inserting suggestion: "
        (λ db. record db { suggestions = insert_row now sug db.suggestions })

  -- RowsAffected may fail too, and the update is then done.
  unfoldable pub count_affected : ℕ → Suggestion → (before : Db) → Db → Option String × Db
  unfolding insert_suggestion row_by_key exec
  count_affected now sug before db = elim (env.fails db.statements) [
    | some e ↦ (some ("getting rows affected: " ++ e), tick db)
    | none ↦ elim (row_by_key (row_key sug) before.suggestions) [
      | some _ ↦ (none, tick db)
      | none ↦ insert_suggestion now sug (tick db)
    ]
  ]

  unfoldable pub upsert_suggestion : Suggestion → Db → Option String × Db
  unfolding count_affected exec
  upsert_suggestion sug db =
      let now = env.clock db.statements in
      let (failed, db') =
        exec env "updating suggestion: "
          (λ d. record d { suggestions = update_rows now sug d.suggestions }) db in
      elim failed [ some e ↦ (some e, db') | none ↦ count_affected now sug db db' ]

  unfoldable pub get_suggestions_by_status :
      ℕ → Status → Db → (Option String × List Suggestion) × Db
  unfolding tick
  get_suggestions_by_status instance status db = elim (env.fails db.statements) [
    | some e ↦ ((some ("querying suggestions: " ++ e), List.[]), tick db)
    | none ↦ ((none, rows_by_status instance status db.suggestions), tick db)
  ]

  unfoldable pub resolve_suggestion : ℕ → Db → Option String × Db
  unfolding exec
  resolve_suggestion id db =
      let now = env.clock db.statements in
      exec env "resolving suggestion: "
        (λ d. record d { suggestions = resolve_rows now id d.suggestions }) db

  unfoldable pub dismiss_suggestion : ℕ → Db → Option String × Db
  unfolding exec
  dismiss_suggestion id db =
      let now = env.clock db.statements in
      exec env "dismissing suggestion: "
        (λ d. record d { suggestions = dismiss_rows now id d.suggestions }) db
