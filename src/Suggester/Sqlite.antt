-- ===== src/Suggester/Sqlite.antt =====
-- internal/storage/sqlite/storage.go as the Storage of internal/suggester/suggester.go: the suggestion
-- operations keep what the suggester relies on, whatever statements fail.
use Prim.Native.String.{String}
use better_pg_keeper.Common.{
  ℕ, ◌+◌, ◌≡◌, ◌≢◌, refl, ◌⊎◌, inl, inr, Option, none, List, arith, update_at_ne, ne_of_find_by,
  Option-cases,
}
use better_pg_keeper.Models.{Suggestion, Status}
use better_pg_keeper.Storage.Db.{Environment, Db, tick, exec}
use better_pg_keeper.Storage.Suggestions.{
  row_key, key_dec, refresh, row_by_key, update_rows, upsert_rows, resolve_rows, rows_by_status,
}
use better_pg_keeper.Storage.Suggestions.Ops.{
  insert_suggestion, count_affected, upsert_suggestion, get_suggestions_by_status,
  resolve_suggestion,
}
use better_pg_keeper.Suggester.Store.{Storage}

update_rows_absent :
    (now : ℕ) (sug : Suggestion) (rows : List Suggestion)
    → row_by_key (row_key sug) rows ≡ none
    → update_rows now sug rows ≡ rows
unfolding update_rows row_by_key
update_rows_absent now sug rows h =
    update_at_ne row_key key_dec (row_key sug) (refresh now sug) rows
      (ne_of_find_by row_key key_dec (row_key sug) rows h)

module _ (env : Environment) where
  -- The outcome of an upsert by the clock reading `now`.
  abbrev pub UpsertedAt : ℕ → Suggestion → List Suggestion → Option String × Db → Type 0
  UpsertedAt now sug rows r =
      (r.1.suggestions ≡ upsert_rows now sug rows) ⊎ (r.0 ≢ none) × (r.1.suggestions ≡ rows)

  count_affected-Upserted :
      (now : ℕ) (sug : Suggestion) (before db : Db)
      → db.suggestions ≡ update_rows now sug before.suggestions
      → UpsertedAt now sug before.suggestions (count_affected env now sug before db)
  unfolding count_affected insert_suggestion exec tick upsert_rows
  count_affected-Upserted now sug before db h =
      elim (Option-cases (row_by_key (row_key sug) before.suggestions)) [
        | inl new ↦ ground (arith, new, h, update_rows_absent now sug before.suggestions new)
        | inr (r, old) ↦ ground (arith, old, h)
      ]

  pub upsert_suggestion-Upserted :
      (sug : Suggestion) (db : Db)
      → (now : ℕ) × UpsertedAt now sug db.suggestions (upsert_suggestion env sug db)
  unfolding upsert_suggestion exec tick
  upsert_suggestion-Upserted sug db =
      let now = env.clock db.statements in
      (
        now,
        ground (
          arith,
          count_affected-Upserted now sug db
              (record db {
                suggestions = update_rows now sug db.suggestions;
                statements = db.statements + 1;
              })
              refl,
        ),
      )

  pub resolve_suggestion-Resolved :
      (id : ℕ) (db : Db)
      → (now : ℕ) × (((resolve_suggestion env id db).1.suggestions
            ≡ resolve_rows now id db.suggestions)
          ⊎ ((resolve_suggestion env id db).0 ≢ none)
            × ((resolve_suggestion env id db).1.suggestions ≡ db.suggestions))
  unfolding resolve_suggestion tick
  resolve_suggestion-Resolved id db = (env.clock db.statements, ground arith)

  pub get-selected :
      (instance : ℕ) (status : Status) (db : Db)
      → ((get_suggestions_by_status env instance status db).0.0 ≡ none
          → (get_suggestions_by_status env instance status db).0.1
            ≡ rows_by_status instance status db.suggestions)
        × ((get_suggestions_by_status env instance status db).1.suggestions ≡ db.suggestions)
  unfolding get_suggestions_by_status tick
  get-selected instance status db = (λ e. ground arith, ground arith)

  unfoldable pub sqlite_storage : Storage Db
  unfolding upsert_suggestion get_suggestions_by_status resolve_suggestion
  sqlite_storage = record {
    rows = λ db. db.suggestions;
    upsert_suggestion = upsert_suggestion env;
    get_suggestions_by_status = get_suggestions_by_status env;
    resolve_suggestion = resolve_suggestion env;
    upserted = upsert_suggestion-Upserted;
    resolved_row = resolve_suggestion-Resolved;
    selected = get-selected;
  }
