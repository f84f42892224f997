-- ===== src/Suggester/Store.antt =====
-- internal/suggester/suggester.go, the Storage interface: its operations with what the suggester may
-- rely on. `rows` is the suggestions table behind the interface.
use Prim.Native.String.{String}
use better_pg_keeper.Common.{ℕ, ◌≡◌, ◌≢◌, ◌⊎◌, Option, none, List}
use better_pg_keeper.Models.{Suggestion, Status}
use better_pg_keeper.Storage.Suggestions.{upsert_rows, resolve_rows, rows_by_status}

pub record Storage (S : Type 0) : Type 0 where
  pub rows : S → List Suggestion
  -- The operations: an error or none, and the state after the call.
  pub upsert_suggestion : Suggestion → S → Option String × S
  pub get_suggestions_by_status : ℕ → Status → S → (Option String × List Suggestion) × S
  pub resolve_suggestion : ℕ → S → Option String × S
  -- An upsert happens, or fails and leaves the table alone; one that returns no error happened.
  pub upserted :
      (sug : Suggestion) (s : S)
      → (now : ℕ) × ((rows (upsert_suggestion sug s).1 ≡ upsert_rows now sug (rows s))
          ⊎ ((upsert_suggestion sug s).0 ≢ none) × (rows (upsert_suggestion sug s).1 ≡ rows s))
  pub resolved_row :
      (id : ℕ) (s : S)
      → (now : ℕ) × ((rows (resolve_suggestion id s).1 ≡ resolve_rows now id (rows s))
          ⊎ ((resolve_suggestion id s).0 ≢ none) × (rows (resolve_suggestion id s).1 ≡ rows s))
  pub selected :
      (instance : ℕ) (status : Status) (s : S)
      → ((get_suggestions_by_status instance status s).0.0 ≡ none
          → (get_suggestions_by_status instance status s).0.1
            ≡ rows_by_status instance status (rows s))
        × (rows (get_suggestions_by_status instance status s).1 ≡ rows s)
