-- ===== src/Suggester/Suggest/Reported.antt =====
-- internal/suggester/suggester.go, Suggester.Suggest: what an upsert and a resolution do to the row of an
-- issue.
use mathlib.Core.Path.{subst}
use better_pg_keeper.Common.{
  ite_cases, ℕ, ◌≡◌, ◌≢◌, refl, ◌∙◌, ◌⊎◌, inl, inr, ite, if_pos, if_neg, none, some, List, arith,
  find_by, find_by-append, find_by-update_at, find_by-map, find_by_self, find_by-key, find_by_All,
  ℕ_discrete, Option-cases, update_at,
}
use better_pg_keeper.Models
use better_pg_keeper.Models.{active, resolved}
use better_pg_keeper.Storage.Suggestions.{
  Key, row_key, row_id, key_dec, refresh, next_id, new_row, row_by_id, row_by_key, update_rows,
  insert_row, upsert_rows, resolve_row, resolve_rows,
}
use better_pg_keeper.Storage.Suggestions.Keys.{IsKeyed, resolve_row-key}

-- The issue has a row that is not resolved.
pub record IsOpen (k : Key) (rows : List Models.Suggestion) : Type 0 where
  pub row : Models.Suggestion
  pub found : row_by_key k rows ≡ some row
  pub has : row.status ≢ resolved

refresh-status : (now : ℕ) (sug r : Models.Suggestion) → (refresh now sug r).status ≢ resolved
unfolding refresh
refresh-status now sug r = λ h. ground (arith, h)

update_rows-IsOpen :
    (k : Key) (now : ℕ) (sug r : Models.Suggestion) (rows : List Models.Suggestion)
    → row_by_key k rows ≡ some r
    → (row_key sug ≡ k) ⊎ (r.status ≢ resolved)
    → IsOpen k (update_rows now sug rows)
unfolding update_rows row_by_key refresh
update_rows-IsOpen k now sug r rows found h = record {
  row = ite (key_dec (row_key sug) k) (refresh now sug r) r;
  found =
      find_by-update_at row_key key_dec (row_key sug) k (refresh now sug) (λ x. refl) rows
      ∙ rw found refl;
  has =
      ite_cases (λ (x : Models.Suggestion). x.status ≢ resolved) (key_dec (row_key sug) k)
        (refresh now sug r) r (λ _. refresh-status now sug r)
        (λ other. elim h [ inl same ↦ absurd (other same) | inr kept ↦ kept ]);
}

insert_row-IsOpen :
    (k : Key) (now : ℕ) (sug : Models.Suggestion) (rows : List Models.Suggestion)
    → row_key sug ≡ k
    → row_by_key k rows ≡ none
    → IsOpen k (insert_row now sug rows)
unfolding insert_row new_row row_by_key find_by
insert_row-IsOpen k now sug rows same absent = record {
  row = new_row (next_id rows) now sug;
  found =
      find_by-append row_key key_dec k rows _
      ∙ rw absent (if_pos (key_dec (row_key sug) k) same _ _);
  has = λ e. ground (arith, e);
}

pub upsert_rows-IsOpen :
    (k : Key) (now : ℕ) (sug : Models.Suggestion) (rows : List Models.Suggestion)
    → (row_key sug ≡ k) ⊎ IsOpen k rows
    → IsOpen k (upsert_rows now sug rows)
unfolding upsert_rows insert_row row_by_key
upsert_rows-IsOpen k now sug rows h = elim (Option-cases (row_by_key (row_key sug) rows)) [
  | inr (r, old) ↦
      rw (old, upsert_rows)
        (elim h [
          | inl same ↦
              update_rows-IsOpen k now sug r rows (subst (λ j. row_by_key j rows ≡ some r) same old)
                (inl same)
          | inr o ↦ update_rows-IsOpen k now sug o.row rows o.found (inr o.has)
        ])
  | inl new ↦
      rw (new, upsert_rows)
        (elim h [
          | inl same ↦
              insert_row-IsOpen k now sug rows same (subst (λ j. row_by_key j rows ≡ none) same new)
          | inr o ↦ record {
            row = o.row;
            found = find_by-append row_key key_dec k rows _ ∙ rw o.found refl;
            has = o.has;
          }
        ])
]

-- The resolution of another row.
pub resolve_rows-IsOpen :
    (k : Key) (now id : ℕ) (rows : List Models.Suggestion) (o : IsOpen k rows)
    → o.row.id ≢ id
    → IsOpen k (resolve_rows now id rows)
unfolding resolve_rows row_by_key update_at
resolve_rows-IsOpen k now id rows o other = record {
  row = o.row;
  found =
      find_by-map row_key key_dec k (λ r. ite (ℕ_discrete r.id id) (resolve_row now r) r)
        (λ r. ground (arith, resolve_row-key now r)) rows
      ∙ rw (o.found, if_neg (ℕ_discrete o.row.id id) other) refl;
  has = o.has;
}

-- The row of an issue stands in the table under its id, too.
pub open_by_id :
    (k : Key) (rows : List Models.Suggestion)
    → IsKeyed rows
    → (o : IsOpen k rows) → (row_by_id o.row.id rows ≡ some o.row) × (row_key o.row ≡ k)
unfolding row_by_id row_by_key
open_by_id k rows v o = (
  find_by_All row_key key_dec (λ r. find_by row_id ℕ_discrete (row_id r) rows ≡ some r) k rows
      (find_by_self row_id ℕ_discrete rows v.distinct_ids) o.found,
  find_by-key row_key key_dec k rows o.found,
)
