-- ===== src/Storage/Suggestions/Lookup.antt =====
-- internal/storage/sqlite/storage.go: what a row reads as after each suggestion operation, by its id and by
-- its issue.
use better_pg_keeper.Common.{
  ℕ, ◌≡◌, refl, ite, inl, inr, none, some, List, arith, find_by-map, find_by-append,
  find_by-update_at, update_at, find_by_All, ne_of_find_by, if_neg, ◌≢◌, Option-cases, ℕ_discrete,
}
use better_pg_keeper.Models.{Suggestion}
use better_pg_keeper.Storage.Suggestions.Keys.{resolve_row-id}
use better_pg_keeper.Storage.Suggestions.{
  row_key, row_id, key_dec, refresh, update_rows, insert_row, upsert_rows, resolve_row,
  resolve_rows, row_by_id, row_by_key,
}

-- What an upsert leaves of a row that was there.
abbrev pub touched : ℕ → Suggestion → Suggestion → Suggestion
touched now sug r = ite (key_dec (row_key r) (row_key sug)) (refresh now sug r) r

touched-id : (now : ℕ) (sug r : Suggestion) → row_id (touched now sug r) ≡ row_id r
unfolding refresh
touched-id now sug r = ground arith

pub row_by_id-upsert_rows :
    (now id : ℕ) (sug : Suggestion) (rows : List Suggestion) {r : Suggestion}
    → row_by_id id rows ≡ some r
    → row_by_id id (upsert_rows now sug rows) ≡ some (touched now sug r)
unfolding row_by_id upsert_rows update_rows insert_row update_at
row_by_id-upsert_rows now id sug rows {r} h = elim (Option-cases (row_by_key (row_key sug) rows)) [
  | inl e ↦
      let fresh =
        find_by_All row_id ℕ_discrete (λ y. row_key y ≢ row_key sug) id rows
          (ne_of_find_by row_key key_dec (row_key sug) rows e) h in
      rw (e, upsert_rows)
        (rw
          (
            find_by-append row_id ℕ_discrete id rows,
            h,
            if_neg (key_dec (row_key r) (row_key sug)) fresh,
          )
          refl)
  | inr (x, e) ↦
      rw (e, upsert_rows)
        (rw (find_by-map row_id ℕ_discrete id (touched now sug) (touched-id now sug) rows, h) refl)
]

pub row_by_id-resolve_rows :
    (now i j : ℕ) (rows : List Suggestion)
    → row_by_id j (resolve_rows now i rows) ≡ elim (row_by_id j rows) [
      | none ↦ none
      | some r ↦ some (ite (ℕ_discrete i j) (resolve_row now r) r)
    ]
unfolding row_by_id resolve_rows
row_by_id-resolve_rows now i j rows =
    find_by-update_at row_id ℕ_discrete i j (resolve_row now) (λ r. resolve_row-id now r) rows
