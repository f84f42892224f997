-- ===== src/Storage/Suggestions/Keys.antt =====
-- internal/storage/sqlite/storage.go: the keys of the suggestions table. No operation makes two rows
-- of one issue, or two rows with one id.
use better_pg_keeper.Common.{
  ℕ, ◌<◌, ◌≡◌, refl, ◌≢◌, inl, inr, List, [], ◌∷◌, arith, All, All-mono, Distinct, Distinct-snoc,
  Distinct-map, ne_of_find_by, Option-cases, update_at, update_at-Distinct,
}
use better_pg_keeper.Models.{Suggestion}
use better_pg_keeper.Storage.Suggestions.{
  row_key, row_id, key_dec, row_by_key, refresh, next_id, new_row, update_rows, insert_row,
  upsert_rows, resolve_row, resolve_rows, dismiss_rows,
}

pub record IsKeyed (rows : List Suggestion) : Type 0 where
  pub distinct_keys : Distinct row_key rows
  pub distinct_ids : Distinct row_id rows

lt-next_id : (rows : List Suggestion) → All (λ r. r.id < next_id rows) rows
unfolding next_id
lt-next_id [] = tt
lt-next_id (r ∷ rs) = (
  omega arith,
  All-mono (λ s. s.id < next_id rs) (λ s. s.id < next_id (r ∷ rs)) (λ s h. omega arith) rs
      (lt-next_id rs),
)

ne-next_id : (rows : List Suggestion) → All (λ r. row_id r ≢ next_id rows) rows
ne-next_id rows =
    All-mono (λ s. s.id < next_id rows) (λ s. row_id s ≢ next_id rows) (λ s h. omega arith) rows
      (lt-next_id rows)

pub resolve_row-key : (now : ℕ) (r : Suggestion) → row_key (resolve_row now r) ≡ row_key r
unfolding resolve_row
resolve_row-key now r = ground arith

pub resolve_row-id : (now : ℕ) (r : Suggestion) → row_id (resolve_row now r) ≡ row_id r
unfolding resolve_row
resolve_row-id now r = ground arith

refresh-key : (now : ℕ) (sug r : Suggestion) → row_key (refresh now sug r) ≡ row_key r
unfolding refresh
refresh-key now sug r = refl

update_rows-IsKeyed :
    (now : ℕ) (sug : Suggestion) {rows : List Suggestion}
    → IsKeyed rows
    → IsKeyed (update_rows now sug rows)
unfolding update_rows update_at
update_rows-IsKeyed now sug {rows} v = record {
  distinct_keys =
      update_at-Distinct row_key key_dec (row_key sug) (refresh now sug) (refresh-key now sug) rows
        v.distinct_keys;
  distinct_ids =
      Distinct-map row_id _ (λ r. ground (arith, key_dec (row_key r) (row_key sug))) rows
        v.distinct_ids;
}

insert_row-IsKeyed :
    (now : ℕ) (sug : Suggestion) {rows : List Suggestion}
    → All (λ r. row_key r ≢ row_key sug) rows
    → IsKeyed rows
    → IsKeyed (insert_row now sug rows)
unfolding insert_row new_row
insert_row-IsKeyed now sug {rows} h v = record {
  distinct_keys = Distinct-snoc row_key rows _ h v.distinct_keys;
  distinct_ids = Distinct-snoc row_id rows _ (ne-next_id rows) v.distinct_ids;
}

-- An upsert makes no second row of an issue, and gives a new row an id of its own.
pub upsert_rows-IsKeyed :
    (now : ℕ) (sug : Suggestion) {rows : List Suggestion}
    → IsKeyed rows
    → IsKeyed (upsert_rows now sug rows)
unfolding upsert_rows row_by_key
upsert_rows-IsKeyed now sug {rows} v = elim (Option-cases (row_by_key (row_key sug) rows)) [
  | inl e ↦
      rw (e, upsert_rows)
        (insert_row-IsKeyed now sug (ne_of_find_by row_key key_dec (row_key sug) rows e) v)
  | inr (r, e) ↦ rw (e, upsert_rows) (update_rows-IsKeyed now sug v)
]

pub resolve_rows-IsKeyed :
    (now id : ℕ) {rows : List Suggestion} → IsKeyed rows → IsKeyed (resolve_rows now id rows)
unfolding resolve_rows update_at
resolve_rows-IsKeyed now id {rows} v = record {
  distinct_keys =
      Distinct-map row_key _ (λ r. ground (arith, resolve_row-key now r)) rows v.distinct_keys;
  distinct_ids =
      Distinct-map row_id _ (λ r. ground (arith, resolve_row-id now r)) rows v.distinct_ids;
}

pub dismiss_rows-IsKeyed :
    (now id : ℕ) {rows : List Suggestion} → IsKeyed rows → IsKeyed (dismiss_rows now id rows)
unfolding dismiss_rows update_at
dismiss_rows-IsKeyed now id {rows} v = record {
  distinct_keys = Distinct-map row_key _ (λ r. ground arith) rows v.distinct_keys;
  distinct_ids = Distinct-map row_id _ (λ r. ground arith) rows v.distinct_ids;
}
