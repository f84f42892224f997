-- ===== src/Storage/Suggestions/Listed.antt =====
-- internal/storage/sqlite/storage.go, GetSuggestionsByStatus: which rows are listed.
use better_pg_keeper.Common.{
  ℕ, ◌≡◌, refl, true, some, List, arith, All, All-mono, All-filter, All-sort_by, All-Memᴰ,
  All-of_Memᴰ, Memᴰ, filter-All, filter-Memᴰ, sort_by-Memᴰ, find_by, find_by_self,
}
use better_pg_keeper.Models.{Suggestion, Status}
use better_pg_keeper.Storage.Suggestions.Keys.{IsKeyed}
use better_pg_keeper.Storage.Suggestions.{
  row_key, key_dec, has_status, listed_before, rows_by_status,
}

has_status-true :
    (instance : ℕ) (status : Status) (r : Suggestion)
    → r.instance_id ≡ instance
    → r.status ≡ status
    → has_status instance status r ≡ true
unfolding has_status
has_status-true instance status r e a = ground arith

instance_of_has_status :
    (instance : ℕ) (status : Status) (r : Suggestion)
    → has_status instance status r ≡ true
    → r.instance_id ≡ instance
unfolding has_status
instance_of_has_status instance status r h = ground arith

pub listed_Memᴰ :
    (status : Status) (rows : List Suggestion) (r : Suggestion)
    → r.status ≡ status
    → Memᴰ r rows
    → Memᴰ r (rows_by_status r.instance_id status rows)
unfolding rows_by_status
listed_Memᴰ status rows r a m = sort_by-Memᴰ listed_before _ (
    filter-Memᴰ (has_status r.instance_id status) rows
      (has_status-true r.instance_id status r refl a) m)

-- A property of every row is one of every listed row.
pub listed-All :
    (P : Suggestion → Type 0) (instance : ℕ) (status : Status) (rows : List Suggestion)
    → All P rows
    → All P (rows_by_status instance status rows)
unfolding rows_by_status
listed-All P instance status rows a =
    All-sort_by listed_before P _ (All-filter P (has_status instance status) rows a)

-- The listed rows are of the instance.
pub listed_instance :
    (instance : ℕ) (status : Status) (rows : List Suggestion)
    → All (λ r. r.instance_id ≡ instance) (rows_by_status instance status rows)
unfolding rows_by_status
listed_instance instance status rows =
    All-sort_by listed_before (λ r. r.instance_id ≡ instance) _
      (All-mono (λ r. has_status instance status r ≡ true) (λ r. r.instance_id ≡ instance)
        (instance_of_has_status instance status) _ (filter-All (has_status instance status) rows))

-- Of the listed rows, only `r` is of its issue.
pub listed_unique :
    (status : Status) (rows : List Suggestion) (r : Suggestion)
    → IsKeyed rows
    → Memᴰ r rows
    → All
        (λ x. x.rule_id ≡ r.rule_id → x.target_object ≡ r.target_object → x ≡ r)
        (rows_by_status r.instance_id status rows)
listed_unique status rows r v m =
    let listed = rows_by_status r.instance_id status rows in
    let by_key = find_by_self row_key key_dec rows v.distinct_keys in
    let Found : Suggestion → Type 0 = λ y. find_by row_key key_dec (row_key y) rows ≡ some y in
    let listed_found = listed-All Found r.instance_id status rows by_key in
    let here = listed_instance r.instance_id status rows in
    All-of_Memᴰ _ listed λ x mx rules targets.
      let x_found = All-Memᴰ Found listed_found mx in
      let r_found = All-Memᴰ Found by_key m in
      let x_here = All-Memᴰ (λ (y : Suggestion). y.instance_id ≡ r.instance_id) here mx in
      cc (x_found, r_found, x_here, rules, targets)
