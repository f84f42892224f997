-- ===== src/Suggester/Suggest/Safety.antt =====
-- internal/suggester/suggester.go, Suggester.Suggest: a collection gap resolves nothing.
use Prim.Native.String.{String}
use better_pg_keeper.Common.{
  IsOrder, ℕ, ◌≡◌, ◌≢◌, refl, ◌⊎◌, inl, if_neg, true, some, List, arith, All, All-filter,
  All-sort_by, find_by_self, ℕ_discrete,
}
use better_pg_keeper.Models
use better_pg_keeper.Models.{Status, active, resolved}
use better_pg_keeper.Analyzer.Coverage.{AnalysisResult}
use better_pg_keeper.Storage.Suggestions.{
  row_id, refresh, row_by_id, upsert_rows, resolve_rows, rows_by_status, has_status, listed_before,
}
use better_pg_keeper.Storage.Suggestions.Keys.{IsKeyed}
use better_pg_keeper.Storage.Suggestions.Lookup.{row_by_id-upsert_rows, row_by_id-resolve_rows}
use better_pg_keeper.Suggester.Rule.{Rule}
use better_pg_keeper.Suggester.Store.{Storage}
use better_pg_keeper.Suggester.Collect.{Collected, run_rules, collected_nothing}
use better_pg_keeper.Suggester.Suggest.{Existing, held_back, suggest}
use better_pg_keeper.Suggester.Suggest.Steps.{suggest-keeps}
use better_pg_keeper.Suggester.Suggest.Resolvable.{IsSilent, unset_at_start}
use better_pg_keeper.Suggester.Suggest.Hidden.{IsHiding, IsHeldBack, run_rules-holds_back}

-- The row with the id is there and has the status.
pub record Reads (id : ℕ) (status : Status) (rows : List Models.Suggestion) : Type 0 where
  pub row : Models.Suggestion
  pub found : row_by_id id rows ≡ some row
  pub has : row.status ≡ status

pub upsert_rows-Reads :
    (id now : ℕ) (sug : Models.Suggestion) (rows : List Models.Suggestion)
    → Reads id active rows
    → Reads id active (upsert_rows now sug rows)
unfolding refresh
upsert_rows-Reads id now sug rows a = record {
  row = _;
  found = row_by_id-upsert_rows now id sug rows a.found;
  has = ground (arith, a.has);
}

pub resolve_rows-Reads_ne :
    (id now i : ℕ) (status : Status) (rows : List Models.Suggestion)
    → i ≢ id
    → Reads id status rows
    → Reads id status (resolve_rows now i rows)
resolve_rows-Reads_ne id now i status rows other a = record {
  row = a.row;
  found = rw (row_by_id-resolve_rows now i id rows, a.found, if_neg (ℕ_discrete i id) other) refl;
  has = a.has;
}

-- What the storage lists stands in the table under its id.
pub listed_rows :
    (instance : ℕ) (status : Status) (rows : List Models.Suggestion)
    → IsKeyed rows
    → All (λ r. row_by_id r.id rows ≡ some r) (rows_by_status instance status rows)
unfolding rows_by_status row_by_id
listed_rows instance status rows v = All-sort_by listed_before _ _ (
    All-filter _ (has_status instance status) rows
      (find_by_self row_id ℕ_discrete rows v.distinct_ids))

held_back_of_hidden :
    {M : Type 0} (c : Collected M) (sug : Models.Suggestion)
    → IsHeldBack sug.rule_id sug.target_object c
    → held_back c sug ≡ true
unfolding held_back
held_back_of_hidden c sug h = ground (arith, h)

module _ {F M S : Type 0} (marshal : M → String ⊎ String) (storage : Storage S)
    (order : List Existing → List Existing) (iteration : IsOrder order) where
  -- A collection gap resolves nothing: an active suggestion is still active after the run if each rule
  -- with its rule id had missing or stale data, failed, or names its target among those that it could not
  -- observe, whatever the other rules report and whichever calls of the storage fail.
  pub suggest-keeps_unobserved :
      (rules : List (Rule F M)) (analysis : AnalysisResult F) (s : S) (r : Models.Suggestion)
      → IsKeyed (storage.rows s)
      → row_by_id r.id (storage.rows s) ≡ some r
      → r.status ≡ active
      → All
          (λ rule.
            rule.id ≡ r.rule_id → IsSilent analysis rule ⊎ IsHiding analysis r.target_object rule)
          rules
      → Reads r.id active (storage.rows (suggest marshal storage order rules (some analysis) s).1)
  suggest-keeps_unobserved rules analysis s r v found act blind =
      let c = run_rules analysis rules collected_nothing in
      let held =
        run_rules-holds_back analysis r.rule_id r.target_object rules collected_nothing blind
          (inl (unset_at_start r.rule_id)) in
      suggest-keeps marshal storage order iteration rules analysis (Reads r.id active)
        (λ e. row_by_id e.1.id (storage.rows s) ≡ some e.1)
        (λ now sug rows _. upsert_rows-Reads r.id now sug rows)
        (λ now e rows q free. resolve_rows-Reads_ne r.id now e.1.id active rows λ same.
          let e_is_r : e.1 ≡ r = cc (q, found, same) in
          cc (free, held_back_of_hidden c e.1 (rw e_is_r held)))
        s (listed_rows analysis.instance_id active (storage.rows s) v)
        (record { row = r; found = found; has = act })
