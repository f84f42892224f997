-- ===== src/Suggester/Suggest/Frame.antt =====
-- internal/suggester/suggester.go, Suggester.Suggest: what a run leaves as it was.
use Prim.Native.String.{String}
use better_pg_keeper.Common.{
  IsOrder, ℕ, ◌≡◌, ◌≢◌, refl, ap, ◌∙◌, ◌⊎◌, ite, if_neg, some, List, arith, All-of, All-of_Memᴰ,
  All-Memᴰ, ℕ_discrete,
}
use better_pg_keeper.Models
use better_pg_keeper.Models.{active, dismissed, status_dec}
use better_pg_keeper.Analyzer.Coverage.{AnalysisResult}
use better_pg_keeper.Storage.Suggestions.{
  row_key, key_dec, refresh, row_by_id, upsert_rows, resolve_rows, resolve_row, rows_by_status,
}
use better_pg_keeper.Storage.Suggestions.Keys.{IsKeyed, upsert_rows-IsKeyed, resolve_rows-IsKeyed}
use better_pg_keeper.Storage.Suggestions.Listed.{listed_instance}
use better_pg_keeper.Storage.Suggestions.Lookup.{row_by_id-upsert_rows, row_by_id-resolve_rows}
use better_pg_keeper.Suggester.Rule.{Rule}
use better_pg_keeper.Suggester.Store.{Storage}
use better_pg_keeper.Suggester.Suggest.{Existing, suggest}
use better_pg_keeper.Suggester.Suggest.Steps.{suggest-keeps}
use better_pg_keeper.Suggester.Suggest.Safety.{Reads, listed_rows}

upsert_rows-keeps_dismissed :
    (id now : ℕ) (sug : Models.Suggestion) (rows : List Models.Suggestion)
    → Reads id dismissed rows
    → Reads id dismissed (upsert_rows now sug rows)
unfolding refresh
upsert_rows-keeps_dismissed id now sug rows a = record {
  row = _;
  found = row_by_id-upsert_rows now id sug rows a.found;
  has = ground (arith, a.has);
}

resolve_rows-keeps_dismissed :
    (id now i : ℕ) (rows : List Models.Suggestion)
    → Reads id dismissed rows
    → Reads id dismissed (resolve_rows now i rows)
unfolding resolve_row
resolve_rows-keeps_dismissed id now i rows a = record {
  row = ite (ℕ_discrete i id) (resolve_row now a.row) a.row;
  found = rw (row_by_id-resolve_rows now i id rows, a.found) refl;
  has = ground (arith, a.has);
}

-- The row of another instance is the same after an upsert.
upsert_rows_other :
    (now : ℕ) (sug r : Models.Suggestion) (rows : List Models.Suggestion)
    → r.instance_id ≢ sug.instance_id
    → row_by_id r.id rows ≡ some r
    → row_by_id r.id (upsert_rows now sug rows) ≡ some r
upsert_rows_other now sug r rows other h =
    row_by_id-upsert_rows now r.id sug rows h
    ∙ ap some (if_neg (key_dec (row_key r) (row_key sug)) (λ e. other (ap (λ k. k.0) e)) _ _)

resolve_rows_other :
    (now i : ℕ) (r : Models.Suggestion) (rows : List Models.Suggestion)
    → i ≢ r.id
    → row_by_id r.id rows ≡ some r
    → row_by_id r.id (resolve_rows now i rows) ≡ some r
resolve_rows_other now i r rows other h =
    rw (row_by_id-resolve_rows now i r.id rows, h, if_neg (ℕ_discrete i r.id) other) refl

module _ {F M S : Type 0} (marshal : M → String ⊎ String) (storage : Storage S)
    (order : List Existing → List Existing) (iteration : IsOrder order) where
  -- A run keeps the table well-formed: if no two rows have one issue or one id before it, none have after
  -- it, whatever the rules report and whichever calls of the storage fail.
  pub suggest-IsKeyed :
      (rules : List (Rule F M)) (analysis : AnalysisResult F) (s : S)
      → IsKeyed (storage.rows s)
      → IsKeyed (storage.rows (suggest marshal storage order rules (some analysis) s).1)
  suggest-IsKeyed rules analysis s v =
      suggest-keeps marshal storage order iteration rules analysis (λ rows. IsKeyed rows)
        (λ _. Unit {0}) (λ now sug rows _ k. upsert_rows-IsKeyed now sug k)
        (λ now e rows _ _ k. resolve_rows-IsKeyed now e.1.id k) s
        (All-of (λ _. Unit {0}) (λ _. tt) _) v

  -- A dismissed suggestion is still dismissed after the run, even if a rule reports it again.
  pub suggest-keeps_dismissed :
      (rules : List (Rule F M)) (analysis : AnalysisResult F) (s : S) (r : Models.Suggestion)
      → row_by_id r.id (storage.rows s) ≡ some r
      → r.status ≡ dismissed
      → Reads r.id dismissed
          (storage.rows (suggest marshal storage order rules (some analysis) s).1)
  suggest-keeps_dismissed rules analysis s r found gone =
      suggest-keeps marshal storage order iteration rules analysis (Reads r.id dismissed)
        (λ _. Unit {0}) (λ now sug rows _. upsert_rows-keeps_dismissed r.id now sug rows)
        (λ now e rows _ _. resolve_rows-keeps_dismissed r.id now e.1.id rows) s
        (All-of (λ _. Unit {0}) (λ _. tt) _) (record { row = r; found = found; has = gone })

  -- A run for one instance leaves every row of every other instance exactly as it was. The ids of the
  -- table are distinct before it.
  pub suggest-leaves_others :
      (rules : List (Rule F M)) (analysis : AnalysisResult F) (s : S) (r : Models.Suggestion)
      → IsKeyed (storage.rows s)
      → row_by_id r.id (storage.rows s) ≡ some r
      → r.instance_id ≢ analysis.instance_id
      → row_by_id r.id (storage.rows (suggest marshal storage order rules (some analysis) s).1)
        ≡ some r
  suggest-leaves_others rules analysis s r v found other =
      let listed = rows_by_status analysis.instance_id active (storage.rows s) in
      let known = listed_rows analysis.instance_id active (storage.rows s) v in
      let here = listed_instance analysis.instance_id active (storage.rows s) in
      suggest-keeps marshal storage order iteration rules analysis
        (λ rows. row_by_id r.id rows ≡ some r)
        (λ e.
          (row_by_id e.1.id (storage.rows s) ≡ some e.1) × (e.1.instance_id ≡ analysis.instance_id))
        (λ now sug rows same. upsert_rows_other now sug r rows (λ e. other (e ∙ same)))
        (λ now e rows q _.
          resolve_rows_other now e.1.id r rows λ same. other (cc (q.0, q.1, found, same)))
        s
        (All-of_Memᴰ _ listed λ x m. (
          All-Memᴰ (λ y. row_by_id y.id (storage.rows s) ≡ some y) known m,
          All-Memᴰ (λ y. y.instance_id ≡ analysis.instance_id) here m,
        ))
        found
