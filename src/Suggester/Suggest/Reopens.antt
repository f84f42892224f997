-- ===== src/Suggester/Suggest/Reopens.antt =====
-- internal/suggester/suggester.go, Suggester.Suggest: every issue that a rule reports is open after the run.
use Prim.Native.String.{String}
use better_pg_keeper.Common.{
  ℕ, ◌≡◌, refl, ◌⊎◌, inr, none, some, List, [], All, All-mono, IsOrder, Memᴰ, index_by-All,
}
use better_pg_keeper.Models
use better_pg_keeper.Models.{active}
use better_pg_keeper.Analyzer.Coverage.{AnalysisResult}
use better_pg_keeper.Storage.Suggestions.{row_by_id}
use better_pg_keeper.Storage.Suggestions.Keys.{IsKeyed}
use better_pg_keeper.Suggester.Rule.{Suggestion, Rule}
use better_pg_keeper.Suggester.Store.{Storage}
use better_pg_keeper.Suggester.Collect.{Collected, run_rules, collected_nothing}
use better_pg_keeper.Suggester.Suggest.{
  Existing, key_of, Progress, build_existing, upsert_all, initial_result, apply_collected,
  suggest_analysis, suggest,
}
use better_pg_keeper.Suggester.Suggest.Steps.{upsert_all-keeps, resolve_all-keeps}
use better_pg_keeper.Suggester.Suggest.Safety.{listed_rows}
use better_pg_keeper.Suggester.Suggest.Reported.{IsOpen}
use better_pg_keeper.Suggester.Suggest.Opens.{
  IsTable, upsert_rows-IsTable, upsert_all-reports, resolution_spares,
}

module _ {M S : Type 0} (marshal : M → String ⊎ String) (storage : Storage S)
    (order : List Existing → List Existing) (iteration : IsOrder order)
    (succeeds : (x : Models.Suggestion) (t : S) → (storage.upsert_suggestion x t).0 ≡ none) where
  apply_collected-opens :
      (instance : ℕ) (c : Collected M) (listed : List Models.Suggestion) (s : S)
      (sug : Suggestion M) (json : String)
      → marshal sug.metadata ≡ inr json
      → Memᴰ sug c.all_suggestions
      → IsKeyed (storage.rows s)
      → All (λ r. row_by_id r.id (storage.rows s) ≡ some r) listed
      → IsOpen
          (instance, sug.rule_id, sug.target_object)
          (storage.rows (apply_collected marshal storage order instance c listed s).store)
  unfolding apply_collected build_existing
  apply_collected-opens instance c listed s sug json converts m v known =
      let before = storage.rows s in
      let existing = build_existing listed in
      let start : Progress S = record { result = initial_result c; still_active = []; store = s } in
      let p = upsert_all marshal storage instance existing c.all_suggestions start in
      let Listed : Existing → Type 0 =
        λ e. (row_by_id e.1.id before ≡ some e.1) × (e.0 ≡ key_of e.1) in
      let entries =
        index_by-All key_of Listed listed []
          (All-mono (λ r. row_by_id r.id before ≡ some r) (λ r. Listed (key_of r, r))
            (λ r h. (h, refl)) listed known)
          tt in
      let (o, set) =
        upsert_all-reports marshal storage succeeds instance existing sug json converts
          c.all_suggestions start (inr m) in
      let table =
        upsert_all-keeps storage (IsTable before) marshal instance existing
          (λ now x rows _. upsert_rows-IsTable before now x rows) c.all_suggestions start
          (v, (λ id r h. (r, h, refl))) in
      (resolve_all-keeps storage
        (λ rows. IsTable before rows × IsOpen (instance, sug.rule_id, sug.target_object) rows) c
        Listed p.still_active
        (λ now e rows q unset _ h.
          resolution_spares marshal storage succeeds instance existing sug json converts c before
            p.still_active set now e rows q unset h)
        (order existing) p (iteration.keeps Listed existing entries) ((table, o), refl)).0.1

module _ {F M S : Type 0} (marshal : M → String ⊎ String) (storage : Storage S)
    (order : List Existing → List Existing) (iteration : IsOrder order) where
  -- Each suggestion that the rules report has a row after the run, and the row is not resolved: it is new, or
  -- reopened, or was dismissed. The metadata of the suggestion can be rendered, the reading of the active rows
  -- succeeds, and the upserts never fail; the resolutions may fail.
  pub suggest-opens_reported :
      (rules : List (Rule F M)) (analysis : AnalysisResult F) (s : S) (sug : Suggestion M)
      (json : String)
      → IsKeyed (storage.rows s)
      → Memᴰ sug (run_rules analysis rules collected_nothing).all_suggestions
      → marshal sug.metadata ≡ inr json
      → (storage.get_suggestions_by_status analysis.instance_id active s).0.0 ≡ none
      → ((x : Models.Suggestion) (t : S) → (storage.upsert_suggestion x t).0 ≡ none)
      → IsOpen
          (analysis.instance_id, sug.rule_id, sug.target_object)
          (storage.rows (suggest marshal storage order rules (some analysis) s).1)
  unfolding suggest
  suggest-opens_reported rules analysis s sug json v m converts read succeeds =
      let c = run_rules analysis rules collected_nothing in
      let answer = storage.get_suggestions_by_status analysis.instance_id active s in
      let (got, same) = storage.selected analysis.instance_id active s in
      rw (read, suggest_analysis)
        (apply_collected-opens marshal storage order iteration succeeds analysis.instance_id c
          answer.0.1 answer.1 sug json converts m (rw same v)
          (rw (got read, same) (listed_rows analysis.instance_id active (storage.rows s) v)))
