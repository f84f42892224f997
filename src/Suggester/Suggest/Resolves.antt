-- ===== src/Suggester/Suggest/Resolves.antt =====
-- internal/suggester/suggester.go, Suggester.Suggest: when an issue is resolved.
use Prim.Native.String.{String}
use better_pg_keeper.Common.{
  index_by-IsIndexed, entry_key, IsOrder, ℕ, ◌≡◌, ◌≢◌, refl, ◌⊎◌, inl, false, none, some, List, [],
  All, All-Memᴰ, All-of_Memᴰ, Memᴰ, find_by-Memᴰ, ℕ_discrete, IsFree, str_dec,
}
use better_pg_keeper.Models
use better_pg_keeper.Models.{active, resolved, status_dec}
use better_pg_keeper.Analyzer.Coverage.{AnalysisResult}
use better_pg_keeper.Storage.Suggestions.{row_id, row_by_id, rows_by_status}
use better_pg_keeper.Storage.Suggestions.Keys.{IsKeyed}
use better_pg_keeper.Storage.Suggestions.Listed.{listed_Memᴰ, listed-All, listed_unique}
use better_pg_keeper.Suggester.Rule.{Rule}
use better_pg_keeper.Suggester.Store.{Storage}
use better_pg_keeper.Suggester.Keys.{colon, suggestion_key-injective}
use better_pg_keeper.Suggester.Collect.{Collected, suggestion_key, run_rules, collected_nothing}
use better_pg_keeper.Suggester.Suggest.{
  Existing, key_of, build_existing, held_back, suggest, upsert_all, apply_collected, initial_result,
  suggest_analysis, Progress,
}
use better_pg_keeper.Suggester.Suggest.Steps.{upsert_all-keeps}
use better_pg_keeper.Suggester.Suggest.Safety.{Reads, upsert_rows-Reads}
use better_pg_keeper.Suggester.Suggest.Resolvable.{
  IsHeard, IsSeen, HasRule, run_rules-set, run_rules-seen, unset_at_start, unhidden_at_start,
}
use better_pg_keeper.Suggester.Suggest.Recovery.{upsert_all-unset, resolve_all-Reads}

-- Of the listed rows, only one has the key of `r`.
listed_key_unique :
    (rows : List Models.Suggestion) (r : Models.Suggestion)
    → IsKeyed rows
    → All (λ x. IsFree colon x.rule_id) rows
    → Memᴰ r rows
    → All (λ x. key_of x ≡ key_of r → x ≡ r) (rows_by_status r.instance_id active rows)
listed_key_unique rows r v free m =
    let listed = rows_by_status r.instance_id active rows in
    let Free : Models.Suggestion → Type 0 = λ y. IsFree colon y.rule_id in
    let listed_free = listed-All Free r.instance_id active rows free in
    All-of_Memᴰ _ listed λ x mx same.
      let (rules, targets) =
        suggestion_key-injective x.rule_id r.rule_id x.target_object r.target_object
          (All-Memᴰ Free listed_free mx) (All-Memᴰ Free free m) same in
      All-Memᴰ
        (λ (y : Models.Suggestion).
          y.rule_id ≡ r.rule_id → y.target_object ≡ r.target_object → y ≡ r)
        (listed_unique active rows r v m) mx rules targets

module _ {F M : Type 0} (rules : List (Rule F M)) (analysis : AnalysisResult F)
    (r : Models.Suggestion) where
  -- The rules looked for the issue of `r`, could see its target, and nothing was reported under its key.
  pub record IsGone : Type 0 where
    pub has_rule : HasRule r.rule_id rules
    pub heard : All (λ rule. rule.id ≡ r.rule_id → IsHeard analysis rule) rules
    pub seen : All (λ rule. rule.id ≡ r.rule_id → IsSeen analysis r.target_object rule) rules
    pub unreported :
        All
          (λ sug. suggestion_key sug.rule_id sug.target_object ≢ key_of r)
          (run_rules analysis rules collected_nothing).all_suggestions

  gone_is_free : IsGone → held_back (run_rules analysis rules collected_nothing) r ≡ false
  unfolding held_back
  gone_is_free g =
      let set = run_rules-set analysis r.rule_id rules collected_nothing g.heard g.has_rule in
      let seen =
        run_rules-seen analysis r.rule_id r.target_object rules collected_nothing g.seen
          (unhidden_at_start r.rule_id r.target_object) in
      rw (set, seen) refl

module _ {M S : Type 0} (marshal : M → String ⊎ String) (storage : Storage S)
    (order : List Existing → List Existing) (iteration : IsOrder order)
    (succeeds : (id : ℕ) (t : S) → (storage.resolve_suggestion id t).0 ≡ none) where
  apply_collected-resolves :
      (instance : ℕ) (c : Collected M) (listed : List Models.Suggestion) (s : S)
      (r : Models.Suggestion)
      → Memᴰ r listed
      → All (λ x. key_of x ≡ key_of r → x ≡ r) listed
      → All (λ sug. suggestion_key sug.rule_id sug.target_object ≢ key_of r) c.all_suggestions
      → held_back c r ≡ false
      → Reads r.id active (storage.rows s)
      → Reads r.id resolved
          (storage.rows (apply_collected marshal storage order instance c listed s).store)
  unfolding apply_collected build_existing
  apply_collected-resolves instance c listed s r m unique unreported free a =
      let existing = build_existing listed in
      let start : Progress S = record { result = initial_result c; still_active = []; store = s } in
      let p = upsert_all marshal storage instance existing c.all_suggestions start in
      let entry =
        find_by-Memᴰ entry_key str_dec (key_of r) existing
          (index_by-IsIndexed key_of r listed [] unique m) in
      let unset =
        upsert_all-unset marshal storage instance existing (key_of r) c.all_suggestions start
          unreported (unset_at_start (key_of r)) in
      let kept =
        upsert_all-keeps storage (Reads r.id active) marshal instance existing
          (λ now sug rows _. upsert_rows-Reads r.id now sug rows) c.all_suggestions start a in
      resolve_all-Reads storage c succeeds p.still_active (key_of r) r unset free (order existing) p
        (iteration.covers (key_of r, r) existing entry) refl
        (record { row = kept.row; found = kept.found; has = inl kept.has })

module _ {F M S : Type 0} (marshal : M → String ⊎ String) (storage : Storage S)
    (order : List Existing → List Existing) (iteration : IsOrder order) where
  -- An active suggestion of the analysed instance is resolved by the run if its rules ran on usable data,
  -- could see its target, and nothing was reported under its key. Reading the active rows must succeed,
  -- and resolving must never fail; the upserts may fail. The table has distinct issues and ids, and no
  -- rule id of it holds a colon.
  pub suggest-resolves_gone :
      (rules : List (Rule F M)) (analysis : AnalysisResult F) (s : S) (r : Models.Suggestion)
      → IsKeyed (storage.rows s)
      → All (λ x. IsFree colon x.rule_id) (storage.rows s)
      → row_by_id r.id (storage.rows s) ≡ some r
      → r.status ≡ active
      → r.instance_id ≡ analysis.instance_id
      → (storage.get_suggestions_by_status analysis.instance_id active s).0.0 ≡ none
      → ((id : ℕ) (t : S) → (storage.resolve_suggestion id t).0 ≡ none)
      → IsGone rules analysis r
      → Reads r.id resolved (storage.rows (suggest marshal storage order rules (some analysis) s).1)
  unfolding suggest row_by_id
  suggest-resolves_gone rules analysis s r v free found act here read succeeds gone =
      let c = run_rules analysis rules collected_nothing in
      let answer = storage.get_suggestions_by_status analysis.instance_id active s in
      let (got, same) = storage.selected analysis.instance_id active s in
      let m = find_by-Memᴰ row_id ℕ_discrete r.id (storage.rows s) found in
      rw (read, suggest_analysis)
        (apply_collected-resolves marshal storage order iteration succeeds analysis.instance_id c
          answer.0.1 answer.1 r
          (rw (got read, ← here) (listed_Memᴰ active (storage.rows s) r act m))
          (rw (got read, ← here) (listed_key_unique (storage.rows s) r v free m)) gone.unreported
          (gone_is_free rules analysis r gone)
          (rw same (record { row = r; found = found; has = act })))
