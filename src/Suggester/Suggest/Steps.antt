-- ===== src/Suggester/Suggest/Steps.antt =====
-- internal/suggester/suggester.go, Suggester.Suggest as steps on the suggestions table: what every upsert
-- and every resolution that it makes keeps, the whole run keeps.
use Prim.Native.String.{String}
use better_pg_keeper.Common.{
  index_by-All, IsOrder, ℕ, ◌≡◌, refl, ◌⊎◌, inl, inr, false, some, List, [], ◌∷◌, All, Bool-cases,
  Sum-cases, Option-cases,
}
use better_pg_keeper.Models
use better_pg_keeper.Models.{active}
use better_pg_keeper.Analyzer.Coverage.{AnalysisResult}
use better_pg_keeper.Storage.Suggestions.{upsert_rows, resolve_rows, rows_by_status}
use better_pg_keeper.Suggester.Rule.{Suggestion, Rule, to_model}
use better_pg_keeper.Suggester.Store.{Storage}
use better_pg_keeper.Suggester.Collect.{
  Collected, is_set, suggestion_key, run_rules, collected_nothing,
}
use better_pg_keeper.Suggester.Suggest.{
  Existing, key_of, Progress, build_existing, upsert_one, upsert_all, resolve_one, held_back,
  visit_existing, resolve_all, apply_collected, suggest_analysis, suggest, initial_result,
}

module _ {S : Type 0} (storage : Storage S) (P : List Models.Suggestion → Type 0) where
  module _ {M : Type 0} (marshal : M → String ⊎ String) (instance_id : ℕ) (existing : List Existing)
      (up : (now : ℕ) (sug : Models.Suggestion) (rows : List Models.Suggestion)
        → sug.instance_id ≡ instance_id
        → P rows
        → P (upsert_rows now sug rows)) where
    upsert-keeps :
        (model : Models.Suggestion) (s : S)
        → model.instance_id ≡ instance_id
        → P (storage.rows s)
        → P (storage.rows (storage.upsert_suggestion model s).1)
    upsert-keeps model s e h =
        let (now, r) = storage.upserted model s in
        elim r [
          | inl done ↦ rw done (up now model (storage.rows s) e h)
          | inr (_, same) ↦ rw same h
        ]

    pub upsert_one-keeps :
        (sug : Suggestion M) (p : Progress S)
        → P (storage.rows p.store)
        → P (storage.rows (upsert_one marshal storage instance_id existing sug p).store)
    unfolding upsert_one to_model
    upsert_one-keeps sug p h = elim (Sum-cases (marshal sug.metadata)) [
      | inl (e, failed) ↦ rw (failed, upsert_one) h
      | inr (json, done) ↦ rw (done, upsert_one) (upsert-keeps _ p.store refl h)
    ]

    pub upsert_all-keeps :
        (sugs : List (Suggestion M)) (p : Progress S)
        → P (storage.rows p.store)
        → P (storage.rows (upsert_all marshal storage instance_id existing sugs p).store)
    unfolding upsert_all
    upsert_all-keeps [] p h = h
    upsert_all-keeps (sug ∷ sugs) p h = upsert_all-keeps sugs _ (upsert_one-keeps sug p h)

  module _ {M : Type 0} (collected : Collected M) (Q : Existing → Type 0) (still : List String)
      (down : (now : ℕ) (e : Existing) (rows : List Models.Suggestion)
        → Q e
        → is_set e.0 still ≡ false
        → held_back collected e.1 ≡ false
        → P rows
        → P (resolve_rows now e.1.id rows)) where
    -- What the resolve loop carries: the table, and the keys that are still active.
    abbrev pub Carries : Progress S → Type 0
    Carries p = P (storage.rows p.store) × (p.still_active ≡ still)

    resolve_one-keeps :
        (e : Existing) (p : Progress S)
        → Q e
        → is_set e.0 still ≡ false
        → held_back collected e.1 ≡ false
        → Carries p
        → Carries (resolve_one storage e.1 p)
    unfolding resolve_one
    resolve_one-keeps e p q s b (h, same) =
        let (now, r) = storage.resolved_row e.1.id p.store in
        elim r [
          | inl done ↦ (rw done (down now e (storage.rows p.store) q s b h), same)
          | inr (_, kept) ↦ (rw kept h, same)
        ]

    pub visit_existing-keeps :
        (e : Existing) (p : Progress S)
        → Q e
        → Carries p
        → Carries (visit_existing storage collected e p)
    unfolding visit_existing
    visit_existing-keeps (key, sug) p q c = elim (Bool-cases (is_set key p.still_active)) [
      | inl here ↦ rw (here, visit_existing) c
      | inr gone ↦ elim (Bool-cases (held_back collected sug)) [
        | inl held ↦ rw (gone, held, visit_existing) c
        | inr free ↦
            rw (gone, free, visit_existing)
              (resolve_one-keeps (key, sug) p q (rw c.1 at gone) free c)
      ]
    ]

    pub resolve_all-keeps :
        (es : List Existing) (p : Progress S)
        → All Q es
        → Carries p
        → Carries (resolve_all storage collected es p)
    unfolding resolve_all
    resolve_all-keeps [] p a c = c
    resolve_all-keeps (e ∷ es) p a c = resolve_all-keeps es _ a.1 (visit_existing-keeps e p a.0 c)

-- The whole run, from what the upserts and the resolutions keep.
module _ {F M S : Type 0} (marshal : M → String ⊎ String) (storage : Storage S)
    (order : List Existing → List Existing) (iteration : IsOrder order) (rules : List (Rule F M))
    (analysis : AnalysisResult F) (P : List Models.Suggestion → Type 0) (Q : Existing → Type 0)
    (up : (now : ℕ) (sug : Models.Suggestion) (rows : List Models.Suggestion)
      → sug.instance_id ≡ analysis.instance_id
      → P rows
      → P (upsert_rows now sug rows))
    (down : (now : ℕ) (e : Existing) (rows : List Models.Suggestion)
      → Q e
      → held_back (run_rules analysis rules collected_nothing) e.1 ≡ false
      → P rows
      → P (resolve_rows now e.1.id rows)) where
  abbrev collected : Collected M
  collected = run_rules analysis rules collected_nothing

  apply_collected-keeps :
      (listed : List Models.Suggestion) (s : S)
      → All (λ r. Q (suggestion_key r.rule_id r.target_object, r)) listed
      → P (storage.rows s)
      → P (
          storage.rows
            (apply_collected marshal storage order analysis.instance_id collected listed s).store)
  unfolding apply_collected build_existing
  apply_collected-keeps listed s a h =
      let existing = build_existing listed in
      let start : Progress S = record {
        result = initial_result collected;
        still_active = [];
        store = s;
      } in
      let p =
        upsert_all marshal storage analysis.instance_id existing collected.all_suggestions start in
      (resolve_all-keeps storage P collected Q p.still_active
        (λ now e rows q _ free. down now e rows q free) (order existing) p
        (iteration.keeps Q existing (index_by-All key_of Q listed [] a tt))
        (
          upsert_all-keeps storage P marshal analysis.instance_id existing up
              collected.all_suggestions start h,
          refl,
        )).0

  pub suggest-keeps :
      (s : S)
      → All
          (λ r. Q (suggestion_key r.rule_id r.target_object, r))
          (rows_by_status analysis.instance_id active (storage.rows s))
      → P (storage.rows s)
      → P (storage.rows (suggest marshal storage order rules (some analysis) s).1)
  unfolding suggest
  suggest-keeps s a h =
      let (got, same) = storage.selected analysis.instance_id active s in
      let answer = storage.get_suggestions_by_status analysis.instance_id active s in
      elim (Option-cases answer.0.0) [
        | inl fine ↦
            rw (fine, suggest_analysis)
              (apply_collected-keeps answer.0.1 answer.1 (rw (got fine) a) (rw same h))
        | inr (e, failed) ↦ rw (failed, suggest_analysis) (rw same h)
      ]
