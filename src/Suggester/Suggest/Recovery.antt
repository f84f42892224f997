-- ===== src/Suggester/Suggest/Recovery.antt =====
-- internal/suggester/suggester.go, Suggester.Suggest: an issue that its rule looked for and did not report
-- is resolved.
use Prim.Native.String.{String}
use better_pg_keeper.Common.{
  ℕ, ◌≡◌, ◌≢◌, refl, ◌∙◌, ap, ◌⊎◌, inl, inr, ite, false, none, some, List, [], ◌∷◌, arith, All,
  All-of, str_dec, find_by-assign, ℕ_discrete, Memᴰ,
}
use better_pg_keeper.Models
use better_pg_keeper.Models.{Status, active, resolved}
use better_pg_keeper.Storage.Suggestions.{row_by_id, resolve_rows, resolve_row}
use better_pg_keeper.Storage.Suggestions.Lookup.{row_by_id-resolve_rows}
use better_pg_keeper.Suggester.Rule.{Suggestion}
use better_pg_keeper.Suggester.Store.{Storage}
use better_pg_keeper.Suggester.Collect.{suggestion_key, flag, is_set, Collected}
use better_pg_keeper.Suggester.Suggest.Safety.{Reads}
use better_pg_keeper.Suggester.Suggest.Steps.{visit_existing-keeps, resolve_all-keeps}
use better_pg_keeper.Suggester.Suggest.{
  Existing, Progress, upsert_one, upsert_all, resolve_one, held_back, visit_existing, resolve_all,
}

module _ {M S : Type 0} (marshal : M → String ⊎ String) (storage : Storage S) (instance_id : ℕ)
    (existing : List Existing) (key : String) where
  upsert_one-unset :
      (sug : Suggestion M) (p : Progress S)
      → suggestion_key sug.rule_id sug.target_object ≢ key
      → is_set key p.still_active ≡ false
      → is_set key (upsert_one marshal storage instance_id existing sug p).still_active ≡ false
  unfolding upsert_one is_set
  upsert_one-unset sug p other h = ground (
    arith,
    find_by-assign flag str_dec key (suggestion_key sug.rule_id sug.target_object) p.still_active,
  )

  -- A key that nothing reports is not still active.
  pub upsert_all-unset :
      (sugs : List (Suggestion M)) (p : Progress S)
      → All (λ sug. suggestion_key sug.rule_id sug.target_object ≢ key) sugs
      → is_set key p.still_active ≡ false
      → is_set key (upsert_all marshal storage instance_id existing sugs p).still_active ≡ false
  unfolding upsert_all
  upsert_all-unset [] p a h = h
  upsert_all-unset (sug ∷ sugs) p a h = upsert_all-unset sugs _ a.1 (upsert_one-unset sug p a.0 h)

-- A row that the resolve loop may still meet: active, or resolved by it.
pub record IsLive (id : ℕ) (rows : List Models.Suggestion) : Type 0 where
  pub row : Models.Suggestion
  pub found : row_by_id id rows ≡ some row
  pub has : (row.status ≡ active) ⊎ (row.status ≡ resolved)

resolve_rows-IsLive :
    (now i id : ℕ) (rows : List Models.Suggestion)
    → IsLive id rows
    → IsLive id (resolve_rows now i rows)
unfolding resolve_row
resolve_rows-IsLive now i id rows a = record {
  row = ite (ℕ_discrete i id) (resolve_row now a.row) a.row;
  found = rw (row_by_id-resolve_rows now i id rows, a.found) refl;
  has = ground (arith, a.has);
}

resolve_rows-Reads :
    (now i id : ℕ) (rows : List Models.Suggestion)
    → (i ≡ id) ⊎ Reads id resolved rows
    → IsLive id rows
    → Reads id resolved (resolve_rows now i rows)
unfolding resolve_row
resolve_rows-Reads now i id rows h a = record {
  row = ite (ℕ_discrete i id) (resolve_row now a.row) a.row;
  found = rw (row_by_id-resolve_rows now i id rows, a.found) refl;
  has = elim h [
    | inl same ↦ ground (arith, same, a.has)
    | inr b ↦
        let e : a.row ≡ b.row = cc (a.found, b.found) in
        let done : a.row.status ≡ resolved = ap (λ (x : Models.Suggestion). x.status) e ∙ b.has in
        ground (arith, done)
  ];
}

module _ {M S : Type 0} (storage : Storage S) (c : Collected M)
    (succeeds : (id : ℕ) (s : S) → (storage.resolve_suggestion id s).0 ≡ none) (still : List String)
    (key : String) (r : Models.Suggestion) (gone : is_set key still ≡ false)
    (free : held_back c r ≡ false) where
  resolve_one-Reads :
      (p : Progress S)
      → IsLive r.id (storage.rows p.store)
      → Reads r.id resolved (storage.rows (resolve_one storage r p).store)
  unfolding resolve_one
  resolve_one-Reads p a =
      let (now, outcome) = storage.resolved_row r.id p.store in
      elim outcome [
        | inl done ↦ rw done (resolve_rows-Reads now r.id r.id (storage.rows p.store) (inl refl) a)
        | inr (failed, _) ↦ absurd (failed (succeeds r.id p.store))
      ]

  -- Once resolved, it stays so to the end of the loop.
  stays_resolved :
      (es : List Existing) (p : Progress S)
      → Reads r.id resolved (storage.rows p.store)
      → Reads r.id resolved (storage.rows (resolve_all storage c es p).store)
  stays_resolved es p a =
      (resolve_all-keeps storage (Reads r.id resolved) c (λ _. Unit {0}) p.still_active
        (λ now e rows _ _ _ b.
          resolve_rows-Reads now e.1.id r.id rows (inr b)
            (record { row = b.row; found = b.found; has = inr b.has }))
        es p (All-of (λ _. Unit) (λ _. tt) es) (a, refl)).0

  pub resolve_all-Reads :
      (es : List Existing) (p : Progress S)
      → Memᴰ (key, r) es
      → p.still_active ≡ still
      → IsLive r.id (storage.rows p.store)
      → Reads r.id resolved (storage.rows (resolve_all storage c es p).store)
  unfolding resolve_all visit_existing
  resolve_all-Reads [] p m same a = elim m [ ]
  resolve_all-Reads (e ∷ es) p (Memᴰ.head here) same a =
      stays_resolved es (visit_existing storage c e p)
        (rw (← here, visit_existing) (rw (same, gone, free) (resolve_one-Reads p a)))
  resolve_all-Reads (e ∷ es) p (Memᴰ.tail later) same a =
      let (live, same') =
        visit_existing-keeps storage (IsLive r.id) c (λ _. Unit {0}) still
          (λ now e rows _ _ _ b. resolve_rows-IsLive now e.1.id r.id rows b) e p tt (a, same) in
      resolve_all-Reads es (visit_existing storage c e p) later same' live
