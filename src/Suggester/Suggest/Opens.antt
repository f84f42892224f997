-- ===== src/Suggester/Suggest/Opens.antt =====
-- internal/suggester/suggester.go, Suggester.Suggest: an issue that a rule reports is open after the run.
use Prim.Native.String.{String}
use better_pg_keeper.Common.{
  ℕ, ◌≡◌, refl, ap, sym, ◌∙◌, ◌⊎◌, inl, inr, ite, true, false, none, some, List, [], ◌∷◌, arith,
  Memᴰ, ℕ_discrete, str_dec, find_by-assign,
}
use mathlib.Core.Path.{subst}
use better_pg_keeper.Models
use better_pg_keeper.Models.{active, resolved}
use better_pg_keeper.Storage.Suggestions.{
  Key, row_key, refresh, resolve_row, row_by_id, upsert_rows, resolve_rows,
}
use better_pg_keeper.Storage.Suggestions.Keys.{
  IsKeyed, upsert_rows-IsKeyed, resolve_rows-IsKeyed, resolve_row-key,
}
use better_pg_keeper.Storage.Suggestions.Lookup.{
  touched, row_by_id-upsert_rows, row_by_id-resolve_rows,
}
use better_pg_keeper.Suggester.Rule.{Suggestion, to_model}
use better_pg_keeper.Suggester.Store.{Storage}
use better_pg_keeper.Suggester.Collect.{Collected, suggestion_key, flag, is_set}
use better_pg_keeper.Suggester.Suggest.{Existing, key_of, Progress, upsert_one, upsert_all}
use better_pg_keeper.Suggester.Suggest.Steps.{upsert_one-keeps}
use better_pg_keeper.Suggester.Suggest.Reported.{
  IsOpen, upsert_rows-IsOpen, resolve_rows-IsOpen, open_by_id,
}

-- The table stays well-formed, and its rows keep their ids and their issues.
module _ (before : List Models.Suggestion) where
  abbrev Persists : List Models.Suggestion → Type 0
  Persists rows =
      (id : ℕ) (r : Models.Suggestion)
      → row_by_id id before ≡ some r
      → (x : Models.Suggestion) × (row_by_id id rows ≡ some x) × (row_key x ≡ row_key r)

  abbrev pub IsTable : List Models.Suggestion → Type 0
  IsTable rows = IsKeyed rows × Persists rows

  pub upsert_rows-IsTable :
      (now : ℕ) (sug : Models.Suggestion) (rows : List Models.Suggestion)
      → IsTable rows
      → IsTable (upsert_rows now sug rows)
  unfolding refresh
  upsert_rows-IsTable now sug rows (v, keeps) = (
    upsert_rows-IsKeyed now sug v,
    λ id r found.
        let (x, there, same) = keeps id r found in
        (touched now sug x, row_by_id-upsert_rows now id sug rows there, ground (arith, same)),
  )

  resolve_rows-IsTable :
      (now i : ℕ) (rows : List Models.Suggestion) → IsTable rows → IsTable (resolve_rows now i rows)
  resolve_rows-IsTable now i rows (v, keeps) = (
    resolve_rows-IsKeyed now i v,
    λ id r found.
        let (x, there, same) = keeps id r found in
        (
          ite (ℕ_discrete i id) (resolve_row now x) x,
          rw (row_by_id-resolve_rows now i id rows, there) refl,
          ground (arith, same, resolve_row-key now x),
        ),
  )

module _ {M S : Type 0} (marshal : M → String ⊎ String) (storage : Storage S)
    (succeeds : (x : Models.Suggestion) (s : S) → (storage.upsert_suggestion x s).0 ≡ none)
    (instance : ℕ) (existing : List Existing) (sug : Suggestion M) (json : String)
    (converts : marshal sug.metadata ≡ inr json) where
  abbrev issue : Key
  issue = (instance, sug.rule_id, sug.target_object)

  abbrev text : String
  text = suggestion_key sug.rule_id sug.target_object

  -- The issue has an open row, and its key is still active.
  abbrev pub IsReported : Progress S → Type 0
  IsReported p = IsOpen issue (storage.rows p.store) × (is_set text p.still_active ≡ true)

  upsert_one-set :
      (x : Suggestion M) (p : Progress S)
      → (is_set text p.still_active ≡ true) ⊎ (suggestion_key x.rule_id x.target_object ≡ text)
      → is_set text (upsert_one marshal storage instance existing x p).still_active ≡ true
  unfolding upsert_one is_set
  upsert_one-set x p h = ground (
    arith,
    h,
    find_by-assign flag str_dec text (suggestion_key x.rule_id x.target_object) p.still_active,
  )

  upsert-opens :
      (model : Models.Suggestion) (s : S)
      → row_key model ≡ issue
      → IsOpen issue (storage.rows (storage.upsert_suggestion model s).1)
  upsert-opens model s same =
      let (now, r) = storage.upserted model s in
      elim r [
        | inl done ↦ rw done (upsert_rows-IsOpen issue now model (storage.rows s) (inl same))
        | inr (failed, _) ↦ absurd (failed (succeeds model s))
      ]

  upsert_one-stays :
      (x : Suggestion M) (p : Progress S)
      → IsReported p
      → IsReported (upsert_one marshal storage instance existing x p)
  upsert_one-stays x p (o, set) = (
    upsert_one-keeps storage (λ rows. IsOpen issue rows) marshal instance existing
        (λ now y rows _ h. upsert_rows-IsOpen issue now y rows (inr h)) x p o,
    upsert_one-set x p (inl set),
  )

  upsert_one-reports :
      (p : Progress S) → IsReported (upsert_one marshal storage instance existing sug p)
  unfolding upsert_one to_model
  upsert_one-reports p =
      (rw (converts, upsert_one) (upsert-opens _ p.store refl), upsert_one-set sug p (inr refl))

  pub upsert_all-reports :
      (sugs : List (Suggestion M)) (p : Progress S)
      → IsReported p ⊎ Memᴰ sug sugs
      → IsReported (upsert_all marshal storage instance existing sugs p)
  unfolding upsert_all
  upsert_all-reports [] p (inl h) = h
  upsert_all-reports [] p (inr m) = elim m [ ]
  upsert_all-reports (x ∷ xs) p (inl h) = upsert_all-reports xs _ (inl (upsert_one-stays x p h))
  upsert_all-reports (x ∷ xs) p (inr (Memᴰ.head e)) = upsert_all-reports xs _ (
      inl (
        subst (λ y. IsReported (upsert_one marshal storage instance existing y p)) e
          (upsert_one-reports p)))
  upsert_all-reports (x ∷ xs) p (inr (Memᴰ.tail m)) = upsert_all-reports xs _ (inr m)

  -- The row of an open issue whose key is still active is not resolved.
  pub resolution_spares :
      (c : Collected M) (before : List Models.Suggestion) (still : List String)
      → is_set text still ≡ true
      → (now : ℕ) (e : Existing) (rows : List Models.Suggestion)
      → (row_by_id e.1.id before ≡ some e.1) × (e.0 ≡ key_of e.1)
      → is_set e.0 still ≡ false
      → IsTable before rows × IsOpen issue rows
      → IsTable before (resolve_rows now e.1.id rows) × IsOpen issue (resolve_rows now e.1.id rows)
  resolution_spares c before still set now e rows (listed, key) unset ((v, keeps), o) = (
    resolve_rows-IsTable before now e.1.id rows (v, keeps),
    resolve_rows-IsOpen issue now e.1.id rows o λ same.
        let (x, there, x_key) = keeps e.1.id e.1 listed in
        let (by_id, o_key) = open_by_id issue rows v o in
        let x_is_open : x ≡ o.row = cc (there, by_id, same) in
        let of_issue : row_key e.1 ≡ issue = sym x_key ∙ (ap row_key x_is_open ∙ o_key) in
        let e_text : e.0 ≡ text =
          cc (key, ap (λ (y : Key). y.1) of_issue, ap (λ (y : Key). y.2) of_issue) in
        cc (set, unset, e_text),
  )
