-- ===== src/Storage/Suggestions.antt =====
-- internal/storage/sqlite/storage.go, the suggestion operations: the suggestions table as the list
-- of its rows in insertion order, and each SQL statement as a function on it.
pub mod Keys
pub mod Lookup
pub mod Listed
pub mod Ops
use Prim.Native.String.{String}
use better_pg_keeper.Common.{
  ℕ, suc, max, ◌≡◌, ite, Bool, true, false, ◌&&◌, Option, none, some, List, [], ◌∷◌, ◌++◌, ltb,
  ◌==◌, if◌then◌else◌, ℕ_discrete, str_dec, find_by, update_at, filter, sort_by,
}
use better_pg_keeper.Models.{
  Suggestion, Severity, critical, warning, info, other, Status, status_dec, active, dismissed,
  resolved,
}
use better_pg_keeper.Storage.Db.{Environment, Db, tick, exec}

-- UNIQUE(instance_id, rule_id, target_object), and the WHERE clause of the upsert.
abbrev pub Key : Type 0
Key = ℕ × String × String

unfoldable pub key_dec : Discrete Key
unfolding ℕ_discrete str_dec
key_dec = hlevel (ℕ_discrete, str_dec)

abbrev pub row_key : Suggestion → Key
row_key r = (r.instance_id, r.rule_id, r.target_object)

abbrev pub row_id : Suggestion → ℕ
row_id r = r.id

-- The SET clause of the upsert: a resolved suggestion is active again, any other status stays.
unfoldable pub refresh : ℕ → Suggestion → Suggestion → Suggestion
refresh now sug r = record r {
  severity = sug.severity;
  title = sug.title;
  description = sug.description;
  metadata = sug.metadata;
  status = elim r.status [ resolved ↦ active | s ↦ s ];
  resolved_at = elim r.status [ resolved ↦ none | _ ↦ r.resolved_at ];
  last_seen_at = now;
}

-- INTEGER PRIMARY KEY: one more than the largest id.
unfoldable pub next_id : List Suggestion → ℕ
next_id [] = 1
next_id (r ∷ rs) = max (suc r.id) (next_id rs)

-- The VALUES clause of the upsert.
unfoldable pub new_row : ℕ → ℕ → Suggestion → Suggestion
new_row id now sug = record sug {
  id = id;
  status = active;
  first_seen_at = now;
  last_seen_at = now;
  dismissed_at = none;
  resolved_at = none;
}

-- SELECT ... WHERE id = ?
unfoldable pub row_by_id : ℕ → List Suggestion → Option Suggestion
unfolding find_by
row_by_id = find_by row_id ℕ_discrete

-- The row of an issue.
unfoldable pub row_by_key : Key → List Suggestion → Option Suggestion
unfolding find_by
row_by_key = find_by row_key key_dec

unfoldable pub update_rows : ℕ → Suggestion → List Suggestion → List Suggestion
unfolding refresh
update_rows now sug = update_at row_key key_dec (row_key sug) (refresh now sug)

unfoldable pub insert_row : ℕ → Suggestion → List Suggestion → List Suggestion
unfolding new_row next_id
insert_row now sug rows = rows ++ new_row (next_id rows) now sug ∷ []

-- What an upsert that meets no error does to the table: an update, or an insertion if the update
-- affected no row.
unfoldable pub upsert_rows : ℕ → Suggestion → List Suggestion → List Suggestion
unfolding update_rows insert_row row_by_key
upsert_rows now sug rows = elim (row_by_key (row_key sug) rows) [
  | some _ ↦ update_rows now sug rows
  | none ↦ insert_row now sug rows
]

unfoldable pub resolve_row : ℕ → Suggestion → Suggestion
resolve_row now r = elim r.status [
  | active ↦ record r { status = resolved; resolved_at = some now }
  | _ ↦ r
]

unfoldable pub resolve_rows : ℕ → ℕ → List Suggestion → List Suggestion
unfolding resolve_row
resolve_rows now id = update_at row_id ℕ_discrete id (resolve_row now)

unfoldable pub dismiss_rows : ℕ → ℕ → List Suggestion → List Suggestion
dismiss_rows now id =
    update_at row_id ℕ_discrete id (λ r. record r { status = dismissed; dismissed_at = some now })

-- CASE severity WHEN 'critical' THEN 1 ... ELSE 4 END
unfoldable pub severity_order : Severity → ℕ
severity_order critical = 1
severity_order warning = 2
severity_order info = 3
severity_order (other _) = 4

-- ORDER BY severity, last_seen_at DESC
unfoldable pub listed_before : Suggestion → Suggestion → Bool
unfolding severity_order
listed_before a b =
    if ltb (severity_order a.severity) (severity_order b.severity)
    then true
    else severity_order a.severity == severity_order b.severity && ltb b.last_seen_at a.last_seen_at

unfoldable pub has_status : ℕ → Status → Suggestion → Bool
has_status instance status r =
    ite (ℕ_discrete r.instance_id instance) (ite (status_dec r.status status) true false) false

unfoldable pub rows_by_status : ℕ → Status → List Suggestion → List Suggestion
unfolding has_status listed_before sort_by filter
rows_by_status instance status rows =
    sort_by listed_before (filter (has_status instance status) rows)
