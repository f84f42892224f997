-- ===== src/Storage/Db.antt =====
-- internal/storage/sqlite: the database as its tables, and the execution of one statement. The
-- outcome of a statement and the readings of the clock come from outside.
use Prim.Native.String.{String, ◌++◌}
use better_pg_keeper.Common.{ℕ, ◌+◌, Option, none, some, List}
use better_pg_keeper.Models.{Suggestion, NotificationState, Snapshot, SnapshotCollector}

-- `fails n` is the driver's error for the statement number n, and `clock n` is time.Now() before it.
pub record Environment : Type 0 where
  pub fails : ℕ → Option String
  pub clock : ℕ → ℕ

pub record Db : Type 0 where
  pub suggestions : List Suggestion
  pub notification_states : List NotificationState
  pub notifier_times : List (ℕ × String × ℕ)
  pub snapshots : List Snapshot
  pub snapshot_collectors : List SnapshotCollector
  -- how many statements were executed
  pub statements : ℕ

unfoldable pub tick : Db → Db
tick db = record db { statements = db.statements + 1 }

-- ExecContext: a statement that fails changes nothing.
unfoldable pub exec : Environment → String → (Db → Db) → Db → Option String × Db
unfolding tick
exec env what change db = elim (env.fails db.statements) [
  | none ↦ (none, tick (change db))
  | some e ↦ (some (what ++ e), tick db)
]
