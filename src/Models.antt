-- ===== src/Models.antt =====
-- internal/models/models.go: the rows that the analysis, the suggester, the notifier and the
-- storage exchange. A time.Time is the nanoseconds since the epoch.
use Prim.Native.String.{String}
use better_pg_keeper.Common.{ℕ, Option, str_dec}

-- The strings of the severity column: the three constants, and any other text.
pub data Severity : Type 0 where
  critical warning info : Severity
  other : String → Severity

unfoldable pub severity_dec : Discrete Severity
unfolding str_dec
severity_dec = hlevel str_dec

-- The three constants of the status column, and the empty string of a row that is not stored yet.
pub data Status : Type 0 where
  active dismissed resolved unset : Status

unfoldable pub status_dec : Discrete Status
status_dec = hlevel

pub record Suggestion : Type 0 where
  pub id : ℕ
  pub instance_id : ℕ
  pub rule_id : String
  pub severity : Severity
  pub title : String
  pub description : String
  pub target_object : String
  pub metadata : String
  pub status : Status
  pub first_seen_at : ℕ
  pub last_seen_at : ℕ
  pub dismissed_at : Option ℕ
  pub resolved_at : Option ℕ

-- What the notifier last sent about one issue.
pub record NotificationState : Type 0 where
  pub instance_id : ℕ
  pub rule_id : String
  pub target_object : String
  pub severity : Severity
  pub notified_at : ℕ
  pub cleared_at : Option ℕ

-- The cache hit ratio, a floating-point number that the modelled parts only store, is left out.
pub record Snapshot : Type 0 where
  pub id : ℕ
  pub instance_id : ℕ
  pub captured_at : ℕ
  pub pg_version : String
  pub stats_reset : Option ℕ

pub data RunStatus : Type 0 where
  run_success run_error : RunStatus

-- Whether a collector contributed to a snapshot.
pub record SnapshotCollector : Type 0 where
  pub snapshot_id : ℕ
  pub collector : String
  pub run_status : RunStatus
  pub collected_at : ℕ
  pub error : String
