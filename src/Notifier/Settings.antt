-- ===== src/Notifier/Settings.antt =====
-- internal/config/notifications.go and internal/notifier/notifier.go: the configuration of the notifier, its
-- channels and its own state. A duration is not negative, as the configuration's validation wants.
use Prim.Native.String.{String}
use better_pg_keeper.Common.{ℕ, Bool, Option, List}
use better_pg_keeper.Models.{Severity}
use better_pg_keeper.Notifier.Message.{Message}

pub record DigestConfig : Type 0 where
  pub enabled : Bool
  pub schedule : String
  pub weekday : String
  pub hour : ℕ

pub record NotificationsConfig : Type 0 where
  pub min_severity : Severity
  pub renotify_after : ℕ
  pub notify_resolved : Bool
  pub resolve_grace : ℕ
  pub dashboard_url : String
  pub collection_stale_after : ℕ
  pub digest : DigestConfig

-- `send` is the error of the delivery, if it fails; a message has the time at which it is sent.
pub record Channel (D : Type 0) : Type 0 where
  pub name : String
  pub send : Message D → Option String

pub record Notifier (D : Type 0) : Type 0 where
  pub cfg : NotificationsConfig
  pub channels : List (Channel D)
  pub instance_id : ℕ
  pub instance : String
  pub started : ℕ
  pub collection_alerted : Bool
  pub collection_alerted_at : ℕ
