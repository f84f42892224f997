-- ===== src/Notifier/Message.antt =====
-- internal/notifier/message.go: messages and their items. A digest is a parameter of the message.
pub mod Sorted
use Prim.Native.String.{String}
use better_pg_keeper.Common.{ℕ, Bool, Option, List, ltb, sort_by}
use better_pg_keeper.Models.{Severity, critical, warning, info, other}

pub data Kind : Type 0 where
  kind_alert kind_health kind_digest kind_test : Kind

pub data Event : Type 0 where
  event_opened event_escalated event_reminder event_resolved event_downgraded : Event

pub record Item : Type 0 where
  pub event : Event
  pub severity : Severity
  pub previous_severity : Severity
  pub rule_id : String
  pub target : String
  pub title : String
  pub url : String
  pub outcome : String

-- Text is filled by the channels.
pub record Message (D : Type 0) : Type 0 where
  pub kind : Kind
  pub instance : String
  pub title : String
  pub detail : String
  pub items : List Item
  pub digest : Option D
  pub url : String
  pub sent_at : ℕ

unfoldable pub severity_rank : Severity → ℕ
severity_rank critical = 3
severity_rank warning = 2
severity_rank info = 1
severity_rank (other _) = 0

-- The comparison that sort.SliceStable is given.
unfoldable pub more_severe : Item → Item → Bool
unfolding severity_rank
more_severe a b = ltb (severity_rank b.severity) (severity_rank a.severity)

unfoldable pub sort_items : List Item → List Item
unfolding more_severe sort_by
sort_items = sort_by more_severe
