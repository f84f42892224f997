-- ===== src/Rules/Slots.antt =====
-- internal/suggester/rules/replication_slot.go: ReplicationSlotRule. A Go panic, which `reasons[0]` of an
-- empty list is, is a result of its own.
pub mod Verdict
pub mod Evaluate
pub mod Reports
pub mod Hides
use Prim.Native.String.{String}
use better_pg_keeper.Common.{
  ℕ, max, Bool, true, false, not, ◌&&◌, ◌||◌, Option, none, some, List, [], ◌∷◌, ◌++◌, str_dec, ite,
  sprint, leb, if◌then◌else◌,
}
use better_pg_keeper.Models.{Severity, critical, warning, other}
use better_pg_keeper.Suggester.Rule.{Suggestion}
use better_pg_keeper.Rules.Shared.{
  Floats, Metadata, str, int, flag, real, deref, max_severity, format_bytes, format_count,
  quote_literal, unobserved_targets,
}

pub record ReplicationSlot : Type 0 where
  pub name : String
  pub slot_type : String
  pub is_active : Bool
  pub wal_status : String
  pub retained_bytes : Option ℕ
  pub safe_wal_size : Option ℕ
  pub xmin_age : Option ℕ
  pub catalog_xmin_age : Option ℕ

-- The fields that the rule reads.
pub record ReplicaLag (R : Type 0) : Type 0 where
  pub application_name : String
  pub client_addr : String
  pub state : String
  pub replay_lag_secs : Option R

pub record ReplicationSlotRule (R : Type 0) : Type 0 where
  pub retained_warning : ℕ
  pub retained_critical : ℕ
  pub xmin_critical : ℕ
  pub lag_warning : R

pub data Outcome (A : Type 0) : Type 0 where
  panics : Outcome A
  returns : A → Outcome A

-- The variables `severity` and `reasons`.
abbrev pub Reasons : Type 0
Reasons = Severity × List String

-- The switch on the WAL status.
unfoldable pub by_wal_status : ReplicationSlot → Reasons
unfolding str_dec
by_wal_status slot =
    ite (str_dec slot.wal_status "unreserved")
      (
        critical,
        "WAL it needs is past `max_slot_wal_keep_size` and will be removed at the next checkpoint (`wal_status = unreserved`)"
            ∷ [],
      )
      (ite (str_dec slot.wal_status "lost")
        (
          warning,
          "the WAL it needs has already been removed (`wal_status = lost`), so its consumer can no longer catch up"
              ∷ [],
        )
        (other "", []))

unfoldable pub retained_of : ReplicationSlot → ℕ
unfolding deref
retained_of slot = deref slot.retained_bytes

unfoldable pub xmin_of : ReplicationSlot → ℕ
unfolding deref
xmin_of slot = max (deref slot.xmin_age) (deref slot.catalog_xmin_age)

unfoldable pub active_word : Bool → String
active_word active = if active then "active" else "inactive"

-- strings.Join(reasons, "; ")
unfoldable pub join_reasons : List String → String
join_reasons [] = ""
join_reasons (r ∷ []) = r
join_reasons (r ∷ s ∷ rs) = sprint (r ∷ "; " ∷ join_reasons (s ∷ rs) ∷ [])

module _ {R : Type 0} (r : ReplicationSlotRule R) where
  unfoldable pub by_retained : ReplicationSlot → Reasons → Reasons
  unfolding retained_of format_bytes max_severity
  by_retained slot (severity, reasons) =
      if leb r.retained_critical (retained_of slot)
      then (
        critical,
        reasons ++ sprint ("it retains " ∷ format_bytes (retained_of slot) ∷ " of WAL" ∷ []) ∷ [],
      )
      else if not slot.is_active && leb r.retained_warning (retained_of slot)
      then (
        max_severity severity warning,
        reasons
            ++ sprint
                ("it is inactive and retains " ∷ format_bytes (retained_of slot) ∷ " of WAL" ∷ [])
              ∷ [],
      )
      else (severity, reasons)

module _ (floats : Floats) (r : ReplicationSlotRule floats.Float) where
  unfoldable pub by_xmin : ReplicationSlot → Reasons → Reasons
  unfolding xmin_of format_count
  by_xmin slot (severity, reasons) =
      if leb r.xmin_critical (xmin_of slot)
      then (
        critical,
        reasons
            ++ sprint
                ("it holds back freezing: xmin age " ∷ format_count floats (xmin_of slot) ∷ [])
              ∷ [],
      )
      else (severity, reasons)

  unfoldable pub describe_slot : ReplicationSlot → List String → String
  unfolding active_word join_reasons format_bytes quote_literal
  describe_slot slot reasons = sprint (
      "Replication slot `"
      ∷ slot.name
      ∷ "` ("
      ∷ slot.slot_type
      ∷ ", "
      ∷ active_word slot.is_active
      ∷ ") needs attention: "
      ∷ join_reasons reasons
      ∷ ".\n\n**Why it matters:**\nA slot keeps every WAL segment its consumer has not confirmed, however long that takes. A consumer that is gone or stuck makes WAL grow until the disk fills and PostgreSQL shuts down. Slots also keep an xmin, which stops VACUUM from removing dead rows or freezing old ones.\n\n"
      ∷ elim slot.safe_wal_size [
        | none ↦ ""
        | some n ↦ sprint (
            "WAL that can still be written before this slot is invalidated: "
            ∷ format_bytes n
            ∷ ".\n\n"
            ∷ [])
      ]
      ∷ "**What to do:**\n- Find the consumer (a standby, Debezium, a logical replication subscription) and check whether it is still needed and running.\n- If it is gone for good, drop the slot. The consumer loses its position and must be re-seeded:\n```sql\nSELECT pg_drop_replication_slot("
      ∷ quote_literal slot.name
      ∷ ");\n```\n- Set `max_slot_wal_keep_size` so a stuck slot is invalidated before the disk fills.\n"
      ∷ [])

  unfoldable pub slot_suggestion :
      ReplicationSlot → Severity → List String → String → Suggestion (Metadata floats.Float)
  unfolding describe_slot retained_of xmin_of
  slot_suggestion slot severity reasons first = record {
    rule_id = "replication_slot";
    severity = severity;
    title = sprint ("Replication slot " ∷ slot.name ∷ ": " ∷ first ∷ []);
    description = describe_slot slot reasons;
    target_object = sprint ("slot:" ∷ slot.name ∷ []);
    metadata =
        ("slot_name", str slot.name)
        ∷ ("slot_type", str slot.slot_type)
        ∷ ("active", flag slot.is_active)
        ∷ ("wal_status", str slot.wal_status)
        ∷ ("retained_bytes", int (retained_of slot))
        ∷ ("xmin_age", int (xmin_of slot))
        ∷ [];
  }

  unfoldable pub reasons_of : ReplicationSlot → Reasons
  unfolding by_xmin by_retained by_wal_status
  reasons_of slot = by_xmin slot (by_retained r slot (by_wal_status slot))

  -- evaluateSlot from the test of the severity on; `none` is nil.
  unfoldable pub report_slot :
      ReplicationSlot → Reasons → Outcome (Option (Suggestion (Metadata floats.Float)))
  unfolding slot_suggestion
  report_slot slot (other String.[], reasons) = returns none
  report_slot slot (severity, []) = panics
  report_slot slot (severity, first ∷ rest) =
      returns (some (slot_suggestion slot severity (first ∷ rest) first))

  -- evaluateSlot
  unfoldable pub evaluate_slot :
      ReplicationSlot → Outcome (Option (Suggestion (Metadata floats.Float)))
  unfolding reasons_of report_slot
  evaluate_slot slot = report_slot slot (reasons_of slot)
