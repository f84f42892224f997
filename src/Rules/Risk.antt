-- ===== src/Rules/Risk.antt =====
-- internal/suggester/rules/prepared_transaction.go and sequence_exhaustion.go: PreparedTransactionRule and
-- SequenceExhaustionRule. `date` is the Format of a time; the hours and days of a duration, floating-point
-- quotients in the source, are whole-number ones.
pub mod Thresholds
use Prim.Native.String.{String}
use better_pg_keeper.Common.{
  ℕ, ◌+◌, ◌/◌, ◌&&◌, ◌*◌, ◌||◌, ℤ, pos, negsuc, sub_ℕ, Bool, true, false, List, [], ◌∷◌, str_dec,
  ite, sprint, decimal, ltb, leb, if◌then◌else◌,
}
use better_pg_keeper.Models.{Severity, critical, warning}
use better_pg_keeper.Analyzer.Indexes.{day}
use better_pg_keeper.Suggester.Rule.{Suggestion}
use better_pg_keeper.Rules.Shared.{
  Floats, Metadata, str, int, real, format_count, quote_literal, quote_qualified, quote_ident,
}

pub record PreparedXact : Type 0 where
  pub gid : String
  pub database : String
  pub owner : String
  pub prepared : ℕ
  pub xid_age : ℕ

-- The thresholds are durations that are not negative.
pub record PreparedTransactionRule : Type 0 where
  pub warning_age : ℕ
  pub critical_age : ℕ

-- Whether a duration is below a threshold.
unfoldable pub below : ℤ → ℕ → Bool
below (pos n) t = ltb n t
below (negsuc _) t = true

-- The nanoseconds of an hour and of a minute.
abbrev pub hour : ℕ
hour = 3600000000000

abbrev pub minute : ℕ
minute = 60000000000

-- int() of a quotient drops what is behind the point, also of a negative one.
unfoldable pub whole_text : ℕ → ℤ → String
unfolding decimal
whole_text unit (pos n) = decimal (n / unit)
whole_text unit (negsuc n) =
    if leb unit (n + 1) then sprint ("-" ∷ decimal ((n + 1) / unit) ∷ []) else "0"

unfoldable pub format_age : ℤ → String
unfolding below whole_text
format_age d =
    if below d (48 * hour)
    then if below d hour
      then sprint (whole_text minute d ∷ "m" ∷ [])
      else sprint (whole_text hour d ∷ "h" ∷ [])
    else sprint (whole_text day d ∷ " days" ∷ [])

-- `seconds` is the float of a duration in seconds.
module _ (floats : Floats) (seconds : ℤ → floats.Float) (date : ℕ → String)
    (r : PreparedTransactionRule) where
  unfoldable pub describe_prepared : PreparedXact → ℤ → String
  unfolding format_age format_count quote_literal
  describe_prepared p age = sprint (
      "Transaction `"
      ∷ p.gid
      ∷ "` was prepared "
      ∷ format_age age
      ∷ " ago (at "
      ∷ date p.prepared
      ∷ ") by `"
      ∷ p.owner
      ∷ "` in database `"
      ∷ p.database
      ∷ "` and is still waiting to be committed or rolled back.\n\n**Why it matters:**\nA prepared transaction keeps its locks and its snapshot until someone finishes it, even across restarts. It blocks conflicting queries and DDL, and stops VACUUM from cleaning up or freezing rows anywhere in the cluster, which eventually leads to bloat and transaction ID wraparound (its xmin age is now "
      ∷ format_count floats p.xid_age
      ∷ ").\n\n**What to do:**\nFind out which transaction manager or application prepared it and whether it was meant to commit. Then, connected to `"
      ∷ p.database
      ∷ "`, run one of:\n```sql\nCOMMIT PREPARED "
      ∷ quote_literal p.gid
      ∷ ";\nROLLBACK PREPARED "
      ∷ quote_literal p.gid
      ∷ ";\n```\n- If nothing in your stack uses two-phase commit, set `max_prepared_transactions = 0` (requires a restart).\n"
      ∷ [])

  unfoldable pub prepared_suggestion : PreparedXact → ℤ → Suggestion (Metadata floats.Float)
  unfolding below describe_prepared format_age
  prepared_suggestion p age = record {
    rule_id = "prepared_transaction";
    severity = if below age r.critical_age then warning else critical;
    title = sprint ("Prepared transaction " ∷ p.gid ∷ " open for " ∷ format_age age ∷ []);
    description = describe_prepared p age;
    target_object = sprint ("prepared:" ∷ p.gid ∷ []);
    metadata =
        ("gid", str p.gid)
        ∷ ("database", str p.database)
        ∷ ("owner", str p.owner)
        ∷ ("prepared", int p.prepared)
        ∷ ("age_seconds", real (seconds age))
        ∷ ("xid_age", int p.xid_age)
        ∷ [];
  }

  -- The loop of Evaluate, as of `now`.
  unfoldable pub evaluate_prepared :
      ℕ → List PreparedXact → List (Suggestion (Metadata floats.Float))
  unfolding below prepared_suggestion
  evaluate_prepared now [] = []
  evaluate_prepared now (p ∷ ps) =
      let rest = evaluate_prepared now ps in
      let age = sub_ℕ now p.prepared in
      if below age r.warning_age then rest else prepared_suggestion p age ∷ rest

pub record SequenceUsage (R : Type 0) : Type 0 where
  pub schema_name : String
  pub sequence_name : String
  pub table_name : String
  pub column_name : String
  pub column_type : String
  pub last_value : ℕ
  pub max_value : ℕ
  pub used_fraction : R

pub record SequenceExhaustionRule (R : Type 0) : Type 0 where
  pub warning_usage : R
  pub critical_usage : R

-- `percent` is 100 times a float.
module _ (floats : Floats) (percent : floats.Float → floats.Float)
    (r : SequenceExhaustionRule floats.Float) where
  unfoldable pub has_table : SequenceUsage floats.Float → Bool
  unfolding str_dec
  has_table seq = ite (str_dec seq.table_name "") false true

  unfoldable pub is_int_column : SequenceUsage floats.Float → Bool
  unfolding str_dec
  is_int_column seq =
      ite (str_dec seq.column_type "integer") true false
      || ite (str_dec seq.column_type "smallint") true false

  unfoldable pub widen_column : SequenceUsage floats.Float → String → String
  unfolding quote_qualified quote_ident
  widen_column seq name = sprint (
      "Widen the column to `bigint`, and the sequence too if it was created `AS integer` (serial columns are):\n```sql\nALTER TABLE "
      ∷ quote_qualified seq.schema_name seq.table_name
      ∷ " ALTER COLUMN "
      ∷ quote_ident seq.column_name
      ∷ " TYPE bigint;\nALTER SEQUENCE "
      ∷ name
      ∷ " AS bigint;\n```\n- `ALTER COLUMN ... TYPE` rewrites the table and its indexes under an ACCESS EXCLUSIVE lock, blocking reads and writes for the duration. Schedule it, or on a large table add a new `bigint` column, backfill it in batches, and swap the columns in one short transaction.\n- Columns in other tables that reference this one through foreign keys need the same change.\n"
      ∷ [])

  abbrev raise_maximum : String → String
  raise_maximum name = sprint (
      "The sequence's own `MAXVALUE` is the limit. Raise it if the consumer can store larger values:\n```sql\nALTER SEQUENCE "
      ∷ name ∷ " AS bigint MAXVALUE 9223372036854775807;\n```\n" ∷ [])

  -- formatCount of a difference, which is printed as it is below 1000.
  unfoldable pub format_left : ℤ → String
  unfolding format_count decimal
  format_left (pos n) = format_count floats n
  format_left (negsuc n) = sprint ("-" ∷ decimal (n + 1) ∷ [])

  unfoldable pub describe_sequence : SequenceUsage floats.Float → String → String
  unfolding has_table is_int_column format_count format_left widen_column
  describe_sequence seq name = sprint (
      "Sequence `"
      ∷ name
      ∷ "` is at "
      ∷ format_count floats seq.last_value
      ∷ " of a maximum "
      ∷ format_count floats seq.max_value
      ∷ " ("
      ∷ floats.fixed 1 (percent seq.used_fraction)
      ∷ "% used, "
      ∷ format_left (sub_ℕ seq.max_value seq.last_value)
      ∷ " left).\n\n"
      ∷ (if has_table seq
          then sprint (
              "It feeds column `" ∷ seq.column_name ∷ "` of table `" ∷ seq.table_name ∷ "` (type `"
              ∷ seq.column_type ∷ "`).\n\n" ∷ [])
          else "")
      ∷ "**Why it matters:**\nWhen the sequence reaches its maximum, `nextval()` fails and every INSERT that needs a new ID errors until the column type is changed, which is slow to do in an emergency on a large table.\n\n**What to do:**\n"
      ∷ (if has_table seq && is_int_column seq then widen_column seq name else raise_maximum name)
      ∷ "- Application code, ORMs and APIs that hold IDs as 32-bit integers must be checked as well.\n"
      ∷ [])

  unfoldable pub sequence_suggestion :
      SequenceUsage floats.Float → Suggestion (Metadata floats.Float)
  unfolding describe_sequence quote_qualified has_table
  sequence_suggestion seq =
      let name = quote_qualified seq.schema_name seq.sequence_name in
      let plain = sprint (seq.schema_name ∷ "." ∷ seq.sequence_name ∷ []) in
      let subject =
        if has_table seq then sprint (seq.table_name ∷ "." ∷ seq.column_name ∷ []) else name in
      record {
        rule_id = "sequence_exhaustion";
        severity = if floats.less seq.used_fraction r.critical_usage then warning else critical;
        title = sprint (
            subject
            ∷ " has used "
            ∷ floats.fixed 0 (percent seq.used_fraction)
            ∷ "% of its ID range"
            ∷ []);
        description = describe_sequence seq name;
        target_object = sprint ("sequence:" ∷ plain ∷ []);
        metadata =
            ("sequence", str plain)
            ∷ ("table", str seq.table_name)
            ∷ ("column", str seq.column_name)
            ∷ ("column_type", str seq.column_type)
            ∷ ("last_value", int seq.last_value)
            ∷ ("max_value", int seq.max_value)
            ∷ ("used_fraction", real seq.used_fraction)
            ∷ [];
      }

  -- The loop of Evaluate.
  unfoldable pub evaluate_sequences :
      List (SequenceUsage floats.Float) → List (Suggestion (Metadata floats.Float))
  unfolding sequence_suggestion
  evaluate_sequences [] = []
  evaluate_sequences (seq ∷ seqs) =
      let rest = evaluate_sequences seqs in
      if floats.less seq.used_fraction r.warning_usage then rest else sequence_suggestion seq ∷ rest
