-- ===== src/Analyzer/Snapshot.antt =====
-- internal/analyzer/main.go, analyzeActivity, analyzeLocks and analyzeTransactions: the sub-analyzers that only copy what
-- the storage has of a snapshot. The rows of the lists are parameters, since nothing here reads them.
use Prim.Native.String.{String}
use better_pg_keeper.Common.{
  ℕ, inl, inr, Bool, ◌||◌, Option, none, some, List, [], ◌∷◌, length, ltb, sprint, if◌then◌else◌,
}
use better_pg_keeper.Analyzer.Main.{Call}

-- The counts of the row in connection_activity.
pub record ConnectionActivity : Type 0 where
  pub active_count : ℕ
  pub idle_count : ℕ
  pub idle_in_tx_count : ℕ
  pub idle_in_tx_aborted : ℕ
  pub waiting_count : ℕ
  pub total_connections : ℕ
  pub max_connections : ℕ

pub record LockStats : Type 0 where
  pub total_locks : ℕ
  pub granted_locks : ℕ
  pub waiting_locks : ℕ
  pub access_share_locks : ℕ
  pub row_exclusive_locks : ℕ
  pub exclusive_locks : ℕ

pub record ExtendedDatabaseStats : Type 0 where
  pub database_name : String
  pub xact_commit : ℕ
  pub xact_rollback : ℕ
  pub temp_files : ℕ
  pub temp_bytes : ℕ
  pub deadlocks : ℕ
  pub confl_lock : ℕ
  pub confl_snapshot : ℕ

-- `Peak` is filled later, by the analysis of the peak.
pub record ActivityAnalysis (R L I : Type 0) : Type 0 where
  pub connection_utilization : R
  pub total_connections : ℕ
  pub max_connections : ℕ
  pub active_count : ℕ
  pub idle_count : ℕ
  pub idle_in_tx_count : ℕ
  pub waiting_count : ℕ
  pub long_running_queries : List L
  pub idle_in_transaction : List I

pub record LockAnalysis (B : Type 0) : Type 0 where
  pub total_locks : ℕ
  pub granted_locks : ℕ
  pub waiting_locks : ℕ
  pub blocked_queries : List B
  pub lock_contention_high : Bool

pub record TransactionAnalysis : Type 0 where
  pub xact_commit : ℕ
  pub xact_rollback : ℕ
  pub temp_files : ℕ
  pub temp_bytes : ℕ
  pub deadlocks : ℕ

module _ {R S L I : Type 0} where
  -- `percentage a b` is float64(a) / float64(b) * 100, and `zero_value` 0.
  unfoldable pub analyze_activity :
      (percentage : ℕ → ℕ → R) (zero_value : R)
      → (get_connection_activity : ℕ → Call S (Option ConnectionActivity))
      → (get_long_running_queries : ℕ → Call S (List L))
      → (get_idle_in_transaction : ℕ → Call S (List I)) → ℕ
      → Call S (Option (ActivityAnalysis R L I))
  analyze_activity percentage zero_value get_activity get_long get_idle id s =
      let (found, s₁) = get_activity id s in
      elim found [
        | inl e ↦ (inl (sprint ("getting connection activity: " ∷ e ∷ [])), s₁)
        | inr none ↦ (inr none, s₁)
        | inr (some activity) ↦
            let (long, s₂) = get_long id s₁ in
            elim long [
              | inl e ↦ (inl (sprint ("getting long running queries: " ∷ e ∷ [])), s₂)
              | inr queries ↦
                  let (idle, s₃) = get_idle id s₂ in
                  elim idle [
                    | inl e ↦ (inl (sprint ("getting idle in transaction: " ∷ e ∷ [])), s₃)
                    | inr sessions ↦ (
                      inr (
                          some (record {
                            connection_utilization =
                                if ltb 0 activity.max_connections
                                then percentage activity.total_connections activity.max_connections
                                else zero_value;
                            total_connections = activity.total_connections;
                            max_connections = activity.max_connections;
                            active_count = activity.active_count;
                            idle_count = activity.idle_count;
                            idle_in_tx_count = activity.idle_in_tx_count;
                            waiting_count = activity.waiting_count;
                            long_running_queries = queries;
                            idle_in_transaction = sessions;
                          })),
                      s₃,
                    )
                  ]
            ]
      ]

module _ {S B : Type 0} where
  unfoldable pub analyze_locks :
      (get_lock_stats : ℕ → Call S (Option LockStats))
      → (get_blocked_queries : ℕ → Call S (List B)) → ℕ
      → Call S (Option (LockAnalysis B))
  analyze_locks get_lock_stats get_blocked_queries id s =
      let (found, s₁) = get_lock_stats id s in
      elim found [
        | inl e ↦ (inl (sprint ("getting lock stats: " ∷ e ∷ [])), s₁)
        | inr none ↦ (inr none, s₁)
        | inr (some stats) ↦
            let (blocked, s₂) = get_blocked_queries id s₁ in
            elim blocked [
              | inl e ↦ (inl (sprint ("getting blocked queries: " ∷ e ∷ [])), s₂)
              | inr queries ↦ (
                inr (
                    some (record {
                      total_locks = stats.total_locks;
                      granted_locks = stats.granted_locks;
                      waiting_locks = stats.waiting_locks;
                      blocked_queries = queries;
                      lock_contention_high = ltb 5 stats.waiting_locks || ltb 0 (length queries);
                    })),
                s₂,
              )
            ]
      ]

unfoldable pub analyze_transactions :
    {S : Type 0}
    → (get_extended_database_stats : ℕ → Call S (Option ExtendedDatabaseStats)) → ℕ
    → Call S (Option TransactionAnalysis)
analyze_transactions get_extended_database_stats id s =
    let (found, s') = get_extended_database_stats id s in
    (
      elim found [
        | inl e ↦ inl (sprint ("getting extended database stats: " ∷ e ∷ []))
        | inr none ↦ inr none
        | inr (some stats) ↦ inr (
            some (record {
              xact_commit = stats.xact_commit;
              xact_rollback = stats.xact_rollback;
              temp_files = stats.temp_files;
              temp_bytes = stats.temp_bytes;
              deadlocks = stats.deadlocks;
            }))
      ],
      s',
    )
