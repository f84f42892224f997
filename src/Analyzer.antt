-- ===== src/Analyzer.antt =====
-- internal/analyzer: what an analysis run hands to the suggestion rules.
pub mod Coverage
pub mod Domains
pub mod Main
pub mod Indexes
pub mod Counts
pub mod TimeRange
pub mod Snapshot
pub mod Tests
