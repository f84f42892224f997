-- ===== src/Rules.antt =====
-- internal/suggester/rules: the rules of the index domain, of the replication slots, and of prepared
-- transactions and sequences.
pub mod Shared
pub mod Indexes
pub mod Slots
pub mod Risk
pub mod Tests
