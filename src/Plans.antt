-- ===== src/Plans.antt =====
-- internal/plans: what an EXPLAIN plan says about missing indexes.
pub mod Split
pub mod Columns
pub mod Ddl
pub mod Tests
