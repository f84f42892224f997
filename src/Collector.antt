-- ===== src/Collector.antt =====
-- internal/collector: the coordinator of the collectors.
pub mod Store
pub mod Coordinator
pub mod Sqlite
mod Tests
