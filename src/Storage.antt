-- ===== src/Storage.antt =====
-- internal/storage/sqlite: the tables that the components read and write.
pub mod Db
pub mod Suggestions
pub mod Notifications
pub mod Snapshots
pub mod Purge
mod Tests
