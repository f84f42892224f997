-- ===== src/Notifier.antt =====
-- internal/notifier: the alerts about suggestions, the alert about collection and the digest's schedule.
pub mod Message
pub mod Settings
pub mod Deliver
pub mod Store
pub mod Evaluate
pub mod Collection
pub mod Schedule
pub mod Digest
pub mod Sqlite
pub mod Samples
mod Tests
