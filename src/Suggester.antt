-- ===== src/Suggester.antt =====
-- internal/suggester: the rule engine that turns an analysis result into stored suggestions.
pub mod Rule
pub mod Store
pub mod Collect
pub mod Keys
pub mod Suggest
pub mod Sqlite
mod Tests
