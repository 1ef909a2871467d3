-- ===== src/Scheduler.antt =====
-- The proactive scheduler of internal/api/scheduler.go over the store.
pub mod Clock
pub mod Triggers
pub mod Locale
pub mod Process
pub mod Send
pub mod Allowed
pub mod Spacing
