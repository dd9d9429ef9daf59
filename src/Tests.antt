-- ===== src/Tests.antt =====
-- Concrete tables, services and rows, and the theorems applied to them.
pub mod Cron
pub mod Matching
pub mod Sync
pub mod Jobs
pub mod Applications
pub mod Board
pub mod Lock
pub mod Scoring
pub mod Process
pub mod Extension
pub mod Employers
pub mod Freshness
pub mod Scheduler
