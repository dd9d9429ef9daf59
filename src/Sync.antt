-- ===== src/Sync.antt =====
-- Bringing jobs in from the outside (src/lib/sync).
pub mod Discovery
pub mod Board
pub mod Freshness
pub mod Scheduler
