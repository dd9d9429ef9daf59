-- ===== src/Cron.antt =====
-- The hosted ingestion lanes (src/lib/cron).
pub mod Lane
pub mod Budget
pub mod Origin
