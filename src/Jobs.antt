-- ===== src/Jobs.antt =====
-- The job feed (src/lib/jobs).
pub mod Sort
pub mod Availability
