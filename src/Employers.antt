-- ===== src/Employers.antt =====
-- The list of approved employers (src/lib/employers).
pub mod Csv
