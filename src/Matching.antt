-- ===== src/Matching.antt =====
-- Scoring jobs against a user's facts (src/lib/matching).
pub mod Queue
pub mod Scoring
