-- ===== src/Applications.antt =====
-- The application agent's runs and its worker (src/lib/applications).
pub mod Queue
pub mod Worker
pub mod Extension
