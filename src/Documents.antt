-- ===== src/Documents.antt =====
-- Generated documents (src/lib/documents).
pub mod Strategy
