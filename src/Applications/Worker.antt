-- ===== src/Applications/Worker.antt =====
-- The worker process that fills applications (src/lib/applications/worker.ts, workerLock.ts).
pub mod Lock
pub mod Errors
pub mod Process
