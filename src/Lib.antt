-- ===== src/Lib.antt =====
-- Verification of the core of internship-pilot: the durable queues, leases and orders under
-- src/lib.
--
-- The program collects internship postings, scores them against a user's facts, and queues
-- applications. Its state is in database tables, which its workers change one query at a time.
-- These parts are modelled. Hosted lanes bring postings in, each under a lease
-- (src/lib/cron/lane.ts). The discovery queue resolves signals to official postings
-- (src/lib/sync/liveDiscoveryQueue.ts). The scheduler of a local installation runs its tasks
-- unless it is paused (src/lib/sync/scheduler.ts, src/lib/sync/schedulerState.ts). The match queue
-- scores jobs for users (src/lib/matching/initialAiMatchQueue.ts). Postings that left their
-- employer's board are closed (src/lib/sync/officialBoardDelta.ts), and those whose own address
-- says so (src/lib/sync/freshness.ts). The application queue takes a user's runs for a job
-- (src/lib/applications/queue.ts, with src/lib/jobs/verificationModel.ts and
-- src/lib/documents/strategy.ts). The older scoring queue lives in the jobs' own columns
-- (src/lib/matching/scoringQueue.ts). One worker process at a time, by its lock file
-- (src/lib/applications/workerLock.ts), takes a claimed run through the browser
-- (src/lib/applications/worker.ts). Browser extensions sign in by tokens
-- (src/lib/applications/extensionAuth.ts). Approved employers are read from a CSV file
-- (src/lib/employers/csv.ts). The feed is put in order by src/lib/jobs/jobSort.ts.
--
-- Database.antt is the database client, a package outside the repository: an interface of the
-- queries that the program sends, with their documented laws, and a table in memory that meets it.
-- Program.antt is code that changes a state and may throw. The operations are functions over
-- these, for any table: Cron/Lane.antt has acquireLane and releaseLane, and Cron/Lane/Calls.antt
-- their statements, which run interleaved in any order while the clock moves on. Cron/Budget.antt
-- has LaneBudget, runLaneStep, boundedEnv, laneOutcome and isAuthorizedCronRequest,
-- Cron/Origin.antt the labels of a run. Matching/Queue.antt has the rows and writes of the match
-- queue, its children Codes, Schedule, Item and Worker the error codes, scheduleInitialAiMatch,
-- the checks and the data of a round, and processNextInitialAiMatch. Sync/Discovery.antt has
-- resolveSignal, its children Queue, Enqueue and Health the processing of due signals, the intake
-- of new ones and the counts by state. Sync/Board.antt has computeBoardDelta and
-- reconcileOfficialBoardDelta, Sync/Freshness.antt probeOfficialJobAvailability and
-- runFreshnessVerificationBatch, Sync/Scheduler.antt runIfNotPaused and the ticks.
-- Applications/Queue.antt has the runs, its children Request, Enqueue and Resume have
-- enqueueApplication, queueAnsweredRun and retryFailedRun. Applications/Worker/Lock.antt has
-- acquireApplicationWorkerLock, update and release, Applications/Worker/Process/Steps.antt has
-- processApplicationRun over the data of Applications/Worker/Process.antt, and
-- Applications/Worker/Errors.antt classifyErrorCode. Applications/Extension.antt has the tokens;
-- its child View reads the table as a map from digests to users. Matching/Scoring.antt has
-- scoreNextQueuedJob, drainScoringQueue and the worker's timer, its child Request
-- queueJobsForMatching. Employers/Csv.antt has parseCsv, its child Report
-- parseApprovedEmployersCsvDetailed. Jobs/Sort.antt and Jobs/Availability.antt have the order of
-- the feed and the meaning of a stored status, Documents/Strategy.antt the choice of a document.
-- The other files hold lemmas and theorems, and Tests their instances at concrete inputs.
--
-- Instants are milliseconds as natural numbers. Texts whose characters matter are lists of code
-- units. A JSON column is given by its reader and writer with their round trip, or by the value
-- that it encodes. A scorer, a probe, a board listing, a hash, the parser of a URL and the present
-- time are parameters. Apart from the calls of a lane, an operation runs alone: the theorems about
-- the queues are about whole operations, and claim_once about workers that read an item before
-- another one claimed it. The workers of one run of the discovery queue are one worker. The lock
-- file is read and written by one process at a time in the model. A step of a lane is a program on
-- a state that holds the clock. The loop over a list of items is structural; the drain of the
-- scoring queue has its own bound, the greatest number of jobs, and the lock its two turns.
--
-- Not modelled: the adapters and clients of outside services, the user interface and its routes,
-- the browser and the code of its extension, the other synchronisation queues, logging, and
-- sessions.
mod Prelude
pub mod Database
pub mod Program
pub mod Cron
pub mod Matching
pub mod Jobs
pub mod Sync
pub mod Applications
pub mod Documents
pub mod Employers
pub mod Tests
