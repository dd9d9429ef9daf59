-- ===== src/Matching/Queue.antt =====
-- The durable queue of automatic AI matches (src/lib/matching/initialAiMatchQueue.ts): its rows, its
-- error codes and the queries that its workers send. The children hold the operations.
pub mod Codes
pub mod Item
pub mod Worker
pub mod Schedule
pub mod Sound
pub mod Invariant
pub mod Claims
use internship_pilot.Prelude.{
  ℕ, ◌≡◌, ◌&&◌, Bool, true, false, not, Option, none, some, String, str_eq, is_text, is_some,
  if◌then◌else◌,
}
use internship_pilot.Database.{Table}
use internship_pilot.Program.{Program, Result, ok, err, Failure, database}

pub data MatchState : Type 0 where
  pending running succeeded retryable_failed permanent_failed : MatchState

abbrev pub is_running : MatchState → Bool
is_running running = true
is_running _ = false

-- `state: { in: ["PENDING", "RETRYABLE_FAILED"] }`
abbrev pub is_claimable : MatchState → Bool
is_claimable pending = true
is_claimable retryable_failed = true
is_claimable _ = false

-- `["RETRYABLE_FAILED", "PERMANENT_FAILED"].includes(state)`
abbrev pub is_failed : MatchState → Bool
is_failed retryable_failed = true
is_failed permanent_failed = true
is_failed _ = false

abbrev pub state_eq : MatchState → MatchState → Bool
state_eq pending pending = true
state_eq running running = true
state_eq succeeded succeeded = true
state_eq retryable_failed retryable_failed = true
state_eq permanent_failed permanent_failed = true
state_eq _ _ = false

-- A row of `InitialAiMatchJob`, under its `id`; times are milliseconds.
pub record QueueItem : Type 0 where
  pub user_id : Option String
  pub job_id : String
  pub match_type : String
  pub state : MatchState
  pub attempt_count : ℕ
  pub next_attempt_at : ℕ
  pub locked_at : Option ℕ
  pub last_error_code : Option String
  pub match_result_id : Option String
  pub completed_at : Option ℕ
  pub created_at : ℕ

-- The scoring columns of `Job`.
pub record JobScoring : Type 0 where
  pub scoring_state : String
  pub scoring_queued_at : Option ℕ
  pub scoring_started_at : Option ℕ
  pub scoring_heartbeat_at : Option ℕ
  pub scoring_finished_at : Option ℕ
  pub scoring_error : Option String

abbrev pub initial_match_type : String
initial_match_type = "INITIAL"

abbrev pub max_attempts : ℕ
max_attempts = 3

abbrev pub owner_eq : Option String → Option String → Bool
owner_eq (some x) (some y) = str_eq x y
owner_eq _ _ = false

-- `@@unique([userId, jobId, matchType])`; two rows without an owner do not clash.
abbrev pub same_work : QueueItem → QueueItem → Bool
same_work a b =
    owner_eq a.user_id b.user_id && (str_eq a.job_id b.job_id && str_eq a.match_type b.match_type)

module _ (Q : Table QueueItem) (J : Table JobScoring) where
  pub record Store : Type 0 where
    pub queue : Q.Tab
    pub jobs : J.Tab

  -- `prisma.initialAiMatchJob.update({ where: { id }, data })`; a missing row throws.
  unfoldable pub update_item : String → (QueueItem → QueueItem) → Program Store (Unit {0})
  update_item id f s =
      if is_some (Q.find_unique id s.queue)
      then (ok tt, record s { queue = Q.update_at id (λ _. true) f s.queue })
      else (err (database "P2025"), s)

  unfoldable pub update_job : String → (JobScoring → JobScoring) → Program Store (Unit {0})
  update_job id g s =
      if is_some (J.find_unique id s.jobs)
      then (ok tt, record s { jobs = J.update_at id (λ _. true) g s.jobs })
      else (err (database "P2025"), s)

  -- `prisma.$transaction([queue update, job update])`: both are written or neither.
  unfoldable pub update_both :
      String
      → (QueueItem → QueueItem)
      → String
      → (JobScoring → JobScoring)
      → Program Store (Unit {0})
  update_both id f job_id g s =
      if is_some (Q.find_unique id s.queue) && is_some (J.find_unique job_id s.jobs)
      then (
        ok tt,
        record s {
          queue = Q.update_at id (λ _. true) f s.queue;
          jobs = J.update_at job_id (λ _. true) g s.jobs;
        },
      )
      else (err (database "P2025"), s)

  -- `matchResultId` is unique: the row of another item that already holds this match.
  unfoldable pub match_is_taken : String → String → Store → Bool
  match_is_taken id match_id s = is_some (
      Q.find_first (λ k r. not (str_eq k id) && is_text r.match_result_id match_id) (λ _ _. false)
        s.queue)
