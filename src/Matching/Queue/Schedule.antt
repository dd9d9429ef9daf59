-- ===== src/Matching/Queue/Schedule.antt =====
-- Queueing the first automatic match of a job for a user (`scheduleInitialAiMatch` in
-- src/lib/matching/initialAiMatchQueue.ts).
pub mod Laws
pub mod Outcome
use internship_pilot.Prelude.{
  ℕ, ◌≡◌, ◌&&◌, ◌||◌, Bool, true, false, not, Option, none, some, String, str_eq, is_text, is_some,
  leb, ◌==◌, if◌then◌else◌,
}
use internship_pilot.Database.{Table}
use internship_pilot.Program.{Program, Result, ok, err, database}
use internship_pilot.Matching.Queue.{
  pending, is_failed, QueueItem, JobScoring, initial_match_type, same_work, Store,
}

pub data Reason : Type 0 where
  scheduled : Reason
  job_not_found : Reason
  already_scored : Reason
  already_scheduled : Reason
  description_insufficient : Reason
  facts_missing : Reason

-- What the two queries at the start see of the job and the user; `none` where there is no job. A
-- stored score is kept as read, and counts from 0 to 100.
pub record JobView : Type 0 where
  pub has_match : Bool
  pub stored_score : Option ℕ
  pub usable_description : Bool

abbrev pub is_score : Option ℕ → Bool
is_score none = false
is_score (some n) = leb n 100

-- `userId`, `jobId` and `matchType: INITIAL` of the one row that is looked for.
abbrev pub is_initial_work : String → String → QueueItem → Bool
is_initial_work job_id user r =
    is_text r.user_id user && (str_eq r.job_id job_id && str_eq r.match_type initial_match_type)

abbrev pub may_requeue : Bool → QueueItem → Bool
may_requeue retry_failed r = retry_failed && is_failed r.state

abbrev pub blocks : Bool → Option (String × QueueItem) → Bool
blocks retry_failed none = false
blocks retry_failed (some (id, r)) = not (may_requeue retry_failed r)

-- The early returns, in order; `scheduled` where none of them is taken.
abbrev pub decide : Option JobView → Bool → ℕ → Option (String × QueueItem) → Reason
decide none retry_failed facts work = job_not_found
decide (some v) retry_failed facts work =
    if v.has_match || is_score v.stored_score
    then already_scored
    else if blocks retry_failed work
    then already_scheduled
    else if not v.usable_description
    then description_insufficient
    else if facts == 0
    then facts_missing
    else scheduled

abbrev pub requeued : ℕ → QueueItem → QueueItem
requeued now r = record r {
  state = pending;
  attempt_count = 0;
  next_attempt_at = now;
  locked_at = none;
  last_error_code = none;
  match_result_id = none;
  completed_at = none;
}

abbrev pub new_item : String → String → ℕ → QueueItem
new_item job_id user now = record {
  user_id = some user;
  job_id = job_id;
  match_type = initial_match_type;
  state = pending;
  attempt_count = 0;
  next_attempt_at = now;
  locked_at = none;
  last_error_code = none;
  match_result_id = none;
  completed_at = none;
  created_at = now;
}

abbrev pub queued_job : ℕ → JobScoring → JobScoring
queued_job now j = record j {
  scoring_state = "QUEUED";
  scoring_queued_at = some now;
  scoring_error = none;
}

module _ (Q : Table QueueItem) (J : Table JobScoring) where
  -- The transaction of the queue write and the job's update; a violated unique constraint means that
  -- another request was faster. `fresh_id` is the new row's generated id.
  unfoldable pub write :
      String → String → String → ℕ → Option (String × QueueItem) → Program (Store Q J) Reason
  write fresh_id job_id user now (some (id, r)) s =
      if is_some (Q.find_unique id s.queue) && is_some (J.find_unique job_id s.jobs)
      then (
        ok scheduled,
        record s {
          queue = Q.update_at id (λ _. true) (requeued now) s.queue;
          jobs = J.update_at job_id (λ _. true) (queued_job now) s.jobs;
        },
      )
      else (err (database "P2025"), s)
  write fresh_id job_id user now none s =
      elim (Q.create same_work fresh_id (new_item job_id user now) s.queue) [
        | none ↦ (ok already_scheduled, s)
        | some queue ↦
            if is_some (J.find_unique job_id s.jobs)
            then (
              ok scheduled,
              record s {
                queue = queue;
                jobs = J.update_at job_id (λ _. true) (queued_job now) s.jobs;
              },
            )
            else (err (database "P2025"), s)
      ]

  abbrev pub find_work : String → String → Store Q J → Option (String × QueueItem)
  find_work job_id user s =
      Q.find_first (λ k r. is_initial_work job_id user r) (λ _ _. false) s.queue

  abbrev pub act : Reason → Program (Store Q J) Reason → Program (Store Q J) Reason
  act scheduled write_now s = write_now s
  act reason write_now s = (ok reason, s)

  unfoldable pub schedule :
      String → String → String → ℕ → Option JobView → Bool → ℕ → Program (Store Q J) Reason
  unfolding write
  schedule fresh_id job_id user now view retry_failed facts s =
      let work = find_work job_id user s in
      act (decide view retry_failed facts work) (write fresh_id job_id user now work) s
