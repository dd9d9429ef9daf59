-- ===== src/Applications/Queue/Resume.antt =====
-- `queueAnsweredRun` and `retryFailedRun` (src/lib/applications/queue.ts).
use internship_pilot.Prelude.{
  ℕ, ◌+◌, ◌&&◌, Bool, true, false, not, Option, none, some, List, [], ◌∷◌, ◌++◌, String, str_eq,
  is_text, is_some, if◌then◌else◌, ◌==◌,
}
use internship_pilot.Database.{Table}
use internship_pilot.Program.{
  Result, Program, ok, err, Failure, other, database, ◌>>=◌, ◌>>◌, return,
}
use internship_pilot.Applications.Queue.{
  RunStatus, queued, is_active, is_moving, is_paused, is_failed, is_submitted, Run, Attempt,
  nowhere, application_active_key, is_of, Answer, refuse, Store, mark_applying, write_audit,
  key_is_taken, record_run_stage,
}

abbrev pub resumed_run : String → Run → Run
resumed_run key r = record r {
  active_key = some key;
  status = queued;
  current_step = some "QUEUED";
  needs_user_action_reason = none;
  finished_at = none;
}

abbrev pub past_attempts : Option (List Attempt) → List Attempt
past_attempts none = []
past_attempts (some attempts) = attempts

abbrev pub finish_time : ℕ → Option ℕ → ℕ
finish_time now none = now
finish_time now (some t) = t

abbrev pub attempt_of : ℕ → Run → Attempt
attempt_of now r = record {
  number = r.attempt_number;
  status = r.status;
  error = r.error_log;
  error_code = r.error_code;
  validation_path = r.validation_path;
  step = r.current_step;
  finished_at = finish_time now r.finished_at;
}

-- The JSON column of stages is left out of an attempt.
-- The data is made from the run that was read, `seen`, and written to the row.
abbrev pub retried_run : ℕ → String → Run → Run → Run
retried_run now key seen r = record r {
  active_key = some key;
  status = queued;
  current_step = some "QUEUED";
  attempt_number = seen.attempt_number + 1;
  attempt_history = some (past_attempts seen.attempt_history ++ attempt_of now seen ∷ []);
  needs_user_action_reason = none;
  stopped = nowhere;
  error_code = none;
  validation_path = none;
  error_log = none;
  finished_at = none;
}

module _ (T : Table Run) where
  abbrev Action : Type 0 → Type 0
  Action A = Program (Store T) A

  -- `findFirst({ where: { id, userId } })`
  abbrev pub find_own : String → String → Store T → Option Run
  find_own id user s = elim (T.find_unique id s.runs) [
    | none ↦ none
    | some r ↦ if is_text r.user_id user then some r else none
  ]

  -- `updateMany({ where: { id, userId, … }, data })`: how many rows, a taken key throws.
  unfoldable pub write_where : String → (Run → Bool) → String → (Run → Run) → Action ℕ
  write_where id fits key f s =
      if (T.count_at id fits s.runs == 1) && key_is_taken T id key s
      then (err (database "P2002"), s)
      else (ok (T.count_at id fits s.runs), record s { runs = T.update_at id fits f s.runs })

  abbrev pub answer_moving : String → Option Run → String → Action Answer
  answer_moving id none message = refuse message
  answer_moving id (some r) message =
      if is_moving r.status
      then return (record { run_id = id; status = r.status; was_queued = false })
      else refuse message

  -- Another request moved the run in between: its present state is the answer.
  abbrev pub reread : String → String → String → Action Answer
  reread id user message s = answer_moving id (find_own id user s) message s

  abbrev pub can_resume : String → Run → Bool
  can_resume user r = is_text r.user_id user && is_paused r.status

  abbrev pub after_write : Bool → Action Answer → Action Answer → Action Answer
  after_write true done lost = done
  after_write false done lost = lost

  unfoldable pub resume_paused : String → String → Run → Action Answer
  unfolding write_where application_active_key
  resume_paused id user r = do
    count ←
        write_where id (can_resume user) (application_active_key user r.job_id)
          (resumed_run (application_active_key user r.job_id))
    after_write (count == 1)
        (record_run_stage T id "QUEUED"
          >> (mark_applying T user r.job_id
              >> return (record { run_id = id; status = queued; was_queued = true })))
        (reread id user "This paused run changed state before it could be resumed.")

  abbrev pub answer_run : String → String → Option Run → Action Answer
  answer_run id user none = refuse "This run has no pending question to resume."
  answer_run id user (some r) =
      if is_moving r.status
      then return (record { run_id = id; status = r.status; was_queued = false })
      else if not (is_paused r.status)
      then refuse "This run has no pending question to resume."
      else resume_paused id user r

  unfoldable pub queue_answered_run : String → String → Action Answer
  unfolding resume_paused
  queue_answered_run id user s = answer_run id user (find_own id user s) s

  abbrev pub has_other : (RunStatus → Bool) → String → String → String → Store T → Bool
  has_other fits id user job_id s = is_some (
      T.find_first (λ k r. is_of user job_id r && (not (str_eq k id) && fits r.status))
        (λ _ _. false) s.runs)

  abbrev pub can_retry : String → Run → Bool
  can_retry user r = is_text r.user_id user && (is_failed r.status && not (is_some r.active_key))

  abbrev pub already_active : String
  already_active = "This job already has a queued or active run. The failed run was not duplicated."

  abbrev pub after_retry : String → String → Run → ℕ → Action Answer
  after_retry id user r count =
      after_write (count == 1)
        (record_run_stage T id "QUEUED"
          >> (mark_applying T user r.job_id
              >> (write_audit T "application-run-retried" id
                  >> return (record { run_id = id; status = queued; was_queued = true }))))
        (reread id user "This failed run changed state before it could be queued.")

  -- The `try` block.
  unfoldable pub requeue_failed : ℕ → String → String → Run → Action Answer
  unfolding write_where application_active_key
  requeue_failed now id user r =
      write_where id (can_retry user) (application_active_key user r.job_id)
        (retried_run now (application_active_key user r.job_id) r)
      >>= after_retry id user r

  -- A violated unique constraint is told as an active run.
  abbrev pub explain : Failure → Failure
  explain (database c) = if str_eq c "P2002" then other already_active else database c
  explain e = e

  abbrev pub explained : Result Answer × Store T → Result Answer × Store T
  explained (ok a, s) = (ok a, s)
  explained (err e, s) = (err (explain e), s)

  abbrev pub unless_moving : Bool → String → Run → Action Answer → Action Answer
  unless_moving true id r rest s =
      (ok (record { run_id = id; status = r.status; was_queued = false }), s)
  unless_moving false id r rest s = rest s

  abbrev pub refuse_when : Bool → String → Action Answer → Action Answer
  refuse_when true message rest s = (err (other message), s)
  refuse_when false message rest s = rest s

  abbrev pub only_failed : String
  only_failed = "Only a failed ApplicationRun can be retried with this action."

  abbrev pub requeue : ℕ → String → String → Run → Action Answer
  requeue now id user r s = explained (requeue_failed now id user r s)

  abbrev pub retry_run : ℕ → String → String → Option Run → Action Answer
  retry_run now id user none s = (err (other only_failed), s)
  retry_run now id user (some r) s =
      unless_moving (is_moving r.status) id r
        (refuse_when (not (is_failed r.status)) only_failed (
          refuse_when (has_other is_active id user r.job_id s) already_active (
            refuse_when (has_other is_submitted id user r.job_id s)
              "This requisition is already recorded as submitted." (requeue now id user r))))
        s

  unfoldable pub retry_failed_run : ℕ → String → String → Action Answer
  unfolding requeue_failed
  retry_failed_run now id user s = retry_run now id user (find_own id user s) s
