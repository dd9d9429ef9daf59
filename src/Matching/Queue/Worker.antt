-- ===== src/Matching/Queue/Worker.antt =====
-- One round of a match worker (src/lib/matching/initialAiMatchQueue.ts): recover what a dead worker
-- left, pick the next due item, claim it, score it, and write the outcome.
use internship_pilot.Prelude.{
  ℕ, ◌+◌, ◌&&◌, Bool, true, false, Option, none, some, String, str_eq, leb, ◌==◌, if◌then◌else◌,
}
use internship_pilot.Database.{Table}
use internship_pilot.Program.{
  Program, Result, ok, err, Failure, match_error, database, ◌>>=◌, ◌>>◌, return, throw, catch, each,
}
use internship_pilot.Matching.Queue.{
  state_eq, QueueItem, JobScoring, initial_match_type, max_attempts, Store, update_item, update_job,
  update_both, match_is_taken,
}
use internship_pilot.Matching.Queue.Codes.{safe_error_code}
use internship_pilot.Matching.Queue.Item.{
  PersistedMatch, is_complete_automatic_match, Services, hash_is_current, retry_delay, is_abandoned,
  is_due, is_earlier, interrupted, retired, claimed, finished, failed, is_retryable,
}

module _ (Q : Table QueueItem) (J : Table JobScoring) (env : Services) where
  abbrev Action : Type 0 → Type 0
  Action A = Program (Store Q J) A

  unfoldable pub recover_one : ℕ → String × QueueItem → Action (Unit {0})
  recover_one now (id, r) =
      let terminal = leb max_attempts r.attempt_count in
      update_both Q J id (interrupted now) r.job_id (λ j. record j {
        scoring_state = if terminal then "FAILED" else "RETRYABLE_FAILED";
        scoring_error = some "WORKER_INTERRUPTED";
      })

  unfoldable pub recover_abandoned : ℕ → Action (Unit {0})
  unfolding recover_one
  recover_abandoned now s =
      each (recover_one now) (Q.find_many (λ k r. is_abandoned now r) s.queue) s

  -- `updateMany({ where: { id, state: item.state, nextAttemptAt: { lte: now } }, … })`: the count.
  unfoldable pub claim : ℕ → String → QueueItem → Action ℕ
  claim now id seen s =
      let fits = λ (r : QueueItem). state_eq r.state seen.state && leb r.next_attempt_at now in
      (
        ok (Q.count_at id fits s.queue),
        record s { queue = Q.update_at id fits (claimed now) s.queue },
      )

  unfoldable pub finish : ℕ → String → String → String → Action (Unit {0})
  finish now id job_id match_id s =
      if match_is_taken Q J id match_id s
      then (err (database "P2002"), s)
      else update_both Q J id (finished now match_id) job_id
          (λ j. record j {
            scoring_state = "SCORED";
            scoring_finished_at = some now;
            scoring_error = none;
          })
          s

  -- The `catch` branch.
  unfoldable pub record_failure : ℕ → String → String → ℕ → Failure → Action (Unit {0})
  record_failure now id job_id attempt e =
      let retryable = is_retryable e attempt in
      let next = if retryable then now + retry_delay attempt else now in
      update_both Q J id (failed now retryable next (safe_error_code e)) job_id (λ j. record j {
        scoring_state = if retryable then "RETRYABLE_FAILED" else "FAILED";
        scoring_finished_at = some now;
        scoring_error = some (safe_error_code e);
      })

  abbrev pub origin_of : QueueItem → String
  origin_of r = if str_eq r.match_type initial_match_type then "INITIAL_AUTO" else "PROFILE_AUTO"

  -- What the scorer gave: an incomplete result is thrown as an error.
  unfoldable pub accept : ℕ → String → QueueItem → Result PersistedMatch → Action (Unit {0})
  unfolding finish
  accept now id r (err e) = throw e
  accept now id r (ok m) =
      if is_complete_automatic_match env.valid_json_array m (origin_of r)
      then finish now id r.job_id m.id
      else throw (match_error "MODEL_RESPONSE_INVALID" 502)

  -- The `try` block: an initial match is made once, a refresh ignores the old score.
  unfoldable pub score_item : ℕ → String → QueueItem → String → Option String → Action (Unit {0})
  unfolding accept
  score_item now id r user none = accept now id r (env.scorer r.job_id user (origin_of r))
  score_item now id r user (some match_id) =
      if str_eq r.match_type initial_match_type
      then finish now id r.job_id match_id
      else accept now id r (env.scorer r.job_id user (origin_of r))

  abbrev pub started : ℕ → JobScoring → JobScoring
  started now j = record j {
    scoring_state = "SCORING";
    scoring_started_at = some now;
    scoring_heartbeat_at = some now;
    scoring_error = none;
  }

  -- The whole `try … catch`.
  abbrev pub score_or_record : ℕ → String → QueueItem → String → Action (Unit {0})
  score_or_record now id r user =
      catch (score_item now id r user (env.existing_match user r.job_id))
        (record_failure now id r.job_id (r.attempt_count + 1))

  unfoldable pub run_claimed : ℕ → String → QueueItem → String → Action Bool
  unfolding score_item record_failure
  run_claimed now id r user = do
    update_job Q J r.job_id (started now)
    score_or_record now id r user
    return true

  unfoldable pub claim_and_run : ℕ → String → QueueItem → String → Action Bool
  unfolding claim run_claimed
  claim_and_run now id r user = do
    count ← claim now id r
    if count == 0 then return true else run_claimed now id r user

  abbrev pub retire : ℕ → String → String → Action Bool
  retire now id reason = update_item Q J id (retired now reason) >> return true

  -- By the owner of the item.
  unfoldable pub process_owned : ℕ → String → QueueItem → Option String → Action Bool
  unfolding claim_and_run
  process_owned now id r none = retire now id "OWNER_UNKNOWN"
  process_owned now id r (some user) =
      if str_eq r.match_type initial_match_type
      then claim_and_run now id r user
      else if hash_is_current (env.refresh_hash r.match_type) (env.profile_revision user)
      then claim_and_run now id r user
      else retire now id "PROFILE_REVISION_SUPERSEDED"

  unfoldable pub find_due : ℕ → Action (Option (String × QueueItem))
  find_due now s = (ok (Q.find_first (λ k r. is_due now r) is_earlier s.queue), s)

  unfoldable pub process_found : ℕ → Option (String × QueueItem) → Action Bool
  unfolding process_owned
  process_found now none = return false
  process_found now (some (id, r)) = process_owned now id r r.user_id

  unfoldable pub process_due : ℕ → Action Bool
  unfolding find_due process_found
  process_due now = do item ← find_due now; process_found now item

  unfoldable pub process_next : ℕ → Action Bool
  unfolding recover_abandoned process_due
  process_next now = recover_abandoned now >> process_due now
