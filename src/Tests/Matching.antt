-- ===== src/Tests/Matching.antt =====
-- The match queue at concrete inputs.
use internship_pilot.Prelude.{
  ℕ, ◌+◌, ◌<◌, ◌≡◌, ◌≢◌, ◌⊎◌, ◌↔◌, refl, arith, true, false, none, some, List, [], ◌∷◌, String,
}
use internship_pilot.Database.Memory.{memory}
use internship_pilot.Program.{ok, match_error, type_error}
use internship_pilot.Matching.Queue.{
  retryable_failed, permanent_failed, QueueItem, JobScoring, Store, same_work, max_attempts,
}
use internship_pilot.Matching.Queue.Codes.{
  safe_error_code, is_transient, is_error_code, codes, safe_error_code-is_error_code,
}
use internship_pilot.Matching.Queue.Item.{Services, PersistedMatch, retry_delay}
use internship_pilot.Matching.Queue.Worker.{claim, record_failure, process_next}
use internship_pilot.Matching.Queue.Sound.{IsSound}
use internship_pilot.Matching.Queue.Invariant.{AllSound, process_next-AllSound}
use internship_pilot.Matching.Queue.Claims.{after_claims, claim_once, record_failure_cases}
use internship_pilot.Matching.Queue.Schedule.{
  JobView, scheduled, already_scheduled, blocks, schedule, new_item, find_work,
}
use internship_pilot.Matching.Queue.Schedule.Laws.{schedule-AllSound}
use internship_pilot.Matching.Queue.Schedule.Outcome.{IsReady, IsQueued, schedule-IsQueued}

abbrev scored : PersistedMatch
scored = record {
  id = "m1";
  score = some 88;
  eligibility = "Pass";
  eligibility_reason = "student";
  explanation = "fits";
  skills = "[]" ∷ [];
  origin = some "INITIAL";
}

abbrev services : Services
services = record {
  refresh_hash = λ t. none;
  profile_revision = λ u. none;
  existing_match = λ u j. none;
  scorer = λ j u o. ok scored;
  valid_json_array = λ t. true;
}

abbrev item : QueueItem
item = new_item "j1" "u1" 10

abbrev job : JobScoring
job = record {
  scoring_state = "QUEUED";
  scoring_queued_at = some 10;
  scoring_started_at = none;
  scoring_heartbeat_at = none;
  scoring_finished_at = none;
  scoring_error = none;
}

abbrev store : Store memory memory
store = record {
  queue = record { keys = "q1" ∷ []; look = λ k. some item };
  jobs = record { keys = "j1" ∷ []; look = λ k. some job };
}

item-IsSound : IsSound item
item-IsSound = ground arith

store-AllSound : AllSound memory memory store
store-AllSound k r e = ground (arith, item-IsSound)

process_next-AllSound_example :
    AllSound memory memory (process_next memory memory services 20 store).1
process_next-AllSound_example = process_next-AllSound memory memory services 20 store store-AllSound

one_claimed : (claim memory memory services 20 "q1" item store).0 ≢ ok 0
unfolding claim
one_claimed e = cc

abbrev others : List (ℕ × String × QueueItem)
others = (25, "q1", item) ∷ (26, "q7", item) ∷ []

claim_once_example :
    (claim memory memory services 30 "q1" item (
      after_claims memory memory services others
        (claim memory memory services 20 "q1" item store).1)).0
    ≡ ok 0
claim_once_example =
    claim_once memory memory services 20 30 "q1" item item others store refl one_claimed

record_failure_cases_example :
    (q : QueueItem) × ((memory {Row = QueueItem}).find_unique "q1"
        (record_failure memory memory services 20 "q1" "j1" 1 type_error store).1.queue
      ≡ some q)
    × (q.locked_at ≡ none)
    × (q.last_error_code ≡ some (safe_error_code type_error))
    × (q.attempt_count ≡ item.attempt_count)
    × ((q.state ≡ retryable_failed)
        ↔ ((is_transient type_error (safe_error_code type_error) ≡ true) × (1 < max_attempts)))
    × (q.state ≡ retryable_failed → q.next_attempt_at ≡ 20 + retry_delay 1)
    × (q.state ≢ retryable_failed → (q.state ≡ permanent_failed) × (q.completed_at ≡ some 20))
record_failure_cases_example =
    record_failure_cases memory memory services 20 "q1" "j1" 1 type_error store item refl refl

safe_error_code-is_error_code_example :
    is_error_code (codes (safe_error_code (match_error "oops: key=123" 500))) ≡ true
safe_error_code-is_error_code_example =
    safe_error_code-is_error_code (match_error "oops: key=123" 500)

abbrev view : JobView
view = record { has_match = false; stored_score = none; usable_description = true }

schedule-IsQueued_example :
    let r = schedule memory memory "q2" "j1" "u2" 20 (some view) false 3 store in
    (r.0 ≡ ok scheduled
      → IsReady (some view) 3 × IsQueued memory memory "j1" "u2" 20 false store r.1)
    × (r.0 ≢ ok scheduled → r.1 ≡ store)
    × (IsReady (some view) 3
        → blocks false (find_work memory memory "j1" "u2" store) ≡ false
        → (j : JobScoring) → (memory {Row = JobScoring}).find_unique "j1" store.jobs ≡ some j
        → (r.0 ≡ ok scheduled)
          ⊎ ((r.0 ≡ ok already_scheduled)
              × ((memory {Row = QueueItem}).create same_work "q2"
                    (new_item "j1" "u2" 20)
                    store.queue
                  ≡ none)))
schedule-IsQueued_example =
    schedule-IsQueued memory memory "q2" "j1" "u2" 20 (some view) false 3 store

schedule-AllSound_example :
    AllSound memory memory (schedule memory memory "q2" "j1" "u2" 20 (some view) false 3 store).1
schedule-AllSound_example =
    schedule-AllSound memory memory "q2" "j1" "u2" 20 (some view) false 3 store store-AllSound
