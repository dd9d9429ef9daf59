-- ===== src/Tests/Applications.antt =====
-- Queueing an application at concrete inputs.
use internship_pilot.Prelude.{All, ◌≡◌, refl, true, false, none, some, [], ◌∷◌}
use internship_pilot.Database.Memory.{memory, no_rows}
use internship_pilot.Program.{ok}
use internship_pilot.Jobs.Availability.{is_active_availability, canonical_availability}
use internship_pilot.Documents.Strategy.{
  Document, complete, is_usable_resume, strategy_from_tailoring_status,
}
use internship_pilot.Applications.Queue.{
  Run, queued, is_filled, is_submitted, Answer, Store, mark_applying, write_audit, record_run_stage,
  key_is_taken, failed,
}
use internship_pilot.Applications.Queue.Request.{
  Urls, JobView, choose_resume, new_run, is_allowed_url,
}
use internship_pilot.Applications.Queue.Enqueue.{enqueue_application, find_run}
use internship_pilot.Applications.Queue.Resume.{retry_failed_run}
use internship_pilot.Applications.Queue.Retry.{IsRetried, retry_failed_run-IsRetried}
use internship_pilot.Applications.Queue.Choice.{IsBest, choose_resume-IsBest}
use internship_pilot.Applications.Queue.Claims.{
  IsQueued, enqueue_application-IsQueued, enqueue_application_alone,
}

abbrev resume : Document
resume = record {
  id = "d1";
  type = "resume";
  qa_status = "pass";
  identity_verified = true;
  tailoring_status = some "TAILORED";
}

abbrev job : JobView
job = record {
  verification_status = some "ACTIVE_SOURCE_LISTED";
  source = "greenhouse";
  official_apply_url = some "https://acme.example/1";
  url = none;
  official_job_url = none;
  source_url = none;
  latest_match = none;
  documents = resume ∷ [];
  completeness = complete;
}

abbrev urls : Urls
urls = record { parse_url = λ u. some ("https:", "acme.example") }

abbrev before : Store memory
before = record { runs = no_rows; applying = []; audit = []; apply_urls = [] }

abbrev answer : Answer
answer = record { run_id = "r1"; status = queued; was_queued = true }

abbrev after : Store memory
after = (enqueue_application memory urls "r1" 100 false "u1" "j1" (some job) before).1

accepted :
    enqueue_application memory urls "r1" 100 false "u1" "j1" (some job) before ≡ (ok answer, after)
unfolding enqueue_application canonical_availability is_active_availability is_allowed_url
    strategy_from_tailoring_status mark_applying write_audit
accepted = refl

abbrev master : Document
master = record {
  id = "d0";
  type = "resume";
  qa_status = "pass";
  identity_verified = true;
  tailoring_status = none;
}

choose_resume-IsBest_example :
    ((d : Document)
      → choose_resume (master ∷ resume ∷ []) ≡ some d
      → IsBest (master ∷ resume ∷ []) d)
    × (choose_resume (master ∷ resume ∷ []) ≡ none
        → All (λ x. is_usable_resume x ≡ false) (master ∷ resume ∷ []))
choose_resume-IsBest_example = choose_resume-IsBest (master ∷ resume ∷ [])

enqueue_application-IsQueued_example :
    (false ≡ false)
    × ((j : JobView) × (some job ≡ some j)
        × (is_active_availability j.verification_status ≡ true)
        × (find_run memory urls is_submitted "u1" "j1" before ≡ none)
        × (find_run memory urls is_filled "u1" "j1" before ≡ none)
        × IsQueued memory urls "r1" 100 "u1" "j1" j answer before after)
enqueue_application-IsQueued_example =
    enqueue_application-IsQueued memory urls "r1" 100 false "u1" "j1" (some job) before answer after
      accepted refl

stored : (memory {Row = Run}).find_unique "r1" after.runs ≡ some (new_run "u1" "j1" 100 job resume)
unfolding enqueue_application canonical_availability is_active_availability is_allowed_url
    strategy_from_tailoring_status mark_applying write_audit
stored = refl

enqueue_application_alone_example : "r1" ≡ answer.run_id
enqueue_application_alone_example =
    enqueue_application_alone memory urls "r1" 100 false "u1" "j1" (some job) before answer after
      "r1" (new_run "u1" "j1" 100 job resume) accepted refl stored refl refl

abbrev failed_run : Run
failed_run = record (new_run "u1" "j1" 100 job resume) {
  status = failed;
  active_key = none;
  error_code = some "FORM";
  finished_at = some 150;
}

abbrev after_failure : Store memory
after_failure = record before { runs = record { keys = "r1" ∷ []; look = λ k. some failed_run } }

abbrev retried : Store memory
retried = (retry_failed_run memory 200 "r1" "u1" after_failure).1

retries : retry_failed_run memory 200 "r1" "u1" after_failure ≡ (ok answer, retried)
unfolding retry_failed_run mark_applying write_audit record_run_stage key_is_taken
retries = refl

retry_failed_run-IsRetried_example : IsRetried memory 200 "r1" "u1" after_failure retried
retry_failed_run-IsRetried_example =
    retry_failed_run-IsRetried memory 200 "r1" "u1" after_failure answer retried retries refl
