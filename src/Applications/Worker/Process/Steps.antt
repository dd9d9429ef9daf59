-- ===== src/Applications/Worker/Process/Steps.antt =====
-- `processApplicationRun` (src/lib/applications/worker.ts), step by step: the checks before the
-- browser, the page, the fill, and what an error leaves.
use internship_pilot.Prelude.{
  ◌&&◌, ◌||◌, Bool, true, false, not, Option, none, some, [], ◌∷◌, String, str_eq, is_text, is_some,
  if◌then◌else◌, find,
}
use internship_pilot.Database.{Table}
use internship_pilot.Program.{
  Program, ok, err, Failure, other, ◌>>=◌, ◌>>◌, return, throw, catch, in_order,
}
use internship_pilot.Documents.Strategy.{Document, is_usable_resume}
use internship_pilot.Applications.Queue.{
  RunStatus, needs_user_action, failed, is_submitted, Run, guard, write_audit,
}
use internship_pilot.Applications.Worker.Errors.{classify_error_code}
use internship_pilot.Applications.Worker.Process.{
  is_running, FillResult, Recheck, run_status, is_paused, final_stage, tracker_status, run_action,
  is_eligible, filled_run, quarantined_run, failed_run, World, Surroundings, on_queue, find_run,
  update_run, update_run_key, stage, step_to, set_job_status, track,
}

module _ (T : Table Run) (env : Surroundings T) where
  abbrev pub refresh : Option Run → Program (World T) Run
  refresh none w = (err (other "Validated application run disappeared before processing."), w)
  refresh (some r) w = (ok r, w)

  abbrev pub submitted_elsewhere : String → Run → World T → Bool
  submitted_elsewhere id r w = is_some (
      T.find_first (λ k q. not (str_eq k id) && (str_eq q.job_id r.job_id && is_submitted q.status))
        (λ _ _. false) w.queue.runs)

  -- Only a confirmed closure stops the run.
  abbrev pub stop_if_closed : String → Recheck → Program (World T) (Unit {0})
  stop_if_closed job_id recheck =
      if recheck.is_closed
      then set_job_status T job_id "Closed" >> throw (other recheck.reason)
      else return tt

  abbrev pub owner_of : Option String → Program (World T) String
  owner_of none w = (err (other "This application run has no owner and cannot be filled."), w)
  owner_of (some user) w =
      if str_eq user ""
      then (err (other "This application run has no owner and cannot be filled."), w)
      else (ok user, w)

  abbrev pub is_cover_letter : Document → Bool
  is_cover_letter d =
      str_eq d.type "coverLetter" && (str_eq d.qa_status "pass" && d.identity_verified)

  abbrev pub queued_resume : Option Document → Program (World T) Document
  queued_resume none w = (err (other "The queued resume is missing or no longer QA-approved."), w)
  queued_resume (some d) w = (ok d, w)

  abbrev pub assert_document : Option Document → Program (World T) (Unit {0})
  assert_document none = return tt
  assert_document (some d) = env.assert_uploadable d.id

  -- The checks of the posting, before anything of the user's is read.
  unfoldable pub check_posting : Run → String → Bool → Program (World T) (Unit {0})
  check_posting run url elsewhere =
      let job = env.posting run.job_id in
      in_order (
        guard (str_eq job.verification_status "VERIFIED_OFFICIAL_AT_LAST_CHECK")
          "The posting is no longer verified; the worker did not open it."
        ∷ guard (not elsewhere) "This requisition is already recorded as submitted."
        ∷ guard (is_eligible job.eligibility) "Eligibility is no longer Pass or Unknown."
        ∷ guard (env.starts_with_https url || str_eq job.source "application-worker-test")
            "Validated officialApplyUrl is not HTTPS."
        ∷ stop_if_closed run.job_id (env.recheck_official_url url)
        ∷ guard (not (env.job_is_fraudulent run.job_id)) "Fraud protection stopped this run"
        ∷ [])

  abbrev pub resume_of : Run → Option Document
  resume_of run =
      find (λ d. is_text run.resume_document_id d.id && is_usable_resume d)
        (env.posting run.job_id).documents

  abbrev pub cover_letter_of : Run → Option Document
  cover_letter_of run =
      find (λ d. is_text run.cover_letter_document_id d.id && is_cover_letter d)
        (env.posting run.job_id).documents

  unfoldable pub check_owner : Run → Document → String → Program (World T) (Unit {0})
  check_owner run resume user = in_order (
      guard (env.has_profile user) "No Application Profile is saved."
      ∷ env.assert_uploadable resume.id
      ∷ assert_document (cover_letter_of run)
      ∷ [])

  unfoldable pub check_user : Run → Document → String → Program (World T) String
  check_user run resume user = check_owner run resume user >> return user

  unfoldable pub check_resume : Run → Document → Program (World T) String
  check_resume run resume = owner_of run.user_id >>= check_user run resume

  -- The checks between the validation and the browser; they give the owner of the run.
  unfoldable pub check_run : String → Run → String → Program (World T) String
  check_run id run url w =
      (check_posting run url (submitted_elsewhere id run w)
          >> (queued_resume (resume_of run) >>= check_resume run))
        w

  unfoldable pub open_page : String → Program (World T) (Unit {0})
  open_page id = in_order (
      on_queue T (write_audit T "application-run-started" id)
      ∷ step_to T id "STARTING_BROWSER"
      ∷ stage T id "STARTING_BROWSER"
      ∷ env.acquire_run_page id
      ∷ step_to T id "NAVIGATING"
      ∷ stage T id "NAVIGATING"
      ∷ [])

  unfoldable pub read_form : String → Bool → Program (World T) (Unit {0})
  read_form id form_detected = in_order (
      guard form_detected "No readable application form fields were detected"
      ∷ stage T id "READING_FORM"
      ∷ [])

  -- The page is opened and the form looked for.
  unfoldable pub open_form : String → Program (World T) (Unit {0})
  open_form id = open_page id >> (env.navigate id >>= read_form id)

  unfoldable pub block_job : String → Program (World T) RunStatus
  block_job job_id = set_job_status T job_id "NEEDS_USER_ACTION" >> return needs_user_action

  unfoldable pub quarantine : String → String → Program (World T) RunStatus
  quarantine id job_id =
      stage T id "NEEDS_USER_ACTION"
      >> (update_run T id (quarantined_run (env.page_context id)) >> block_job job_id)

  unfoldable pub record_fill : String → String → FillResult → Program (World T) (Unit {0})
  record_fill id job_id r =
      update_run_key T id (if is_paused r.status then some job_id else none)
        (filled_run env.patterns env.now (env.page_context id) job_id r)

  unfoldable pub report_fill : String → String → String → FillResult → Program (World T) RunStatus
  report_fill id user job_id r =
      track T user job_id (tracker_status r.status)
      >> (on_queue T (write_audit T (run_action r.status) id) >> return (run_status r.status))

  unfoldable pub end_fill : String → String → String → FillResult → Program (World T) RunStatus
  end_fill id user job_id r =
      stage T id (final_stage r.status) >> (record_fill id job_id r >> report_fill id user job_id r)

  -- A submission is never recorded: it counts as an error.
  unfoldable pub finish_fill : String → String → String → FillResult → Program (World T) RunStatus
  finish_fill id user job_id r =
      guard (not (is_submitted (run_status r.status)))
        "Safety invariant violation: an adapter reported a submission in Fill To Submit mode."
      >> end_fill id user job_id r

  unfoldable pub start_fill : String → Program (World T) (Unit {0})
  start_fill id = in_order (step_to T id "FILLING" ∷ stage T id "FILLING" ∷ [])

  unfoldable pub fill_form : String → String → String → Program (World T) RunStatus
  fill_form id user job_id = start_fill id >> (env.fill id >>= finish_fill id user job_id)

  abbrev pub after_page : Bool → String → String → String → Program (World T) RunStatus
  after_page true id user job_id = quarantine id job_id
  after_page false id user job_id = fill_form id user job_id

  unfoldable pub open_and_fill : String → String → String → Program (World T) RunStatus
  open_and_fill id job_id user =
      open_form id >> after_page (env.page_is_fraudulent id) id user job_id

  unfoldable pub run_checked : String → String → Run → Program (World T) RunStatus
  run_checked id url run = check_run id run url >>= open_and_fill id run.job_id

  abbrev pub refreshed : String → Program (World T) Run
  refreshed id w = refresh (find_run T id w) w

  unfoldable pub attempt_run : String → Program (World T) RunStatus
  attempt_run id = env.validate id >>= λ url. refreshed id >>= run_checked id url

  unfoldable pub record_failure : String → Failure → Program (World T) (Unit {0})
  record_failure id e = update_run T id (
      failed_run env.now (env.technical e)
        (classify_error_code env.patterns (some (env.message e))))

  unfoldable pub failure_stages : String → Failure → Program (World T) (Unit {0})
  failure_stages id e = in_order (
      (if env.is_browser_failure e then stage T id "BROWSER_RESTART_FAILED" else return tt)
      ∷ stage T id "FAILED"
      ∷ [])

  unfoldable pub report_failure : String → String → Program (World T) RunStatus
  report_failure id job_id =
      set_job_status T job_id "FAILED"
      >> (on_queue T (write_audit T "application-run-failed" id) >> return failed)

  -- The `catch` branch.
  unfoldable pub fail_run : String → String → Failure → Program (World T) RunStatus
  fail_run id job_id e = failure_stages id e >> (record_failure id e >> report_failure id job_id)

  abbrev pub process_found : String → Option Run → Program (World T) RunStatus
  process_found id none w =
      (err (other "The queued application run was not claimed by this worker."), w)
  process_found id (some r) w =
      if is_running r.status
      then catch (attempt_run id) (fail_run id r.job_id) w
      else (err (other "The queued application run was not claimed by this worker."), w)

  unfoldable pub process_application_run : String → Program (World T) RunStatus
  process_application_run id w = process_found id (find_run T id w) w
