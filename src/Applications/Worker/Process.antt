-- ===== src/Applications/Worker/Process.antt =====
-- One claimed run in the application worker (`processApplicationRun` in
-- src/lib/applications/worker.ts). The browser, the form adapters, the checks of the posting and the
-- user's records come in as `Surroundings`; columns that no theorem reads are left out.
pub mod Steps
pub mod Rules
pub mod Alive
pub mod Ends
use internship_pilot.Prelude.{
  ℕ, ◌&&◌, ◌||◌, Bool, true, false, not, Option, none, some, List, ◌∷◌, String, str_eq, is_text,
  is_some, if◌then◌else◌, find, or_else,
}
use internship_pilot.Database.{Table}
use internship_pilot.Program.{
  Program, Result, ok, err, Failure, other, database, ◌>>=◌, ◌>>◌, return, throw, catch,
}
use internship_pilot.Documents.Strategy.{Document, is_usable_resume}
use internship_pilot.Applications.Queue.{
  RunStatus, running, needs_user_action, filled, submitted, failed, is_submitted, StoppedField, Run,
  nowhere, guard, Store, write_audit, key_is_taken, record_run_stage,
}
use internship_pilot.Applications.Worker.Errors.{Patterns, Classified, classify_error_code}

abbrev pub is_running : RunStatus → Bool
is_running running = true
is_running _ = false

-- The `status` of a `FillResult`.
pub data FillStatus : Type 0 where
  form_filled paused was_submitted fill_failed : FillStatus

pub record FillResult : Type 0 where
  pub status : FillStatus
  pub stop_reason : Option String
  pub stopped_field_label : Option String
  pub stopped_field : Option StoppedField
  pub error : Option String

-- What `recheckOfficialUrl` says of the posting.
pub record Recheck : Type 0 where
  pub is_closed : Bool
  pub reason : String

-- The posting with its latest match and its documents.
pub record Posting : Type 0 where
  pub verification_status : String
  pub source : String
  pub eligibility : Option String
  pub documents : List Document

abbrev pub run_status : FillStatus → RunStatus
run_status form_filled = filled
run_status paused = needs_user_action
run_status was_submitted = submitted
run_status fill_failed = failed

abbrev pub is_paused : FillStatus → Bool
is_paused paused = true
is_paused _ = false

abbrev pub is_failure : FillStatus → Bool
is_failure fill_failed = true
is_failure _ = false

abbrev pub final_stage : FillStatus → String
final_stage form_filled = "FINAL_REVIEW"
final_stage paused = "NEEDS_USER_ACTION"
final_stage _ = "FAILED"

-- The applicant's own tracker after the run.
abbrev pub tracker_status : FillStatus → String
tracker_status form_filled = "READY_TO_APPLY"
tracker_status paused = "NEEDS_USER_ACTION"
tracker_status _ = "FAILED"

abbrev pub run_action : FillStatus → String
run_action form_filled = "application-run-filled"
run_action paused = "application-run-needs_user_action"
run_action was_submitted = "application-run-submitted"
run_action fill_failed = "application-run-failed"

abbrev pub is_eligible : Option String → Bool
is_eligible none = false
is_eligible (some e) = not (str_eq e "Fail")

-- `label || "(Label unavailable)"`
abbrev pub label_or : Option String → Option String
label_or none = some "(Label unavailable)"
label_or (some l) = if str_eq l "" then some "(Label unavailable)" else some l

-- The field at which a paused run stands, though the adapter named none; `context` encodes the page.
abbrev pub fallback_field : String → Option String → StoppedField
fallback_field context label = record {
  label = label_or label;
  type = some "page_intervention";
  options = some "[]";
  step = some 1;
  context = some context;
}

abbrev pub stopped_at : String → FillResult → StoppedField
stopped_at context r = elim r.stopped_field [
  | none ↦ if is_paused r.status then fallback_field context r.stopped_field_label else nowhere
  | some f ↦ f
]

-- The data of the update that ends a fill.
abbrev pub filled_run : Patterns → ℕ → String → String → FillResult → Run → Run
filled_run p now context job_id r run =
    let classified = classify_error_code p r.error in
    record run {
      active_key = if is_paused r.status then some job_id else none;
      status = run_status r.status;
      needs_user_action_reason = r.stop_reason;
      stopped = stopped_at context r;
      current_step = some (final_stage r.status);
      error_log = if is_paused r.status then none else r.error;
      error_code = if is_failure r.status then some classified.error_code else none;
      validation_path = if is_failure r.status then classified.validation_path else none;
      finished_at = if is_paused r.status then none else some now;
    }

-- The data of the update that pauses a run whose page looks fraudulent.
abbrev pub quarantined_run : String → Run → Run
quarantined_run context run = record run {
  status = needs_user_action;
  current_step = some "NEEDS_USER_ACTION";
  needs_user_action_reason = some "security_quarantine";
  stopped = record (fallback_field context none) { label = some "Security review required" };
  finished_at = none;
}

-- The data of the update after an error.
abbrev pub failed_run : ℕ → String → Classified → Run → Run
failed_run now technical classified run = record run {
  active_key = none;
  status = failed;
  current_step = some "FAILED";
  error_log = some technical;
  error_code = some classified.error_code;
  validation_path = classified.validation_path;
  finished_at = some now;
}

module _ (T : Table Run) where
  -- The runs and the audit log, and the writes to `UserJobState` and `Job`, the latest first.
  pub record World : Type 0 where
    pub queue : Store T
    pub tracker : List (String × String × String)
    pub job_status : List (String × String)

  pub record Surroundings : Type 0 where
    pub now : ℕ
    pub patterns : Patterns
    pub message : Failure → String
    pub technical : Failure → String
    pub is_browser_failure : Failure → Bool
    -- `validateAndNormalizeApplicationRun`, with the address of the form
    pub validate : String → Program World String
    pub posting : String → Posting
    pub starts_with_https : String → Bool
    pub recheck_official_url : String → Recheck
    pub job_is_fraudulent : String → Bool
    pub has_profile : String → Bool
    pub assert_uploadable : String → Program World (Unit {0})
    -- the page of the run; whether a form was found; whether its text looks fraudulent; the fill
    pub acquire_run_page : String → Program World (Unit {0})
    pub navigate : String → Program World Bool
    pub page_is_fraudulent : String → Bool
    pub page_context : String → String
    pub fill : String → Program World FillResult

  abbrev pub on_queue : {A : Type 0} → Program (Store T) A → Program World A
  on_queue m w = ((m w.queue).0, record w { queue = (m w.queue).1 })

  abbrev pub find_run : String → World → Option Run
  find_run id w = T.find_unique id w.queue.runs

  abbrev pub write_run : String → (Run → Run) → World → World
  write_run id f w = record w {
    queue = record w.queue { runs = T.update_at id (λ _. true) f w.queue.runs };
  }

  -- `prisma.applicationRun.update({ where: { id }, data })`; a missing row throws.
  unfoldable pub update_run : String → (Run → Run) → Program World (Unit {0})
  update_run id f w =
      if is_some (find_run id w) then (ok tt, write_run id f w) else (err (database "P2025"), w)

  abbrev pub is_key_free : String → Option String → World → Bool
  is_key_free id none w = true
  is_key_free id (some key) w = not (key_is_taken T id key w.queue)

  -- The same update, where it writes `activeKey`, a unique column.
  unfoldable pub update_run_key : String → Option String → (Run → Run) → Program World (Unit {0})
  update_run_key id key f w =
      if is_key_free id key w then update_run id f w else (err (database "P2002"), w)

  abbrev pub stage : String → String → Program World (Unit {0})
  stage id name = on_queue (record_run_stage T id name)

  abbrev pub step_to : String → String → Program World (Unit {0})
  step_to id name = update_run id (λ r. record r { current_step = some name })

  abbrev pub set_job_status : String → String → Program World (Unit {0})
  set_job_status job_id status w =
      (ok tt, record w { job_status = (job_id, status) ∷ w.job_status })

  abbrev pub track : String → String → String → Program World (Unit {0})
  track user job_id status w = (ok tt, record w { tracker = (user, job_id, status) ∷ w.tracker })
