-- ===== src/Tests/Process.antt =====
-- A run in the worker at concrete inputs: a page on which the adapter fills the form.
use internship_pilot.Prelude.{◌≡◌, refl, true, false, none, some, [], ◌∷◌}
use internship_pilot.Database.Memory.{memory}
use internship_pilot.Program.{ok}
use internship_pilot.Documents.Strategy.{Document}
use internship_pilot.Applications.Queue.{RunStatus, running, Run, nowhere}
use internship_pilot.Applications.Worker.Process.{
  form_filled, FillResult, Posting, World, Surroundings,
}
use internship_pilot.Applications.Worker.Process.Steps.{process_application_run}
use internship_pilot.Applications.Worker.Process.Rules.{IsEnded}
use internship_pilot.Applications.Worker.Process.Alive.{IsHarmless}
use internship_pilot.Applications.Worker.Process.Ends.{process_application_run-IsEnded}

abbrev claimed : Run
claimed = record {
  user_id = some "u1";
  active_key = some "u1:j1";
  job_id = "j1";
  status = running;
  current_step = none;
  needs_user_action_reason = none;
  stopped = nowhere;
  resume_document_id = some "d1";
  cover_letter_document_id = none;
  strategy_reason = none;
  match_score = none;
  attempt_number = 1;
  attempt_history = none;
  error_code = none;
  validation_path = none;
  error_log = none;
  finished_at = none;
  created_at = 10;
}

abbrev resume : Document
resume = record {
  id = "d1";
  type = "resume";
  qa_status = "pass";
  identity_verified = true;
  tailoring_status = none;
}

abbrev posting : Posting
posting = record {
  verification_status = "VERIFIED_OFFICIAL_AT_LAST_CHECK";
  source = "greenhouse";
  eligibility = some "Pass";
  documents = resume ∷ [];
}

abbrev filled_form : FillResult
filled_form = record {
  status = form_filled;
  stop_reason = none;
  stopped_field_label = none;
  stopped_field = none;
  error = none;
}

abbrev surroundings : Surroundings memory
surroundings = record {
  now = 100;
  patterns = record { test = λ p t. false; captured_path = λ t. none };
  message = λ e. "failed";
  technical = λ e. "failed";
  is_browser_failure = λ e. false;
  validate = λ id w. (ok "https://acme.example/1", w);
  posting = λ j. posting;
  starts_with_https = λ u. true;
  recheck_official_url = λ u. record { is_closed = false; reason = "" };
  job_is_fraudulent = λ j. false;
  has_profile = λ u. true;
  assert_uploadable = λ d w. (ok tt, w);
  acquire_run_page = λ id w. (ok tt, w);
  navigate = λ id w. (ok true, w);
  page_is_fraudulent = λ id. false;
  page_context = λ id. "{}";
  fill = λ id w. (ok filled_form, w);
}

abbrev world : World memory
world = record {
  queue = record {
    runs = record { keys = "r1" ∷ []; look = λ k. some claimed };
    applying = [];
    audit = [];
    apply_urls = [];
  };
  tracker = [];
  job_status = [];
}

harmless : IsHarmless memory surroundings "r1"
harmless = record {
  validate_keeps = λ w l. l;
  upload_keeps = λ d w l. l;
  page_keeps = λ w l. l;
  navigate_keeps = λ w l. l;
  fill_keeps = λ w l. l;
}

process_application_run-IsEnded_example :
    (st : RunStatus) × ((process_application_run memory surroundings "r1" world).0 ≡ ok st)
    × IsEnded memory "r1" st (process_application_run memory surroundings "r1" world).1
process_application_run-IsEnded_example =
    process_application_run-IsEnded memory surroundings "r1" harmless claimed world refl refl
