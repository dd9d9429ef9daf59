-- ===== src/Tests/Freshness.antt =====
-- A batch of rechecks at concrete inputs: one posting, whose address answers 404.
use internship_pilot.Prelude.{◌≡◌, refl, true, none, some, [], ◌∷◌}
use internship_pilot.Database.Memory.{Rows, memory}
use internship_pilot.Jobs.Sort.{sort_by}
use internship_pilot.Sync.Freshness.{
  Response, Web, FreshJob, closed_job, probe_official_job_availability, update_fresh, recheck_job,
  recheck_all, due_jobs, run_freshness_verification_batch,
}
use internship_pilot.Sync.Freshness.Laws.{IsConfirmedAt, freshness_closes}

abbrev missing_page : Response
missing_page = record { status = 404; url = ""; content_type = "text/html"; text = some "" }

abbrev web : Web
web = record {
  fetch = λ u. some missing_page;
  show_number = λ n. "404";
  to_iso_string = λ n. "now";
  includes_text = λ t p. true;
  prefix = λ n t. t;
  closed_text_patterns = [];
}

abbrev shown : FreshJob
shown = record {
  active_feed = true;
  verification_status = "VERIFIED_OFFICIAL_AT_LAST_CHECK";
  official_application_url = some "https://acme.example/1";
  last_verified_at = none;
  source_posted_at = none;
  reason_code = none;
  verification_reason = none;
  http_status_at_verification = none;
  classification = none;
  classification_reason = none;
}

abbrev feed : Rows FreshJob
feed = record { keys = "j1" ∷ []; look = λ k. some shown }

abbrev dropped : FreshJob
dropped = closed_job web 90 (probe_official_job_availability web "https://acme.example/1") shown

dropped_one :
    (memory {Row = FreshJob}).find_unique "j1"
      (run_freshness_verification_batch memory web 90 10 feed).1
    ≡ some dropped
unfolding run_freshness_verification_batch recheck_all recheck_job update_fresh due_jobs
    probe_official_job_availability sort_by
dropped_one = refl

freshness_closes_example : IsConfirmedAt web (some "https://acme.example/1")
freshness_closes_example =
    freshness_closes memory web 90 10 feed "j1" shown dropped refl refl dropped_one refl
