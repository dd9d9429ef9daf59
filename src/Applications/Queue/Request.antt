-- ===== src/Applications/Queue/Request.antt =====
-- What `enqueueApplication` (src/lib/applications/queue.ts) reads of a job, its checks and choices
-- on it. The message about a bad URL quotes the URL in the source.
use Prim.Native.String.{◌++◌ as concat}
use internship_pilot.Prelude.{
  ℕ, ◌&&◌, ◌||◌, Bool, true, false, not, Option, none, some, List, [], ◌∷◌, String, str_eq,
  if◌then◌else◌, ltb, keep, find, or_else,
}
use internship_pilot.Program.{Program, ok, err, other}
use internship_pilot.Jobs.Availability.{
  security_blocked, closed_confirmed, destination_mismatch, canonical_availability,
  is_active_availability,
}
use internship_pilot.Documents.Strategy.{
  Document, DocumentStrategy, tailored, partial_tailoring, existing_approved_document, Completeness,
  is_usable_resume, strategy_from_tailoring_status, document_strategy_reason, strategy_text,
}
use internship_pilot.Applications.Queue.{queued, superseded, Run, nowhere, application_active_key}

pub record LatestMatch : Type 0 where
  pub eligibility : String
  pub score : ℕ

-- The job with the user's own match and documents, as the request reads it.
pub record JobView : Type 0 where
  pub verification_status : Option String
  pub source : String
  pub official_apply_url : Option String
  pub url : Option String
  pub official_job_url : Option String
  pub source_url : Option String
  pub latest_match : Option LatestMatch
  pub documents : List Document
  pub completeness : Completeness

-- The protocol and host of a URL, `none` where `new URL` throws.
pub record Urls : Type 0 where
  pub parse_url : String → Option (String × String)

abbrev pub check_availability : Option String → Option String
check_availability status = elim (canonical_availability status) [
  | security_blocked ↦
      some "This posting is security-blocked and never receives autofill or personal data."
  | closed_confirmed ↦
      some "This posting is confirmed closed. Re-verify it first if you believe it's still open."
  | destination_mismatch ↦
      some
        "This posting's destination clearly resolves to a different company/role. Re-verify before applying."
  | _ ↦
      if is_active_availability status
      then none
      else some "This job is not in an active state. Re-verify it before applying."
]

abbrev pub refuse_if : {S : Type 0} → Option String → Program S (Unit {0})
refuse_if none s = (ok tt, s)
refuse_if (some message) s = (err (other message), s)

abbrev pub is_ineligible : Option LatestMatch → Bool
is_ineligible none = false
is_ineligible (some m) = str_eq m.eligibility "Fail"

-- `a ?? b ?? c ?? d`, where an empty text is refused.
abbrev pub apply_url_of : JobView → Option String
apply_url_of j =
    or_else j.official_apply_url (or_else j.url (or_else j.official_job_url j.source_url))

unfoldable pub is_allowed_url : Urls → String → String → Bool
is_allowed_url env source url = elim (env.parse_url url) [
  | none ↦ false
  | some (protocol, host) ↦
      str_eq protocol "https:"
      || (str_eq source "application-worker-test"
          && (str_eq protocol "http:" && (str_eq host "localhost" || str_eq host "127.0.0.1")))
]

abbrev pub is_tailored : DocumentStrategy → Bool
is_tailored tailored = true
is_tailored _ = false

abbrev pub is_partial : DocumentStrategy → Bool
is_partial partial_tailoring = true
is_partial _ = false

abbrev pub first_of : List Document → Option Document
first_of [] = none
first_of (d ∷ ds) = some d

unfoldable pub choose_resume : List Document → Option Document
unfolding is_usable_resume
choose_resume documents =
    let usable = keep is_usable_resume documents in
    or_else
      (find (λ (d : Document). is_tailored (strategy_from_tailoring_status d.tailoring_status))
        usable)
      (or_else
        (find (λ (d : Document). is_partial (strategy_from_tailoring_status d.tailoring_status))
          usable)
        (first_of usable))

abbrev pub is_cover_letter : Document → Bool
is_cover_letter d =
    str_eq d.type "coverLetter" && (str_eq d.qa_status "pass" && d.identity_verified)

-- The stopped run first, then the oldest.
abbrev pub has_label : Run → Bool
has_label r = elim r.stopped.label [ none ↦ false | some l ↦ not (str_eq l "") ]

abbrev pub is_before : Run → Run → Bool
is_before a b =
    if has_label a && not (has_label b)
    then true
    else if has_label b && not (has_label a)
    then false
    else ltb a.created_at b.created_at

abbrev pub superseded_run : ℕ → Run → Run
superseded_run now r = record r {
  status = superseded;
  active_key = none;
  finished_at = some now;
  current_step = some "Superseded duplicate run";
}

abbrev pub document_id : Option Document → Option String
document_id none = none
document_id (some d) = some d.id

abbrev pub score_of : Option LatestMatch → Option ℕ
score_of none = none
score_of (some m) = some m.score

abbrev pub strategy_reason : Completeness → Document → String
strategy_reason completeness resume =
    concat (document_strategy_reason existing_approved_document completeness) (
      concat " ("
        (concat (strategy_text (strategy_from_tailoring_status resume.tailoring_status)) ")"))

abbrev pub new_run : String → String → ℕ → JobView → Document → Run
new_run user job_id now j resume = record {
  user_id = some user;
  active_key = some (application_active_key user job_id);
  job_id = job_id;
  status = queued;
  current_step = some "QUEUED";
  needs_user_action_reason = none;
  stopped = nowhere;
  resume_document_id = some resume.id;
  cover_letter_document_id = document_id (find is_cover_letter j.documents);
  strategy_reason = some (strategy_reason j.completeness resume);
  match_score = score_of j.latest_match;
  attempt_number = 1;
  attempt_history = none;
  error_code = none;
  validation_path = none;
  error_log = none;
  finished_at = none;
  created_at = now;
}
