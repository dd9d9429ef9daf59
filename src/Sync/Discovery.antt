-- ===== src/Sync/Discovery.antt =====
-- The durable queue of live discovery signals (src/lib/sync/liveDiscoveryQueue.ts): its records,
-- and how one signal is resolved to an official posting. Instants are milliseconds.
pub mod Queue
pub mod Enqueue
pub mod Invariant
pub mod Claims
pub mod Intake
pub mod Official
pub mod Health
pub mod Run
pub mod Rounds
use Prim.Native.String.{◌++◌ as concat}
use internship_pilot.Prelude.{
  ℕ, ◌≡◌, ◌&&◌, ◌||◌, Bool, true, false, not, Option, none, some, List, [], ◌∷◌, find, ltb, leb,
  length, if◌then◌else◌, String, str_eq, or_else, is_text,
}
use internship_pilot.Program.{Result, ok, err, Failure}

-- The fields of `RawInternListJob` that the queue reads.
pub record Signal : Type 0 where
  pub source_job_id : String
  pub title : String
  pub company : String
  pub location : Option String
  pub work_model : Option String
  pub source_posted_at : Option ℕ
  pub source_posted_text : Option String
  pub qualifications : String
  pub apply_url : Option String
  pub official_application_url : Option String
  pub original_job_post_url : Option String

pub record AtsJob : Type 0 where
  pub source_job_id : String
  pub requisition_id : Option String
  pub title : String
  pub company : String
  pub location : Option String
  pub workplace_type : Option String
  pub apply_url : String
  pub description : String
  pub posted_at : Option ℕ
  pub posted_at_text : Option String

pub data QueueState : Type 0 where
  pending retry resolved closed abandoned : QueueState

pub record QueueRecord : Type 0 where
  pub source_job_id : String
  pub state : QueueState
  pub signal : Signal
  pub attempts : ℕ
  pub first_queued_at : ℕ
  pub last_attempt_at : Option ℕ
  pub next_attempt_at : ℕ
  pub resolved_at : Option ℕ
  pub resolved_job_id : Option String
  pub last_error : Option String

-- What an upsert did: `"new"`, `"updated"` or `"unchanged"`.
pub data Outcome : Type 0 where
  new updated unchanged : Outcome

pub data ResolutionState : Type 0 where
  found gone again : ResolutionState

pub record Resolution : Type 0 where
  pub state : ResolutionState
  pub job_id : Option String
  pub outcome : Option Outcome
  pub error : Option String

pub record Company : Type 0 where
  pub name : String
  pub ats_type : Option String

-- The code that a resolution calls: the tests of a URL, the probe of a posting (`some` with its
-- reason where it is closed), the board listing, the score of a board job (in a fixed unit, with
-- 0.72 in that unit), the save, the company key and the containment of keys, and an exception's text.
pub record Services : Type 0 where
  pub is_aggregator_url : String → Bool
  pub is_valid_official_url : String → Bool
  pub probe_closed : String → Option String
  pub list_jobs : Company → Result (Bool × List AtsJob)
  pub score : Signal → AtsJob → ℕ
  pub strong : ℕ
  pub persist : Signal → AtsJob → Result (Outcome × Option String)
  pub company_key : String → List ℕ
  pub contains : List ℕ → List ℕ → Bool
  pub same_key : List ℕ → List ℕ → Bool
  pub message : Failure → String

abbrev pub text_or : String → String → String
text_or a b = if str_eq a "" then b else a

unfoldable pub as_ats_job : Signal → String → Option AtsJob → AtsJob
as_ats_job signal apply_url none = record {
  source_job_id = concat "jobright-fresh:" signal.source_job_id;
  requisition_id = none;
  title = signal.title;
  company = signal.company;
  location = signal.location;
  workplace_type = signal.work_model;
  apply_url = apply_url;
  description = signal.qualifications;
  posted_at = signal.source_posted_at;
  posted_at_text = signal.source_posted_text;
}
as_ats_job signal apply_url (some board) = record {
  source_job_id = board.source_job_id;
  requisition_id = board.requisition_id;
  title = board.title;
  company = signal.company;
  location = or_else board.location signal.location;
  workplace_type = or_else board.workplace_type signal.work_model;
  apply_url = apply_url;
  description = text_or board.description signal.qualifications;
  posted_at = or_else signal.source_posted_at board.posted_at;
  posted_at_text = or_else signal.source_posted_text board.posted_at_text;
}

abbrev pub is_nil : {A : Type 0} → List A → Bool
is_nil [] = true
is_nil (x ∷ xs) = false

abbrev pub try_again : String → Resolution
try_again why = record { state = again; job_id = none; outcome = none; error = some why }

module _ (env : Services) where
  open env use {
    is_aggregator_url, is_valid_official_url, probe_closed, list_jobs, score, strong, persist,
    company_key, contains, same_key, message,
  }

  -- A later company under the same key replaces an earlier one in the `Map`.
  unfoldable pub exact_company : List ℕ → List Company → Option Company
  exact_company key [] = none
  exact_company key (c ∷ cs) =
      let rest = exact_company key cs in
      or_else rest (if same_key (company_key c.name) key then some c else none)

  unfoldable pub find_company_config : String → List Company → Option Company
  unfolding exact_company
  find_company_config name companies =
      let key = company_key name in
      elim (exact_company key companies) [
        | some c ↦ some c
        | none ↦
            if ltb (length key) 5
            then none
            else find
                (λ (c : Company).
                  let candidate = company_key c.name in
                  leb 5 (length candidate) && (contains candidate key || contains key candidate))
                companies
      ]

  abbrev pub is_direct : Option String → Bool
  is_direct none = false
  is_direct (some url) =
      not (str_eq url "") && (not (is_aggregator_url url) && is_valid_official_url url)

  -- The first of three links that is an employer's own.
  unfoldable pub direct_url : Signal → Option String
  direct_url s =
      if is_direct s.official_application_url
      then s.official_application_url
      else if is_direct s.original_job_post_url
      then s.original_job_post_url
      else if is_direct s.apply_url
      then s.apply_url
      else none

  unfoldable pub best_from : Signal → Option (AtsJob × ℕ) → List AtsJob → Option (AtsJob × ℕ)
  best_from s best [] = best
  best_from s none (job ∷ jobs) = best_from s (some (job, score s job)) jobs
  best_from s (some (j, n)) (job ∷ jobs) =
      best_from s (if ltb n (score s job) then some (job, score s job) else some (j, n)) jobs

  abbrev pub saved : Signal → AtsJob → Resolution
  saved s job = elim (persist s job) [
    | ok (outcome, job_id) ↦ record {
      state = found;
      job_id = job_id;
      outcome = some outcome;
      error = none;
    }
    | err e ↦ try_again (message e)
  ]

  unfoldable pub resolve_best : Signal → Option (AtsJob × ℕ) → Resolution
  unfolding as_ats_job
  resolve_best s none = try_again "No sufficiently strong original-board match yet."
  resolve_best s (some (job, n)) =
      if ltb n strong || (str_eq job.apply_url "" || is_aggregator_url job.apply_url)
      then try_again "No sufficiently strong original-board match yet."
      else saved s (as_ats_job s job.apply_url (some job))

  unfoldable pub resolve_listing : Signal → Result (Bool × List AtsJob) → Resolution
  unfolding best_from resolve_best
  resolve_listing s (err e) = try_again (message e)
  resolve_listing s (ok (supported, jobs)) =
      if not supported || is_nil jobs
      then try_again "Official ATS board did not return a resolvable posting."
      else resolve_best s (best_from s none jobs)

  -- A missing, an empty and an unknown board type.
  abbrev pub has_no_board : Company → Bool
  has_no_board c = elim c.ats_type [ none ↦ true | some t ↦ str_eq t "" || str_eq t "unknown" ]

  unfoldable pub resolve_by_board : Signal → Option Company → Resolution
  unfolding resolve_listing
  resolve_by_board s none =
      try_again "Employer is not yet mapped to a supported official ATS board."
  resolve_by_board s (some c) =
      if has_no_board c
      then try_again "Employer is not yet mapped to a supported official ATS board."
      else resolve_listing s (list_jobs c)

  unfoldable pub resolve_signal : List Company → Signal → Resolution
  unfolding direct_url as_ats_job find_company_config resolve_by_board
  resolve_signal companies s = elim (direct_url s) [
    | some url ↦ elim (probe_closed url) [
      | some reason ↦ record { state = gone; job_id = none; outcome = none; error = some reason }
      | none ↦ saved s (as_ats_job s url none)
    ]
    | none ↦ resolve_by_board s (find_company_config s.company companies)
  ]
