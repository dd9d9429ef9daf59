-- ===== src/Applications/Queue/Enqueue.antt =====
-- `enqueueApplication` (src/lib/applications/queue.ts): the writes, and the whole request.
use internship_pilot.Prelude.{
  ℕ, ◌&&◌, Bool, true, false, not, Option, none, some, ◌∷◌, String, str_eq, is_text, ltb,
}
use internship_pilot.Database.{Table}
use internship_pilot.Program.{Program, ok, err, Failure, other, database, ◌>>◌, return}
use internship_pilot.Documents.Strategy.{Document, no_approved_document, document_strategy_reason}
use internship_pilot.Applications.Queue.{
  RunStatus, queued, is_active, is_filled, is_submitted, Run, application_active_key,
  same_active_key, is_of, Answer, refuse, guard, Store, mark_applying, write_audit, key_is_taken,
  find_winner,
}
use internship_pilot.Applications.Queue.Request.{
  JobView, Urls, check_availability, refuse_if, is_ineligible, apply_url_of, is_allowed_url,
  choose_resume, is_before, superseded_run, new_run,
}

module _ (T : Table Run) (env : Urls) where
  abbrev Action : Type 0 → Type 0
  Action A = Program (Store T) A

  -- The user's runs of the job with a status: the oldest, as the query orders them.
  abbrev pub find_run : (RunStatus → Bool) → String → String → Store T → Option (String × Run)
  find_run fits user job_id s =
      T.find_first (λ k r. is_of user job_id r && fits r.status)
        (λ a b. ltb a.created_at b.created_at) s.runs

  abbrev pub find_canonical : String → String → Store T → Option (String × Run)
  find_canonical user job_id s =
      T.find_first (λ k r. is_of user job_id r && is_active r.status) is_before s.runs

  abbrev pub answer_of_winner : Option (String × Run) → Failure → Action Answer
  answer_of_winner none e s = (err e, s)
  answer_of_winner (some (id, r)) e s =
      (ok (record { run_id = id; status = r.status; was_queued = false }), s)

  abbrev pub answer_winner : String → String → Failure → Action Answer
  answer_winner key user e s = answer_of_winner (find_winner T key user s) e s

  unfoldable pub supersede_others : ℕ → String → String → String → Action (Unit {0})
  supersede_others now user job_id canonical s = (
    ok tt,
    record s {
      runs =
          T.update_many
            (λ k r. is_of user job_id r && (is_active r.status && not (str_eq k canonical)))
            (superseded_run now) s.runs;
    },
  )

  abbrev pub keyed_run : String → String → Run → Run
  keyed_run user key r = record r { user_id = some user; active_key = some key }

  -- By whether another row holds the key.
  abbrev pub repair_unless : Bool → String → String → String → Run → Action Answer
  repair_unless true user job_id id r s =
      answer_winner (application_active_key user job_id) user (database "P2002") s
  repair_unless false user job_id id r s =
      (mark_applying T user job_id
          >> return (record { run_id = id; status = r.status; was_queued = false }))
        (record s {
          runs =
              T.update_at id (λ _. true) (keyed_run user (application_active_key user job_id))
                s.runs;
        })

  -- The update of the run that stays, with the scoped key.
  unfoldable pub repair : String → String → String → Run → Action Answer
  unfolding application_active_key
  repair user job_id id r s =
      repair_unless (key_is_taken T id (application_active_key user job_id) s) user job_id id r s

  abbrev pub after_create : Option T.Tab → String → String → String → Action Answer
  after_create none fresh_id user job_id s =
      answer_winner (application_active_key user job_id) user (database "P2002") s
  after_create (some runs) fresh_id user job_id s =
      (mark_applying T user job_id
          >> (write_audit T "application-run-queued" fresh_id
              >> return (record { run_id = fresh_id; status = queued; was_queued = true })))
        (record s { runs = runs })

  unfoldable pub create_run : String → ℕ → String → String → JobView → Document → Action Answer
  unfolding application_active_key
  create_run fresh_id now user job_id j resume s =
      after_create (T.create same_active_key fresh_id (new_run user job_id now j resume) s.runs)
        fresh_id user job_id s

  abbrev pub place_by :
      Option (String × Run) → String → ℕ → String → String → JobView → Document → Action Answer
  place_by none fresh_id now user job_id j resume = create_run fresh_id now user job_id j resume
  place_by (some (id, r)) fresh_id now user job_id j resume =
      supersede_others now user job_id id >> repair user job_id id r

  -- After the checks: an active run is kept and repaired, otherwise one is made.
  unfoldable pub place : String → ℕ → String → String → JobView → Document → Action Answer
  unfolding supersede_others repair create_run
  place fresh_id now user job_id j resume s =
      place_by (find_canonical user job_id s) fresh_id now user job_id j resume s

  -- By whether the job already has this URL.
  abbrev pub save_unless : Bool → String → String → Action (Unit {0})
  save_unless true job_id url s = (ok tt, s)
  save_unless false job_id url s = (ok tt, record s { apply_urls = (job_id, url) ∷ s.apply_urls })

  abbrev pub with_resume : String → ℕ → String → String → JobView → Option Document → Action Answer
  with_resume fresh_id now user job_id j none =
      refuse (document_strategy_reason no_approved_document j.completeness)
  with_resume fresh_id now user job_id j (some resume) = place fresh_id now user job_id j resume

  abbrev pub at_url : String → ℕ → String → String → JobView → String → Action Answer
  at_url fresh_id now user job_id j url =
      save_unless (is_text j.official_apply_url url) job_id url
      >> with_resume fresh_id now user job_id j (choose_resume j.documents)

  abbrev pub at_allowed_url : String → ℕ → String → String → JobView → String → Action Answer
  at_allowed_url fresh_id now user job_id j url =
      guard (is_allowed_url env j.source url) "Invalid required job field officialApplyUrl."
      >> at_url fresh_id now user job_id j url

  abbrev pub with_url : String → ℕ → String → String → JobView → Option String → Action Answer
  with_url fresh_id now user job_id j none =
      refuse "This job has no usable application or source URL to open."
  with_url fresh_id now user job_id j (some url) =
      guard (not (str_eq url "")) "This job has no usable application or source URL to open."
      >> at_allowed_url fresh_id now user job_id j url

  abbrev pub unless_filled :
      String → ℕ → String → String → JobView → Option (String × Run) → Action Answer
  unless_filled fresh_id now user job_id j (some (id, r)) =
      return (record { run_id = id; status = r.status; was_queued = false })
  unless_filled fresh_id now user job_id j none =
      guard (not (is_ineligible j.latest_match))
        "The AI match marked this job an explicit eligibility Fail; applying isn't recommended."
      >> with_url fresh_id now user job_id j (apply_url_of j)

  abbrev pub unless_submitted :
      String → ℕ → String → String → JobView → Option (String × Run) → Action Answer
  unless_submitted fresh_id now user job_id j (some sent) s =
      (err (other "An application to this requisition is already recorded as submitted."), s)
  unless_submitted fresh_id now user job_id j none s =
      unless_filled fresh_id now user job_id j (find_run is_filled user job_id s) s

  abbrev pub if_available : String → ℕ → String → String → JobView → Action Answer
  if_available fresh_id now user job_id j s =
      unless_submitted fresh_id now user job_id j (find_run is_submitted user job_id s) s

  abbrev pub with_job : String → ℕ → String → String → Option JobView → Action Answer
  with_job fresh_id now user job_id none = refuse "Job not found."
  with_job fresh_id now user job_id (some j) =
      refuse_if (check_availability j.verification_status)
      >> if_available fresh_id now user job_id j

  unfoldable pub enqueue_application :
      String → ℕ → Bool → String → String → Option JobView → Action Answer
  unfolding place choose_resume
  enqueue_application fresh_id now off user job_id job =
      guard (not off)
        "The Application Agent is turned off. Enable Fill To Submit in Settings first."
      >> with_job fresh_id now user job_id job
