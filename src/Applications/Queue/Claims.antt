-- ===== src/Applications/Queue/Claims.antt =====
-- What it takes to queue an application, and what is so once it is queued.
use internship_pilot.Prelude.{
  ℕ, ◌≡◌, inl, inr, refl, sym, ap, ◌∙◌, arith, eq_iff, ◌&&◌, Bool, true, false, not, Option, none,
  some, ◌∷◌, String, str_eq, is_text, Bool-cases,
}
use internship_pilot.Database.{Table}
use internship_pilot.Program.{Program, ok, ◌>>◌}
use internship_pilot.Jobs.Availability.{is_active_availability}
use internship_pilot.Documents.Strategy.{Document}
use internship_pilot.Applications.Queue.{
  is_active, is_filled, is_submitted, Run, is_of, Answer, Store,
}
use internship_pilot.Applications.Queue.Request.{
  Urls, JobView, check_availability, is_ineligible, apply_url_of, is_allowed_url, choose_resume,
  new_run, is_before,
}
use internship_pilot.Applications.Queue.Enqueue.{
  find_run, find_canonical, place, save_unless, at_url, at_allowed_url, unless_submitted,
  if_available, with_resume, with_url, unless_filled, with_job, enqueue_application,
}
use internship_pilot.Applications.Queue.Placing.{
  guard_ok, refuse_if_ok, check_availability-none, IsMade, place_by-IsMade,
}

module _ (T : Table Run) (env : Urls) where
  -- What is known once a run was put on the queue.
  pub record IsQueued (fresh_id : String) (now : ℕ) (user job_id : String) (j : JobView)
      (a : Answer) (s u : Store T) : Type 0 where
    pub url : String
    pub resume : Document
    pub eligible : is_ineligible j.latest_match ≡ false
    pub apply_url : apply_url_of j ≡ some url
    pub allowed : is_allowed_url env j.source url ≡ true
    pub chosen : choose_resume j.documents ≡ some resume
    pub alone : find_canonical T env user job_id s ≡ none
    pub made : IsMade T env fresh_id (new_run user job_id now j resume) a s u

  with_resume-IsMade :
      (o : Option Document) (fresh_id : String) (now : ℕ) (user job_id : String) (j : JobView)
      (s : Store T) (a : Answer) (u : Store T)
      → with_resume T env fresh_id now user job_id j o s ≡ (ok a, u)
      → a.was_queued ≡ true
      → (d : Document) × (o ≡ some d)
        × (find_canonical T env user job_id s ≡ none)
        × IsMade T env fresh_id (new_run user job_id now j d) a s u
  unfolding place
  with_resume-IsMade none fresh_id now user job_id j s a u e q = let e' = ap (λ r. r.0) e in cc
  with_resume-IsMade (some d) fresh_id now user job_id j s a u e q =
      let (n, m) =
        place_by-IsMade T env (find_canonical T env user job_id s) fresh_id now user job_id j d s a
          u e q in
      (d, refl, n, m)

  save_then :
      (b : Bool) (job_id url : String) (m : Program (Store T) Answer) (s : Store T) (a : Answer)
      (u : Store T)
      → (save_unless T env b job_id url >> m) s ≡ (ok a, u)
      → (t : Store T) × (t.runs ≡ s.runs) × (m t ≡ (ok a, u))
  save_then true job_id url m s a u e = (s, refl, e)
  save_then false job_id url m s a u e =
      (record s { apply_urls = (job_id, url) ∷ s.apply_urls }, refl, e)

  with_url-IsQueued :
      (o : Option String) (fresh_id : String) (now : ℕ) (user job_id : String) (j : JobView)
      (s : Store T) (a : Answer) (u : Store T)
      → apply_url_of j ≡ o
      → is_ineligible j.latest_match ≡ false
      → with_url T env fresh_id now user job_id j o s ≡ (ok a, u)
      → a.was_queued ≡ true
      → IsQueued fresh_id now user job_id j a s u
  with_url-IsQueued none fresh_id now user job_id j s a u o i e q = let e' = ap (λ r. r.0) e in cc
  with_url-IsQueued (some url) fresh_id now user job_id j s a u o i e q =
      let resumed = with_resume T env fresh_id now user job_id j (choose_resume j.documents) in
      let (full, e1) =
        guard_ok (not (str_eq url "")) "This job has no usable application or source URL to open."
          (at_allowed_url T env fresh_id now user job_id j url) s a u e in
      let (fine, e2) =
        guard_ok (is_allowed_url env j.source url) "Invalid required job field officialApplyUrl."
          (at_url T env fresh_id now user job_id j url) s a u e1 in
      let (t, rows, e3) =
        save_then (is_text j.official_apply_url url) job_id url resumed s a u e2 in
      let (d, c, n, (p, f, rest)) =
        with_resume-IsMade (choose_resume j.documents) fresh_id now user job_id j t a u e3 q in
      record {
        url = url;
        resume = d;
        eligible = i;
        apply_url = o;
        allowed = fine;
        chosen = c;
        alone =
            ap (λ tab. find_canonical T env user job_id (record t { runs = tab })) (sym rows) ∙ n;
        made = (p, f, λ k r m g. ap (T.find_unique k) (sym rows) ∙ rest k r m g);
      }

  unless_filled-IsQueued :
      (o : Option (String × Run)) (fresh_id : String) (now : ℕ) (user job_id : String) (j : JobView)
      (s : Store T) (a : Answer) (u : Store T)
      → unless_filled T env fresh_id now user job_id j o s ≡ (ok a, u)
      → a.was_queued ≡ true
      → (o ≡ none) × IsQueued fresh_id now user job_id j a s u
  unless_filled-IsQueued (some (id, r)) fresh_id now user job_id j s a u e q =
      let e' = ap (λ r. r.0) e in cc
  unless_filled-IsQueued none fresh_id now user job_id j s a u e q =
      let (i, e1) =
        guard_ok (not (is_ineligible j.latest_match))
          "The AI match marked this job an explicit eligibility Fail; applying isn't recommended."
          (with_url T env fresh_id now user job_id j (apply_url_of j)) s a u e in
      (
        refl,
        with_url-IsQueued (apply_url_of j) fresh_id now user job_id j s a u refl (ground arith) e1
            q,
      )

  unless_submitted-IsQueued :
      (o : Option (String × Run)) (fresh_id : String) (now : ℕ) (user job_id : String) (j : JobView)
      (s : Store T) (a : Answer) (u : Store T)
      → unless_submitted T env fresh_id now user job_id j o s ≡ (ok a, u)
      → a.was_queued ≡ true
      → (o ≡ none)
        × (find_run T env is_filled user job_id s ≡ none)
        × IsQueued fresh_id now user job_id j a s u
  unless_submitted-IsQueued (some sent) fresh_id now user job_id j s a u e q =
      let e' = ap (λ r. r.0) e in cc
  unless_submitted-IsQueued none fresh_id now user job_id j s a u e q =
      let (unfilled, h) =
        unless_filled-IsQueued (find_run T env is_filled user job_id s) fresh_id now user job_id j s
          a u e q in
      (refl, unfilled, h)

  with_job-IsQueued :
      (job : Option JobView) (fresh_id : String) (now : ℕ) (user job_id : String) (s : Store T)
      (a : Answer) (u : Store T)
      → with_job T env fresh_id now user job_id job s ≡ (ok a, u)
      → a.was_queued ≡ true
      → (j : JobView) × (job ≡ some j)
        × (is_active_availability j.verification_status ≡ true)
        × (find_run T env is_submitted user job_id s ≡ none)
        × (find_run T env is_filled user job_id s ≡ none)
        × IsQueued fresh_id now user job_id j a s u
  with_job-IsQueued none fresh_id now user job_id s a u e q = let e' = ap (λ r. r.0) e in cc
  with_job-IsQueued (some j) fresh_id now user job_id s a u e q =
      let (available, e1) =
        refuse_if_ok (check_availability j.verification_status)
          (if_available T env fresh_id now user job_id j) s a u e in
      let (n, unfilled, h) =
        unless_submitted-IsQueued (find_run T env is_submitted user job_id s) fresh_id now user
          job_id j s a u e1 q in
      (j, refl, check_availability-none j.verification_status available, n, unfilled, h)

  -- An application is put on the queue only where the agent is on, the job exists and is in an
  -- active state, the user has neither submitted nor filled this application nor has an active run
  -- of it, the match is no explicit fail, the job has an allowed URL, and there is an approved
  -- résumé; and then exactly one row is new: this user's queued run, under the key of this user and
  -- this job.
  pub enqueue_application-IsQueued :
      (fresh_id : String) (now : ℕ) (off : Bool) (user job_id : String) (job : Option JobView)
      (s : Store T) (a : Answer) (u : Store T)
      → enqueue_application T env fresh_id now off user job_id job s ≡ (ok a, u)
      → a.was_queued ≡ true
      → (off ≡ false)
        × ((j : JobView) × (job ≡ some j)
            × (is_active_availability j.verification_status ≡ true)
            × (find_run T env is_submitted user job_id s ≡ none)
            × (find_run T env is_filled user job_id s ≡ none)
            × IsQueued fresh_id now user job_id j a s u)
  unfolding enqueue_application
  enqueue_application-IsQueued fresh_id now off user job_id job s a u e q =
      let (on, e1) =
        guard_ok (not off)
          "The Application Agent is turned off. Enable Fill To Submit in Settings first."
          (with_job T env fresh_id now user job_id job) s a u e in
      (ground arith, with_job-IsQueued job fresh_id now user job_id s a u e1 q)

  -- The run that was queued is the only active run of this user for this job.
  pub enqueue_application_alone :
      (fresh_id : String) (now : ℕ) (off : Bool) (user job_id : String) (job : Option JobView)
      (s : Store T) (a : Answer) (u : Store T) (k : String) (r : Run)
      → enqueue_application T env fresh_id now off user job_id job s ≡ (ok a, u)
      → a.was_queued ≡ true
      → T.find_unique k u.runs ≡ some r
      → is_of user job_id r ≡ true
      → is_active r.status ≡ true
      → k ≡ a.run_id
  enqueue_application_alone fresh_id now off user job_id job s a u k r e q f mine live =
      let (on, (j, same, up, sent, done, h)) =
        enqueue_application-IsQueued fresh_id now off user job_id job s a u e q in
      let (p, row, rest) = h.made in
      elim (Bool-cases (str_eq k fresh_id)) [
        | inl y ↦ (eq_iff k fresh_id).0 y ∙ sym p
        | inr n ↦
            let before = rest k r (λ i. ground (arith, eq_iff k fresh_id)) f in
            let idle =
              T.find_first_none (λ k r. is_of user job_id r && is_active r.status) is_before s.runs
                k r h.alone before in
            ground arith
      ]
