-- ===== src/Applications/Worker/Process/Ends.antt =====
-- How a claimed run ends in the worker, whatever the browser, the page and the adapters do.
use internship_pilot.Prelude.{
  ◌≡◌, refl, sym, ap, subst, ◌∙◌, Bool, true, false, not, some, String, is_some, Bool-cases, inl,
  inr,
}
use internship_pilot.Database.{Table}
use internship_pilot.Program.{Program, Result, ok, err, Failure, ◌>>=◌, ◌>>◌, catch, each, bind-ok}
use internship_pilot.Applications.Queue.{
  RunStatus, needs_user_action, failed, is_submitted, Run, write_audit, record_run_stage,
}
use internship_pilot.Applications.Worker.Errors.{classify_error_code}
use internship_pilot.Applications.Worker.Process.{
  is_running, FillResult, run_status, final_stage, quarantined_run, World, Surroundings, find_run,
  update_run, stage,
}
use internship_pilot.Applications.Worker.Process.Steps.{
  record_fill, report_fill, start_fill, record_failure, failure_stages, block_job, end_fill,
  open_and_fill, report_failure, check_run, open_form, quarantine, finish_fill, fill_form,
  after_page, run_checked, refreshed, attempt_run, fail_run, process_found, process_application_run,
}
use internship_pilot.Applications.Worker.Process.Alive.{
  IsHarmless, check_run-Alive, open_form-Alive, start_fill-Alive, refresh-Alive,
  failure_stages-Alive,
}
use internship_pilot.Applications.Worker.Process.Rules.{
  filled_run-IsRow, quarantined_run-IsRow, failed_run-IsRow, Lives, IsEnded, Outcome, Leads,
  Leads-bind, Leads-then, Leads-guard, stage-Keeps, update_run-Leads, update_run_key-Leads,
}

abbrev status_or : RunStatus → Result RunStatus → RunStatus
status_or other_status (ok st) = st
status_or other_status (err e) = other_status

module _ (T : Table Run) (env : Surroundings T) (id : String) where
  module _ (harmless : IsHarmless T env id) where
    abbrev Ends : Program (World T) RunStatus → Type 0
    Ends m = Leads T id (IsEnded T id) m

    quarantine-Ends : (job_id : String) → Ends (quarantine T env id job_id)
    unfolding quarantine block_job
    quarantine-Ends job_id =
        let pause = update_run T id (quarantined_run (env.page_context id)) in
        Leads-bind T id (IsEnded T id) (stage T id "NEEDS_USER_ACTION")
          (λ _. pause >> block_job T env job_id) (stage-Keeps T id _)
          (λ _.
            Leads-then T id (IsEnded T id) (IsEnded T id needs_user_action) pause
              (λ _. block_job T env job_id)
              (update_run-Leads T id needs_user_action _
                (quarantined_run-IsRow (env.page_context id)))
              (λ _ t q. q))

    end_fill-Ends :
        (user job_id : String) (r : FillResult)
        → not (is_submitted (run_status r.status)) ≡ true
        → Ends (end_fill T env id user job_id r)
    unfolding end_fill record_fill report_fill write_audit
    end_fill-Ends user job_id r fine =
        let record_it = record_fill T env id job_id r in
        let report = report_fill T env id user job_id r in
        Leads-bind T id (IsEnded T id) (stage T id (final_stage r.status))
          (λ _. record_it >> report) (stage-Keeps T id _)
          (λ _.
            Leads-then T id (IsEnded T id) (IsEnded T id (run_status r.status)) record_it
              (λ _. report)
              (update_run_key-Leads T id (run_status r.status) _ _ (λ run.
                filled_run-IsRow env.patterns env.now (env.page_context id) job_id r run fine))
              (λ _ t q. q))

    finish_fill-Ends :
        (user job_id : String) (r : FillResult) → Ends (finish_fill T env id user job_id r)
    unfolding finish_fill
    finish_fill-Ends user job_id r =
        Leads-guard T id (IsEnded T id) (not (is_submitted (run_status r.status))) _
          (end_fill T env id user job_id r) (end_fill-Ends user job_id r)

    fill_form-Ends : (user job_id : String) → Ends (fill_form T env id user job_id)
    unfolding fill_form
    fill_form-Ends user job_id =
        Leads-bind T id (IsEnded T id) (start_fill T env id)
          (λ _. env.fill id >>= finish_fill T env id user job_id)
          (start_fill-Alive T env id harmless)
          (λ _.
            Leads-bind T id (IsEnded T id) (env.fill id) (finish_fill T env id user job_id)
              harmless.fill_keeps (finish_fill-Ends user job_id))

    after_page-Ends : (b : Bool) (user job_id : String) → Ends (after_page T env b id user job_id)
    after_page-Ends true user job_id = quarantine-Ends job_id
    after_page-Ends false user job_id = fill_form-Ends user job_id

    open_and_fill-Ends : (job_id user : String) → Ends (open_and_fill T env id job_id user)
    unfolding open_and_fill
    open_and_fill-Ends job_id user =
        let fraud = env.page_is_fraudulent id in
        Leads-bind T id (IsEnded T id) (open_form T env id)
          (λ _. after_page T env fraud id user job_id) (open_form-Alive T env id harmless)
          (λ _. after_page-Ends fraud user job_id)

    run_checked-Ends : (url : String) (run : Run) → Ends (run_checked T env id url run)
    unfolding run_checked
    run_checked-Ends url run =
        Leads-bind T id (IsEnded T id) (check_run T env id run url)
          (open_and_fill T env id run.job_id) (check_run-Alive T env id harmless run url)
          (open_and_fill-Ends run.job_id)

    attempt_run-Ends : Ends (attempt_run T env id)
    unfolding attempt_run
    attempt_run-Ends =
        Leads-bind T id (IsEnded T id) (env.validate id)
          (λ url. refreshed T env id >>= run_checked T env id url) harmless.validate_keeps
          (λ url.
            Leads-bind T id (IsEnded T id) (refreshed T env id) (run_checked T env id url)
              (λ w. refresh-Alive T env id harmless (find_run T id w) w) (run_checked-Ends url))

    record_failure-Leads :
        (e : Failure) → Leads T id (λ _. IsEnded T id failed) (record_failure T env id e)
    unfolding record_failure
    record_failure-Leads e = update_run-Leads T id failed _ (
        failed_run-IsRow env.now (env.technical e)
          (classify_error_code env.patterns (some (env.message e))))

    fail_run-Ends : (job_id : String) (e : Failure) → Ends (fail_run T env id job_id e)
    unfolding fail_run report_failure write_audit
    fail_run-Ends job_id e =
        let report = report_failure T env id job_id in
        Leads-bind T id (IsEnded T id) (failure_stages T env id e)
          (λ _. record_failure T env id e >> report) (failure_stages-Alive T env id harmless e)
          (λ _.
            Leads-then T id (IsEnded T id) (IsEnded T id failed) (record_failure T env id e)
              (λ _. report) (record_failure-Leads e) (λ _ t q. q))

    stages_ok : (e : Failure) (w : World T) → (failure_stages T env id e w).0 ≡ ok tt
    unfolding failure_stages each record_run_stage
    stages_ok e w = elim (Bool-cases (env.is_browser_failure e)) [
      | inl y ↦ rw y refl
      | inr n ↦ rw n refl
    ]

    record_ok : (e : Failure) (w : World T) → Lives T id w → (record_failure T env id e w).0 ≡ ok tt
    unfolding record_failure update_run
    record_ok e w l = rw l refl

    fail_run_ok :
        (job_id : String) (e : Failure) (w : World T)
        → Lives T id w
        → (fail_run T env id job_id e w).0 ≡ ok failed
    unfolding fail_run report_failure write_audit
    fail_run_ok job_id e w l =
        let report = report_failure T env id job_id in
        let record_it = record_failure T env id e in
        let t = (failure_stages T env id e w).1 in
        let u = (record_it t).1 in
        let first = ap (λ r. (r, t)) (stages_ok e w) in
        let second =
          ap (λ r. (r, u)) (record_ok e t (failure_stages-Alive T env id harmless e w l)) in
        ap (λ z. z.0)
          (bind-ok (failure_stages T env id e) (λ _. record_it >> report) w tt t first
            ∙ bind-ok record_it (λ _. report) t tt u second)

    outcome_ok :
        (st : RunStatus) (z : Result RunStatus × World T)
        → z.0 ≡ ok st
        → Outcome T id (IsEnded T id) z
        → IsEnded T id st z.1
    outcome_ok st (ok s, u) e q = subst (λ s. IsEnded T id s u) (ap (status_or failed) e) q
    outcome_ok st (err x, u) e q = cc

    -- A run that the worker has claimed always comes to an end, whatever the checks, the page and the
    -- adapters answer or throw, if none of them deletes its row: the worker never throws, and answers
    -- with the status that the row then has. It is filled, failed or paused for the user, and never submitted
    -- or running; a filled or failed row has no active key and the time of its end, and a paused one
    -- is not finished.
    pub process_application_run-IsEnded :
        (r : Run) (w : World T)
        → find_run T id w ≡ some r
        → is_running r.status ≡ true
        → (st : RunStatus) × ((process_application_run T env id w).0 ≡ ok st)
          × IsEnded T id st (process_application_run T env id w).1
    unfolding process_application_run
    process_application_run-IsEnded r w f claimed =
        let caught = catch (attempt_run T env id) (fail_run T env id r.job_id) w in
        let lives = ap is_some f in
        let same : process_application_run T env id w ≡ caught =
          ap (λ o. process_found T env id o w) f ∙ (rw claimed refl) in
        subst Done (sym same) (go (attempt_run T env id w) (attempt_run-Ends w lives))
      where
        Done : Result RunStatus × World T → Type 0
        Done x = (st : RunStatus) × (x.0 ≡ ok st) × IsEnded T id st x.1

        go :
            (x : Result RunStatus × World T)
            → Outcome T id (IsEnded T id) x
            → Done (catch (λ _. x) (fail_run T env id r.job_id) w)
        go (ok st, t) q = (st, refl, q)
        go (err e, t) l =
            let ended = fail_run_ok r.job_id e t l in
            (failed, ended, outcome_ok failed _ ended (fail_run-Ends r.job_id e t l))
