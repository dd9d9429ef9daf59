-- ===== src/Applications/Worker/Process/Alive.antt =====
-- The steps of the worker before and beside the writes that end a run leave its row in the table.
use internship_pilot.Prelude.{
  Bool, Option, none, some, String, str_eq, if◌then◌else◌, Bool-cases, inl, inr,
}
use internship_pilot.Database.{Table}
use internship_pilot.Program.{Program, Failure, ◌>>=◌, return, Keeps, Keeps-bind, Keeps-each-All}
use internship_pilot.Documents.Strategy.{Document}
use internship_pilot.Applications.Queue.{Run}
use internship_pilot.Applications.Worker.Process.{Recheck, World, Surroundings, stage}
use internship_pilot.Applications.Worker.Process.Steps.{
  refresh, submitted_elsewhere, stop_if_closed, owner_of, queued_resume, assert_document,
  check_posting, check_owner, open_page, read_form, start_fill, failure_stages, resume_of,
  check_user, check_resume, check_run, open_form,
}
use internship_pilot.Applications.Worker.Process.Rules.{
  Lives, guard-Keeps, stage-Keeps, update_run-Keeps, audit-Keeps,
}

module _ (T : Table Run) (env : Surroundings T) (id : String) where
  abbrev Alive : {A : Type 0} → Program (World T) A → Type 0
  Alive m = Keeps (Lives T id) m

  -- What the worker calls leaves the row of the run in its table.
  pub record IsHarmless : Type 0 where
    pub validate_keeps : Alive (env.validate id)
    pub upload_keeps : (d : String) → Alive (env.assert_uploadable d)
    pub page_keeps : Alive (env.acquire_run_page id)
    pub navigate_keeps : Alive (env.navigate id)
    pub fill_keeps : Alive (env.fill id)

  module _ (harmless : IsHarmless) where
    stop_if_closed-Alive : (job_id : String) (r : Recheck) → Alive (stop_if_closed T env job_id r)
    stop_if_closed-Alive job_id r w l = elim (Bool-cases r.is_closed) [
      | inl y ↦ rw y l
      | inr n ↦ rw n l
    ]

    queued_resume-Alive : (o : Option Document) → Alive (queued_resume T env o)
    queued_resume-Alive none w l = l
    queued_resume-Alive (some d) w l = l

    owner_of-Alive : (o : Option String) → Alive (owner_of T env o)
    owner_of-Alive none w l = l
    owner_of-Alive (some user) w l = elim (Bool-cases (str_eq user "")) [
      | inl y ↦ rw y l
      | inr n ↦ rw n l
    ]

    assert_document-Alive : (o : Option Document) → Alive (assert_document T env o)
    assert_document-Alive none = λ w l. l
    assert_document-Alive (some d) = harmless.upload_keeps d.id

    check_posting-Alive :
        (run : Run) (url : String) (elsewhere : Bool)
        → Alive (check_posting T env run url elsewhere)
    unfolding check_posting
    check_posting-Alive run url elsewhere =
        Keeps-each-All (Lives T id) (λ step. step) _
          (
            guard-Keeps T id _ _,
            (
              guard-Keeps T id _ _,
              (
                guard-Keeps T id _ _,
                (
                  guard-Keeps T id _ _,
                  (stop_if_closed-Alive run.job_id _, (guard-Keeps T id _ _, tt)),
                ),
              ),
            ),
          )

    check_owner-Alive :
        (run : Run) (resume : Document) (user : String) → Alive (check_owner T env run resume user)
    unfolding check_owner
    check_owner-Alive run resume user =
        Keeps-each-All (Lives T id) (λ step. step) _
          (guard-Keeps T id _ _, (harmless.upload_keeps resume.id, (assert_document-Alive _, tt)))

    check_resume-Alive : (run : Run) (resume : Document) → Alive (check_resume T env run resume)
    unfolding check_resume check_user
    check_resume-Alive run resume =
        Keeps-bind (Lives T id) (owner_of T env run.user_id) (check_user T env run resume)
          (owner_of-Alive run.user_id)
          (λ user.
            Keeps-bind (Lives T id) (check_owner T env run resume user) (λ _. return user)
              (check_owner-Alive run resume user) (λ _ v l. l))

    pub check_run-Alive : (run : Run) (url : String) → Alive (check_run T env id run url)
    unfolding check_run
    check_run-Alive run url w =
        let elsewhere = submitted_elsewhere T env id run w in
        let with_resume = queued_resume T env (resume_of T env run) >>= check_resume T env run in
        Keeps-bind (Lives T id) (check_posting T env run url elsewhere) (λ _. with_resume)
          (check_posting-Alive run url elsewhere)
          (λ _.
            Keeps-bind (Lives T id) (queued_resume T env (resume_of T env run))
              (check_resume T env run) (queued_resume-Alive (resume_of T env run))
              (check_resume-Alive run))
          w

    open_page-Alive : Alive (open_page T env id)
    unfolding open_page
    open_page-Alive =
        Keeps-each-All (Lives T id) (λ step. step) _
          (
            audit-Keeps T id _,
            (
              update_run-Keeps T id _,
              (
                stage-Keeps T id _,
                (harmless.page_keeps, (update_run-Keeps T id _, (stage-Keeps T id _, tt))),
              ),
            ),
          )

    pub open_form-Alive : Alive (open_form T env id)
    unfolding open_form read_form
    open_form-Alive =
        Keeps-bind (Lives T id) (open_page T env id) (λ _. env.navigate id >>= read_form T env id)
          open_page-Alive
          (λ _.
            Keeps-bind (Lives T id) (env.navigate id) (read_form T env id) harmless.navigate_keeps
              (λ found.
                Keeps-each-All (Lives T id) (λ step. step) _
                  (guard-Keeps T id _ _, (stage-Keeps T id _, tt))))

    pub start_fill-Alive : Alive (start_fill T env id)
    unfolding start_fill
    start_fill-Alive =
        Keeps-each-All (Lives T id) (λ step. step) _
          (update_run-Keeps T id _, (stage-Keeps T id _, tt))

    pub refresh-Alive : (o : Option Run) → Alive (refresh T env o)
    refresh-Alive none w l = l
    refresh-Alive (some r) w l = l

    pub failure_stages-Alive : (e : Failure) → Alive (failure_stages T env id e)
    unfolding failure_stages
    failure_stages-Alive e =
        Keeps-each-All (Lives T id) (λ step. step) _ (browser, (stage-Keeps T id "FAILED", tt))
      where
        browser :
            Alive
              (if env.is_browser_failure e then stage T id "BROWSER_RESTART_FAILED" else return tt)
        browser = elim (Bool-cases (env.is_browser_failure e)) [
          | inl y ↦ rw y (stage-Keeps T id "BROWSER_RESTART_FAILED")
          | inr n ↦ rw n (λ w l. l)
        ]
