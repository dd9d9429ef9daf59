-- ===== src/Matching/Queue/Schedule/Outcome.antt =====
-- When a first match is put on the queue, and what stands there then.
use internship_pilot.Prelude.{
  ℕ, ◌≡◌, ◌≢◌, ◌⊎◌, refl, sym, ap, ◌∙◌, arith, ◌&&◌, Bool, true, false, Option, none, some, String,
  is_some, subst, Bool-cases, Option-cases, inl, inr, str_eq_refl,
}
use internship_pilot.Database.{Table}
use internship_pilot.Database.Laws.{update_at_self, create_self}
use internship_pilot.Program.{Program, Result, ok}
use internship_pilot.Matching.Queue.{pending, is_failed, QueueItem, JobScoring, same_work, Store}
use internship_pilot.Matching.Queue.Schedule.{
  Reason, scheduled, already_scheduled, JobView, is_score, is_initial_work, blocks, decide,
  requeued, new_item, queued_job, write, find_work, act, schedule,
}
use internship_pilot.Matching.Queue.Schedule.Laws.{decide_iff}

-- What a user's first match of a job needs: the job with a usable description, approved facts, and
-- no score of it yet.
pub record IsReady (view : Option JobView) (facts : ℕ) : Type 0 where
  pub job : JobView
  pub known : view ≡ some job
  pub unmatched : job.has_match ≡ false
  pub unscored : is_score job.stored_score ≡ false
  pub described : job.usable_description ≡ true
  pub has_facts : facts ≢ 0

-- A row that waits for its first attempt.
abbrev pub IsFreshRow : ℕ → QueueItem → Type 0
IsFreshRow now q =
    (q.state ≡ pending)
    × (q.attempt_count ≡ 0)
    × (q.next_attempt_at ≡ now)
    × (q.locked_at ≡ none)
    × (q.last_error_code ≡ none)
    × (q.match_result_id ≡ none)
    × (q.completed_at ≡ none)

module _ (Q : Table QueueItem) (J : Table JobScoring) where
  -- The row is new, or it held a failed match of the same work that the caller asked to retry.
  abbrev pub HadRoom : Bool → Option QueueItem → Type 0
  HadRoom retry_failed none = Unit
  HadRoom retry_failed (some r) = (retry_failed ≡ true) × (is_failed r.state ≡ true)

  pub record IsQueued (job_id user : String) (now : ℕ) (retry_failed : Bool) (s u : Store Q J)
      : Type 0 where
    pub id : String
    pub row : QueueItem
    pub stored : Q.find_unique id u.queue ≡ some row
    pub work : is_initial_work job_id user row ≡ true
    pub fresh : IsFreshRow now row
    pub room : HadRoom retry_failed (Q.find_unique id s.queue)
    pub job : JobScoring
    pub job_before : J.find_unique job_id s.jobs ≡ some job
    pub job_after : J.find_unique job_id u.jobs ≡ some (queued_job now job)

  act_scheduled :
      (reason : Reason) (m : Program (Store Q J) Reason) (s : Store Q J)
      → (act Q J reason m s).0 ≡ ok scheduled
      → (reason ≡ scheduled) × (act Q J reason m s ≡ m s)
  act_scheduled Reason.scheduled m s e = (refl, refl)
  act_scheduled Reason.job_not_found m s e = cc
  act_scheduled Reason.already_scored m s e = cc
  act_scheduled Reason.already_scheduled m s e = cc
  act_scheduled Reason.description_insufficient m s e = cc
  act_scheduled Reason.facts_missing m s e = cc

  act_idle :
      (reason : Reason) (m : Program (Store Q J) Reason) (s : Store Q J)
      → ((m s).0 ≢ ok scheduled → (m s).1 ≡ s)
      → (act Q J reason m s).0 ≢ ok scheduled
      → (act Q J reason m s).1 ≡ s
  act_idle Reason.scheduled m s h n = h n
  act_idle _ m s h n = refl

  module _ (fresh_id job_id user : String) (now : ℕ) where
    write_idle :
        (work : Option (String × QueueItem)) (s : Store Q J)
        → (write Q J fresh_id job_id user now work s).0 ≢ ok scheduled
        → (write Q J fresh_id job_id user now work s).1 ≡ s
    unfolding write
    write_idle (some (id, r)) s n =
        elim (Bool-cases
          (is_some (Q.find_unique id s.queue) && is_some (J.find_unique job_id s.jobs))) [
            | inl y ↦ absurd (n (rw y refl))
            | inr z ↦ rw z refl
          ]
    write_idle none s n =
        elim (Option-cases (Q.create same_work fresh_id (new_item job_id user now) s.queue)) [
          | inl e ↦ rw (e, write) refl
          | inr (queue, e) ↦ elim (Bool-cases (is_some (J.find_unique job_id s.jobs))) [
            | inl y ↦ absurd (n (rw (e, write) (rw y refl)))
            | inr z ↦ rw (e, write) (rw z refl)
          ]
        ]

    job_queued :
        (j : JobScoring) (s : Store Q J)
        → J.find_unique job_id s.jobs ≡ some j
        → J.find_unique job_id (J.update_at job_id (λ _. true) (queued_job now) s.jobs)
          ≡ some (queued_job now j)
    job_queued j s e = update_at_self J job_id (λ _. true) (queued_job now) s.jobs ∙ rw e refl

    write_requeued :
        (retry_failed : Bool) (id : String) (r : QueueItem) (j : JobScoring) (s : Store Q J)
        → Q.find_unique id s.queue ≡ some r
        → is_initial_work job_id user r ≡ true
        → blocks retry_failed (some (id, r)) ≡ false
        → J.find_unique job_id s.jobs ≡ some j
        → ((write Q J fresh_id job_id user now (some (id, r)) s).0 ≡ ok scheduled)
          × IsQueued job_id user now retry_failed s
              (write Q J fresh_id job_id user now (some (id, r)) s).1
    unfolding write
    write_requeued retry_failed id r j s f w b e =
        rw (f, e, write)
          (
            refl,
            record {
              id = id;
              row = requeued now r;
              stored = update_at_self Q id (λ _. true) (requeued now) s.queue ∙ rw f refl;
              work = w;
              fresh = (refl, refl, refl, refl, refl, refl, refl);
              room = rw f (ground arith, ground arith);
              job = j;
              job_before = e;
              job_after = job_queued j s e;
            },
          )

    write_new :
        (retry_failed : Bool) (queue : Q.Tab) (j : JobScoring) (s : Store Q J)
        → Q.create same_work fresh_id (new_item job_id user now) s.queue ≡ some queue
        → J.find_unique job_id s.jobs ≡ some j
        → ((write Q J fresh_id job_id user now none s).0 ≡ ok scheduled)
          × IsQueued job_id user now retry_failed s (write Q J fresh_id job_id user now none s).1
    unfolding write
    write_new retry_failed queue j s c e =
        rw (c, e, write)
          (
            refl,
            record {
              id = fresh_id;
              row = new_item job_id user now;
              stored = create_self Q same_work fresh_id (new_item job_id user now) s.queue queue c;
              work = rw (str_eq_refl user, str_eq_refl job_id) refl;
              fresh = (refl, refl, refl, refl, refl, refl, refl);
              room =
                  rw
                    (Q.create_new_key same_work fresh_id (new_item job_id user now) s.queue queue c)
                    tt;
              job = j;
              job_before = e;
              job_after = job_queued j s e;
            },
          )

    write-IsQueued :
        (retry_failed : Bool) (work : Option (String × QueueItem)) (s : Store Q J)
        → find_work Q J job_id user s ≡ work
        → blocks retry_failed work ≡ false
        → (write Q J fresh_id job_id user now work s).0 ≡ ok scheduled
        → IsQueued job_id user now retry_failed s (write Q J fresh_id job_id user now work s).1
    unfolding write
    write-IsQueued retry_failed (some (id, r)) s f b e =
        let (stored, work) = Q.find_first_sound _ _ s.queue id r f in
        elim (Option-cases (J.find_unique job_id s.jobs)) [
          | inl n ↦ let e' = rw (stored, n, write) at e in cc
          | inr (j, h) ↦ (write_requeued retry_failed id r j s stored work b h).1
        ]
    write-IsQueued retry_failed none s f b e =
        elim (Option-cases (Q.create same_work fresh_id (new_item job_id user now) s.queue)) [
          | inl n ↦ let e' = rw (n, write) at e in cc
          | inr (queue, c) ↦ elim (Option-cases (J.find_unique job_id s.jobs)) [
            | inl n ↦ let e' = rw (c, n, write) at e in cc
            | inr (j, h) ↦ (write_new retry_failed queue j s c h).1
          ]
        ]

    write_answers :
        (retry_failed : Bool) (work : Option (String × QueueItem)) (j : JobScoring) (s : Store Q J)
        → find_work Q J job_id user s ≡ work
        → blocks retry_failed work ≡ false
        → J.find_unique job_id s.jobs ≡ some j
        → ((write Q J fresh_id job_id user now work s).0 ≡ ok scheduled)
          ⊎ (((write Q J fresh_id job_id user now work s).0 ≡ ok already_scheduled)
              × (Q.create same_work fresh_id (new_item job_id user now) s.queue ≡ none))
    unfolding write
    write_answers retry_failed (some (id, r)) j s f b e =
        let (stored, work) = Q.find_first_sound _ _ s.queue id r f in
        inl (write_requeued retry_failed id r j s stored work b e).0
    write_answers retry_failed none j s f b e =
        elim (Option-cases (Q.create same_work fresh_id (new_item job_id user now) s.queue)) [
          | inl n ↦ inr (rw (n, write) refl, n)
          | inr (queue, c) ↦ inl (write_new retry_failed queue j s c e).0
        ]

  module _ (fresh_id job_id user : String) (now : ℕ) (view : Option JobView) (retry_failed : Bool)
      (facts : ℕ) (s : Store Q J) where
    abbrev pub outcome : Result Reason × Store Q J
    outcome = schedule Q J fresh_id job_id user now view retry_failed facts s

    -- Where a request to queue a user's first match of a job answers that it is scheduled, the job,
    -- its description, the facts and the missing score allowed it, the job is marked as queued, and
    -- a row of this work waits for its first attempt: a new one, or one that held a failed match
    -- which the caller asked to retry. Any other answer, and any error, leaves the store as it was.
    -- Where all of that allows it, no other row stands in the way and the job is stored, the answer
    -- is that it is scheduled, unless the unique constraint shows that another request was faster.
    pub schedule-IsQueued :
        (outcome.0 ≡ ok scheduled
          → IsReady view facts × IsQueued job_id user now retry_failed s outcome.1)
        × (outcome.0 ≢ ok scheduled → outcome.1 ≡ s)
        × (IsReady view facts
            → blocks retry_failed (find_work Q J job_id user s) ≡ false
            → (j : JobScoring) → J.find_unique job_id s.jobs ≡ some j
            → (outcome.0 ≡ ok scheduled)
              ⊎ ((outcome.0 ≡ ok already_scheduled)
                  × (Q.create same_work fresh_id (new_item job_id user now) s.queue ≡ none)))
    unfolding schedule
    schedule-IsQueued =
        let work = find_work Q J job_id user s in
        let writes = write Q J fresh_id job_id user now work in
        let reason = decide view retry_failed facts work in
        (
          λ e.
              let (decided, same) = act_scheduled reason writes s e in
              let (v, known, a, b, c, d, free) =
                (decide_iff view retry_failed facts work).0 decided in
              (
                record {
                  job = v;
                  known = known;
                  unmatched = a;
                  unscored = b;
                  described = c;
                  has_facts = d;
                },
                subst (IsQueued job_id user now retry_failed s) (sym (ap (λ r. r.1) same)) (
                    write-IsQueued fresh_id job_id user now retry_failed work s refl free
                      (sym (ap (λ r. r.0) same) ∙ e)),
              ),
          act_idle reason writes s (write_idle fresh_id job_id user now work s),
          λ ready free j stored.
              let decided = (decide_iff view retry_failed facts work).1 (
                ready.job, ready.known, ready.unmatched, ready.unscored, ready.described,
                ready.has_facts, free,
              ) in
              rw decided
                (write_answers fresh_id job_id user now retry_failed work j s refl free stored),
        )
