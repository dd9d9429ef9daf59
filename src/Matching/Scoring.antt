-- ===== src/Matching/Scoring.antt =====
-- The older queue in the jobs' own scoring columns (src/lib/matching/scoringQueue.ts): its rows, its
-- worker and the drain of the whole queue. The scorer is a parameter.
pub mod Request
pub mod Round
pub mod Drain
use internship_pilot.Prelude.{
  ℕ, zero, suc, ◌+◌, ◌-◌, ◌≡◌, ◌&&◌, ◌||◌, Bool, true, false, Option, none, some, String, ltb, ◌==◌,
  if◌then◌else◌, is_some,
}
use internship_pilot.Prelude.Int.{ℤ}
use internship_pilot.Database.{Table}
use internship_pilot.Program.{
  Program, Result, ok, err, Failure, database, ◌>>=◌, ◌>>◌, return, catch,
}

-- The texts of the `scoringState` column that this queue writes or reads, and any other.
pub data ScoringState : Type 0 where
  not_scored queued scoring scored failed : ScoringState
  another : String → ScoringState

abbrev pub is_queued : ScoringState → Bool
is_queued queued = true
is_queued _ = false

abbrev pub is_scoring : ScoringState → Bool
is_scoring scoring = true
is_scoring _ = false

abbrev pub is_not_scored : ScoringState → Bool
is_not_scored not_scored = true
is_not_scored _ = false

-- `QUEUED` or `SCORING`
abbrev pub is_waiting : ScoringState → Bool
is_waiting queued = true
is_waiting scoring = true
is_waiting _ = false

-- `SCORED` or `FAILED`
abbrev pub is_ended : ScoringState → Bool
is_ended scored = true
is_ended failed = true
is_ended _ = false

-- The columns of `Job` that the queue reads and writes, under the job's id; times are milliseconds.
pub record JobRow : Type 0 where
  pub active_feed : Bool
  pub match_score : Option ℤ
  pub scoring_state : ScoringState
  pub scoring_priority : ℕ
  pub scoring_queued_at : Option ℕ
  pub scoring_started_at : Option ℕ
  pub scoring_heartbeat_at : Option ℕ
  pub scoring_finished_at : Option ℕ
  pub scoring_error : Option String

abbrev pub is_before : Option ℕ → ℕ → Bool
is_before none cutoff = false
is_before (some t) cutoff = ltb t cutoff

-- `scoringState: "SCORING", scoringHeartbeatAt: { lt: thirtySecsAgo }`
abbrev pub is_abandoned : ℕ → JobRow → Bool
is_abandoned now r = is_scoring r.scoring_state && is_before r.scoring_heartbeat_at (now - 30000)

abbrev pub recovered : JobRow → JobRow
recovered r = record r {
  scoring_state = queued;
  scoring_error = some "Recovered from abandoned worker state";
}

abbrev pub claimed : ℕ → JobRow → JobRow
claimed now r = record r {
  scoring_state = scoring;
  scoring_started_at = some now;
  scoring_heartbeat_at = some now;
}

abbrev pub finished : ℕ → ScoringState → Option String → JobRow → JobRow
finished now state error r = record r {
  scoring_state = state;
  scoring_finished_at = some now;
  scoring_error = error;
}

-- Earlier of two instants, a missing one last.
abbrev pub is_sooner : Option ℕ → Option ℕ → Bool
is_sooner none b = false
is_sooner (some a) none = true
is_sooner (some a) (some b) = ltb a b

-- `orderBy: [{ scoringPriority: "desc" }, { scoringQueuedAt: "asc" }]`
abbrev pub goes_first : JobRow → JobRow → Bool
goes_first a b =
    ltb b.scoring_priority a.scoring_priority
    || (a.scoring_priority == b.scoring_priority
        && is_sooner a.scoring_queued_at b.scoring_queued_at)

module _ (J : Table JobRow) where
  -- The table, and the variables of the module.
  pub record Store : Type 0 where
    pub jobs : J.Tab
    pub last_heartbeat : Option ℕ
    pub currently_scoring : Option String
    pub worker_timer : Bool

  -- `scorer(jobId, { userId })`, and the text of what it throws.
  pub record Scorer : Type 0 where
    pub run : String → String → Program Store (Unit {0})
    pub message : Failure → String

  -- `prisma.job.update({ where: { id }, data })`; a missing row throws.
  unfoldable pub update_job : String → (JobRow → JobRow) → Program Store (Unit {0})
  update_job id f s =
      if is_some (J.find_unique id s.jobs)
      then (ok tt, record s { jobs = J.update_at id (λ _. true) f s.jobs })
      else (err (database "P2025"), s)

  unfoldable pub recover_abandoned_scoring_jobs : ℕ → Store → Store
  recover_abandoned_scoring_jobs now s = record s {
    jobs = J.update_many (λ _ r. is_abandoned now r) recovered s.jobs;
  }

  abbrev pub find_next : Store → Option (String × JobRow)
  find_next s = J.find_first (λ _ r. is_queued r.scoring_state) goes_first s.jobs

  -- `finally { currentlyScoringJobId = null }`
  abbrev pub no_longer_scoring : Result (Unit {0}) × Store → Result (Unit {0}) × Store
  no_longer_scoring (r, s) = (r, record s { currently_scoring = none })

  abbrev pub score_claimed : Scorer → ℕ → String → String → Program Store (Unit {0})
  score_claimed scorer now user id s = no_longer_scoring (
      catch (scorer.run id user >> update_job id (finished now scored none))
        (λ e. update_job id (finished now failed (some (scorer.message e)))) s)

  -- What follows the claim, by the number of rows it changed.
  abbrev pub after_claim : Bool → Scorer → ℕ → String → String → Program Store Bool
  after_claim true scorer now user id s = (ok true, s)
  after_claim false scorer now user id s =
      (score_claimed scorer now user id >> return true) (record s { currently_scoring = some id })

  abbrev pub score_found : Scorer → ℕ → String → Option (String × JobRow) → Program Store Bool
  score_found scorer now user none s = (ok false, record s { currently_scoring = none })
  score_found scorer now user (some (id, r)) s =
      let fits = λ (q : JobRow). is_queued q.scoring_state in
      after_claim (J.count_at id fits s.jobs == 0) scorer now user id
        (record s { jobs = J.update_at id fits (claimed now) s.jobs })

  unfoldable pub score_next_queued_job : Scorer → ℕ → String → Program Store Bool
  score_next_queued_job scorer now user s =
      let t = recover_abandoned_scoring_jobs now (record s { last_heartbeat = some now }) in
      score_found scorer now user (find_next t) t

  -- A turn of the loop counts where it found a job.
  abbrev pub counted : Program Store ℕ → Bool → Program Store ℕ
  counted rest true = rest >>= λ n. return (suc n)
  counted rest false = return 0

  -- `drainScoringQueue(userId, maxJobs)`; the turns read the clock one after the other.
  unfoldable pub drain_scoring_queue : Scorer → (ℕ → ℕ) → ℕ → String → ℕ → Program Store ℕ
  drain_scoring_queue scorer clock turn user zero = return 0
  drain_scoring_queue scorer clock turn user (suc max_jobs) =
      score_next_queued_job scorer (clock turn) user
      >>= counted (drain_scoring_queue scorer clock (suc turn) user max_jobs)

  abbrev pub timer_of : Result Bool → Bool
  timer_of (ok processed) = processed
  timer_of (err e) = false

  -- The body of the worker's timer: it is set again after a turn that found a job.
  unfoldable pub process_scoring_queue : Scorer → ℕ → String → Store → Store
  process_scoring_queue scorer now user s =
      let r = score_next_queued_job scorer now user s in record r.1 { worker_timer = timer_of r.0 }

  unfoldable pub trigger_scoring_worker : Store → Store
  trigger_scoring_worker s = record s { worker_timer = true }
