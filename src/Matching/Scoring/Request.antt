-- ===== src/Matching/Scoring/Request.antt =====
-- Requests to queue jobs for scoring (`queueJobsForMatching` in src/lib/matching/scoringQueue.ts).
use internship_pilot.Prelude.{
  ℕ, ◌+◌, ◌-◌, ◌≡◌, refl, arith, ◌||◌, Bool, true, false, not, Option, none, some, List, [], str_eq,
  ◌∷◌, map, String, is_some, length, length-keep, keep, includes, ◌==◌, if◌then◌else◌, Bool-cases,
  inl, inr,
}
use internship_pilot.Database.{Table}
use internship_pilot.Program.{Program, ok}
use internship_pilot.Matching.Scoring.{
  queued, is_not_scored, is_waiting, JobRow, Store, trigger_scoring_worker,
}

pub record QueueMatchOptions : Type 0 where
  pub job_id : Option String
  pub all_unscored : Bool
  pub rescore_stale : Bool

pub record QueueMatchResult : Type 0 where
  pub requested : ℕ
  pub eligible : ℕ
  pub already_queued : ℕ
  pub newly_queued : ℕ
  pub skipped : ℕ
  pub reasons : List String

abbrev pub queued_with : ℕ → ℕ → JobRow → JobRow
queued_with priority now r = record r {
  scoring_state = queued;
  scoring_priority = priority;
  scoring_queued_at = some now;
  scoring_error = none;
}

abbrev pub is_eligible : String × JobRow → Bool
is_eligible p = not (is_some p.1.match_score) || is_not_scored p.1.scoring_state

abbrev pub waits : String × JobRow → Bool
waits p = is_waiting p.1.scoring_state

abbrev pub ids_of : List (String × JobRow) → List String
ids_of rows = map (λ p. p.0) rows

abbrev pub nothing_to_score : ℕ → List String
nothing_to_score eligible = if eligible == 0 then "All active jobs are already scored." ∷ [] else []

module _ (J : Table JobRow) where
  abbrev pub active_jobs : Store J → List (String × JobRow)
  active_jobs s = J.find_many (λ _ r. r.active_feed) s.jobs

  -- `updateMany({ where: { id: { in } } })`, and the worker's timer.
  abbrev pub queue_all : ℕ → List (String × JobRow) → Store J → Store J
  queue_all now rows s = trigger_scoring_worker J (record s {
    jobs = J.update_many (λ k _. includes (ids_of rows) k) (queued_with 1 now) s.jobs;
  })

  abbrev pub queue_one : ℕ → String → Option JobRow → Program (Store J) QueueMatchResult
  queue_one now id none s = (
    ok (record {
      requested = 1;
      eligible = 0;
      already_queued = 0;
      newly_queued = 0;
      skipped = 1;
      reasons = "Job not found" ∷ [];
    }),
    s,
  )
  queue_one now id (some r) s =
      let waiting = is_waiting r.scoring_state in
      (
        ok (record {
          requested = 1;
          eligible = 1;
          already_queued = if waiting then 1 else 0;
          newly_queued = if waiting then 0 else 1;
          skipped = 0;
          reasons = [];
        }),
        trigger_scoring_worker J
            (record s { jobs = J.update_at id (λ _. true) (queued_with 10 now) s.jobs }),
      )

  abbrev pub queue_unscored : ℕ → Program (Store J) QueueMatchResult
  queue_unscored now s =
      let active = active_jobs s in
      let eligible = keep is_eligible active in
      let to_queue = keep (λ p. not (waits p)) eligible in
      (
        ok (record {
          requested = length active;
          eligible = length eligible;
          already_queued = length (keep waits eligible);
          newly_queued = length to_queue;
          skipped = length active - length eligible;
          reasons = nothing_to_score (length eligible);
        }),
        queue_all now to_queue s,
      )

  abbrev pub queue_stale : ℕ → Program (Store J) QueueMatchResult
  queue_stale now s =
      let active = active_jobs s in
      let to_queue = keep (λ p. not (waits p)) active in
      (
        ok (record {
          requested = length active;
          eligible = length active;
          already_queued = length active - length to_queue;
          newly_queued = length to_queue;
          skipped = 0;
          reasons = [];
        }),
        queue_all now to_queue s,
      )

  abbrev pub queue_many : Bool → Bool → ℕ → Program (Store J) QueueMatchResult
  queue_many true stale now s = queue_unscored now s
  queue_many false true now s = queue_stale now s
  queue_many false false now s = (
    ok (record {
      requested = 0;
      eligible = 0;
      already_queued = 0;
      newly_queued = 0;
      skipped = 0;
      reasons = "No option provided" ∷ [];
    }),
    s,
  )

  abbrev pub queue_by : Option String → QueueMatchOptions → ℕ → Program (Store J) QueueMatchResult
  queue_by none options now s = queue_many options.all_unscored options.rescore_stale now s
  queue_by (some id) options now s =
      if str_eq id ""
      then queue_many options.all_unscored options.rescore_stale now s
      else queue_one now id (J.find_unique id s.jobs) s

  unfoldable pub queue_jobs_for_matching :
      QueueMatchOptions → ℕ → Program (Store J) QueueMatchResult
  queue_jobs_for_matching options now s = queue_by options.job_id options now s

  -- The numbers of a report add up.
  abbrev pub AddsUp : Program (Store J) QueueMatchResult → Store J → Type 0
  AddsUp m s =
      (r : QueueMatchResult) × ((m s).0 ≡ ok r)
      × (r.requested ≡ r.eligible + r.skipped)
      × (r.eligible ≡ r.already_queued + r.newly_queued)

  parted :
      (w : String × JobRow → Bool) (xs : List (String × JobRow))
      → length xs ≡ length (keep w xs) + length (keep (λ p. not (w p)) xs)
  parted w [] = refl
  parted w (x ∷ xs) = ground (arith, parted w xs)

  queue_one-AddsUp :
      (now : ℕ) (id : String) (o : Option JobRow) (s : Store J) → AddsUp (queue_one now id o) s
  queue_one-AddsUp now id none s = (_, refl, refl, refl)
  queue_one-AddsUp now id (some r) s = (_, refl, refl, ground arith)

  queue_many-AddsUp :
      (unscored stale : Bool) (now : ℕ) (s : Store J) → AddsUp (queue_many unscored stale now) s
  queue_many-AddsUp true stale now s =
      let active = active_jobs s in
      (
        _,
        refl,
        (let fewer = length-keep is_eligible active in omega arith),
        parted waits (keep is_eligible active),
      )
  queue_many-AddsUp false true now s =
      let active = active_jobs s in
      (_, refl, omega arith, (let fewer = length-keep (λ p. not (waits p)) active in omega arith))
  queue_many-AddsUp false false now s = (_, refl, refl, refl)

  -- Every request is answered with a report, and its numbers add up: each job it asked for is
  -- eligible or skipped, and each eligible one was queued before or is queued now.
  pub queue_jobs_for_matching-AddsUp :
      (options : QueueMatchOptions) (now : ℕ) (s : Store J)
      → AddsUp (queue_jobs_for_matching options now) s
  unfolding queue_jobs_for_matching
  queue_jobs_for_matching-AddsUp options now s = queue_by-AddsUp options.job_id
    where
      queue_by-AddsUp : (o : Option String) → AddsUp (queue_by o options now) s
      queue_by-AddsUp none = queue_many-AddsUp options.all_unscored options.rescore_stale now s
      queue_by-AddsUp (some id) = elim (Bool-cases (str_eq id "")) [
        | inl y ↦ rw y (queue_many-AddsUp options.all_unscored options.rescore_stale now s)
        | inr n ↦ rw n (queue_one-AddsUp now id (J.find_unique id s.jobs) s)
      ]
