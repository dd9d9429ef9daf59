-- ===== src/Tests/Scoring.antt =====
-- The older scoring queue at concrete inputs.
use internship_pilot.Prelude.Int.{pos}
use internship_pilot.Database.{patched}
use internship_pilot.Prelude.{
  ◌≡◌, ap, ◌∙◌, Bool, Option, String, str_eq, if◌then◌else◌, ◌+◌, refl, arith, true, false, none,
  some, [], ◌∷◌, eq_iff,
}
use internship_pilot.Database.Memory.{memory}
use internship_pilot.Program.{err, other}
use internship_pilot.Matching.Scoring.{
  queued, JobRow, Store, Scorer, score_next_queued_job, drain_scoring_queue,
}
use internship_pilot.Matching.Scoring.Round.{
  state_of, KeepsStates, Progress, score_next_queued_job-Progress,
}
use internship_pilot.Matching.Scoring.Drain.{Covers, IsDrained, drain_scoring_queue-IsDrained}

abbrev waiting_job : JobRow
waiting_job = record {
  active_feed = true;
  match_score = none;
  scoring_state = queued;
  scoring_priority = 1;
  scoring_queued_at = some 10;
  scoring_started_at = none;
  scoring_heartbeat_at = none;
  scoring_finished_at = none;
  scoring_error = none;
}

abbrev store : Store memory
store = record {
  jobs = record { keys = "j1" ∷ []; look = λ k. some waiting_job };
  last_heartbeat = none;
  currently_scoring = none;
  worker_timer = false;
}

-- A scorer that stores a score, and throws after that.
abbrev with_score : JobRow → JobRow
with_score r = record r { match_score = some (pos 70) }

abbrev with_scores : String → Store memory → Store memory
with_scores id s = record s {
  jobs = (memory {Row = JobRow}).update_at id (λ _. true) with_score s.jobs;
}

abbrev scorer : Scorer memory
scorer = record {
  run = λ id user s. (err (other "no model"), with_scores id s);
  message = λ e. "no model";
}

same_state :
    (b : Bool) (o : Option JobRow)
    → state_of (if b then patched (λ _. true) with_score o else o) ≡ state_of o
same_state true none = refl
same_state true (some r) = refl
same_state false o = refl

keeps : KeepsStates memory scorer
keeps id user s k =
    ap state_of ((memory {Row = JobRow}).update_at-find_unique id (λ _. true) with_score s.jobs k)
    ∙ same_state (str_eq k id) ((memory {Row = JobRow}).find_unique k s.jobs)

score_next_queued_job-Progress_example :
    Progress memory scorer keeps store (score_next_queued_job memory scorer 20 "u1" store)
score_next_queued_job-Progress_example =
    score_next_queued_job-Progress memory scorer keeps 20 "u1" store

covered : Covers memory scorer keeps ("j1" ∷ []) store
covered k w = ground (arith, eq_iff k "j1", eq_iff "j1" k)

drain_scoring_queue-IsDrained_example :
    IsDrained memory scorer keeps 1 (drain_scoring_queue memory scorer (λ n. 20 + n) 0 "u1" 1 store)
drain_scoring_queue-IsDrained_example =
    drain_scoring_queue-IsDrained memory scorer keeps (λ n. 20 + n) 0 "u1" 1 ("j1" ∷ []) store
      (omega arith) covered
