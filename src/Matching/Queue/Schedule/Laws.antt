-- ===== src/Matching/Queue/Schedule/Laws.antt =====
-- What scheduling a first match guarantees.
use internship_pilot.Prelude.{
  ℕ, ◌≡◌, ◌≢◌, ◌↔◌, refl, sym, subst, arith, ◌&&◌, Bool, true, false, Option, none, some, String,
  is_some, Bool-cases, Option-cases, inl, inr,
}
use internship_pilot.Database.{Table}
use internship_pilot.Database.Laws.{Every-update_at, Every-create}
use internship_pilot.Program.{Program, Keeps}
use internship_pilot.Matching.Queue.{QueueItem, JobScoring, same_work, Store}
use internship_pilot.Matching.Queue.Sound.{IsSound}
use internship_pilot.Matching.Queue.Invariant.{AllSound}
use internship_pilot.Matching.Queue.Schedule.{
  Reason, scheduled, JobView, is_score, blocks, decide, requeued, new_item, write, find_work, act,
  schedule,
}

requeued-IsSound : (now : ℕ) (r : QueueItem) → IsSound (requeued now r)
requeued-IsSound now r = ground arith

new_item-IsSound : (job_id user : String) (now : ℕ) → IsSound (new_item job_id user now)
new_item-IsSound job_id user now = ground arith

decided :
    (v w : JobView) (retry_failed : Bool) (facts : ℕ) (work : Option (String × QueueItem))
    → some v ≡ some w
    → w.has_match ≡ false
    → is_score w.stored_score ≡ false
    → w.usable_description ≡ true
    → facts ≢ 0
    → blocks retry_failed work ≡ false
    → decide (some v) retry_failed facts work ≡ scheduled
decided v w retry_failed facts work same a b c d e =
    subst (λ o. decide o retry_failed facts work ≡ scheduled) (sym same) (ground arith)

-- The early returns let a request through to the writes exactly when the job exists with a usable
-- description, the user has approved facts and no score of this job, and no row of this work stands
-- in the queue, or only a failed one and the caller asked to retry it.
pub decide_iff :
    (view : Option JobView) (retry_failed : Bool) (facts : ℕ) (work : Option (String × QueueItem))
    → (decide view retry_failed facts work ≡ scheduled) ↔ (
        (v : JobView) × (view ≡ some v)
        × (v.has_match ≡ false)
        × (is_score v.stored_score ≡ false)
        × (v.usable_description ≡ true)
        × (facts ≢ 0)
        × (blocks retry_failed work ≡ false))
decide_iff none retry_failed facts work = (λ e. cc, λ h. let e = h.1 in cc)
decide_iff (some v) retry_failed facts work = (
  λ e. (v, refl, ground arith, ground arith, ground arith, ground arith, ground arith),
  λ h. decided v h.0 retry_failed facts work h.1 h.2 h.3 h.4 h.5 h.6,
)

module _ (Q : Table QueueItem) (J : Table JobScoring) where
  write-AllSound :
      (fresh_id job_id user : String) (now : ℕ) (work : Option (String × QueueItem))
      → Keeps (AllSound Q J) (write Q J fresh_id job_id user now work)
  unfolding write
  write-AllSound fresh_id job_id user now (some (id, r)) s h =
      elim (Bool-cases
        (is_some (Q.find_unique id s.queue) && is_some (J.find_unique job_id s.jobs))) [
          | inl y ↦ rw y (
              Every-update_at Q (λ k q. IsSound q) id (λ _. true) (requeued now) s.queue
                (λ q _ _ _. requeued-IsSound now q) h)
          | inr n ↦ rw n h
        ]
  write-AllSound fresh_id job_id user now none s h =
      elim (Option-cases (Q.create same_work fresh_id (new_item job_id user now) s.queue)) [
        | inl e ↦ rw (e, write) h
        | inr (queue, e) ↦ elim (Bool-cases (is_some (J.find_unique job_id s.jobs))) [
          | inl y ↦
              rw (e, write)
                (rw y (
                  Every-create Q (λ k q. IsSound q) same_work fresh_id _ s.queue queue e
                    (new_item-IsSound job_id user now) h))
          | inr n ↦ rw (e, write) (rw n h)
        ]
      ]

  act-AllSound :
      (reason : Reason) (m : Program (Store Q J) Reason)
      → Keeps (AllSound Q J) m
      → Keeps (AllSound Q J) (act Q J reason m)
  act-AllSound scheduled m k s h = k s h
  act-AllSound _ m k s h = h

  -- Scheduling keeps every row of the queue sound, whichever way it ends.
  pub schedule-AllSound :
      (fresh_id job_id user : String) (now : ℕ) (view : Option JobView) (retry_failed : Bool)
      (facts : ℕ)
      → Keeps (AllSound Q J) (schedule Q J fresh_id job_id user now view retry_failed facts)
  unfolding schedule
  schedule-AllSound fresh_id job_id user now view retry_failed facts s h =
      act-AllSound (decide view retry_failed facts (find_work Q J job_id user s)) _
        (write-AllSound fresh_id job_id user now (find_work Q J job_id user s)) s h
