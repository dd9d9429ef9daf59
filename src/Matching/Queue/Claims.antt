-- ===== src/Matching/Queue/Claims.antt =====
-- Claims of one item by several workers, and what is written after a failure.
use internship_pilot.Prelude.{
  ℕ, ◌+◌, ◌*◌, ◌^◌, ◌≤◌, ◌<◌, ◌≡◌, ◌≢◌, ◌↔◌, refl, ap, ◌∙◌, arith, ◌&&◌, Bool, true, false, Option,
  none, some, List, [], ◌∷◌, String, str_eq, leb, Bool-cases, inl, inr, if◌then◌else◌, is_some,
}
use internship_pilot.Database.{Table, hits, patched}
use internship_pilot.Database.Laws.{update_at_self}
use internship_pilot.Program.{ok, Failure}
use internship_pilot.Matching.Queue.{
  retryable_failed, permanent_failed, is_claimable, state_eq, QueueItem, JobScoring, max_attempts,
  Store, update_both,
}
use internship_pilot.Matching.Queue.Codes.{safe_error_code, is_transient}
use internship_pilot.Matching.Queue.Item.{
  Services, failed, worker_concurrency, claimed, is_retryable, retry_delay,
}
use internship_pilot.Matching.Queue.Worker.{claim, record_failure}

-- At most two workers run, and a second one only with eight gigabytes of free memory.
pub worker_concurrency_bounds :
    (configured : Option ℕ) (free_memory : ℕ)
    → (1 ≤ worker_concurrency configured free_memory)
      × (worker_concurrency configured free_memory ≤ 2)
      × (worker_concurrency configured free_memory ≡ 2 → 8 * 1024 ^ 3 ≤ free_memory)
unfolding worker_concurrency
worker_concurrency_bounds configured free_memory = (ground arith, ground arith, ground arith)

fits_hits :
    (w : QueueItem → Bool) (o : Option QueueItem)
    → hits w o ≢ 0
    → (r : QueueItem) × (o ≡ some r) × (w r ≡ true)
fits_hits w none h = absurd (h refl)
fits_hits w (some r) h = (r, refl, ground arith)

module _ (Q : Table QueueItem) (J : Table JobScoring) (env : Services) where
  -- The item stands in the queue, and waits for nobody.
  abbrev pub IsTaken : String → Store Q J → Type 0
  IsTaken id s =
      (r : QueueItem) × (Q.find_unique id s.queue ≡ some r) × (is_claimable r.state ≡ false)

  -- The claims of several workers, each of an item as its worker saw it, one after the other.
  abbrev pub after_claims : List (ℕ × String × QueueItem) → Store Q J → Store Q J
  after_claims [] s = s
  after_claims ((now, id, seen) ∷ rest) s = after_claims rest (claim Q J env now id seen s).1

  claim-IsTaken :
      (now : ℕ) (id : String) (seen : QueueItem) (s : Store Q J)
      → (claim Q J env now id seen s).0 ≢ ok 0
      → IsTaken id (claim Q J env now id seen s).1
  unfolding claim
  claim-IsTaken now id seen s won =
      let fits = λ (r : QueueItem). state_eq r.state seen.state && leb r.next_attempt_at now in
      let (r, e, y) =
        fits_hits fits (Q.find_unique id s.queue)
          (λ z. won (ap ok (Q.count_at_hits id fits s.queue ∙ z))) in
      (claimed now r, update_at_self Q id fits (claimed now) s.queue ∙ (rw e (rw y)), refl)

  patched-IsTaken :
      (w : QueueItem → Bool) (now : ℕ) (r : QueueItem)
      → is_claimable r.state ≡ false
      → (q : QueueItem) × (patched w (claimed now) (some r) ≡ some q)
        × (is_claimable q.state ≡ false)
  patched-IsTaken w now r h = elim (Bool-cases (w r)) [
    | inl y ↦ (claimed now r, rw y refl, refl)
    | inr n ↦ (r, rw n refl, h)
  ]

  claim-keeps-IsTaken :
      (now : ℕ) (id other : String) (seen : QueueItem) (s : Store Q J)
      → IsTaken id s
      → IsTaken id (claim Q J env now other seen s).1
  unfolding claim
  claim-keeps-IsTaken now id other seen s (r, e, h) =
      let fits = λ (q : QueueItem). state_eq q.state seen.state && leb q.next_attempt_at now in
      let at_row = Q.update_at-find_unique other fits (claimed now) s.queue id in
      elim (Bool-cases (str_eq id other)) [
        | inl same ↦
            let (q, f, k) = patched-IsTaken fits now r h in (q, at_row ∙ (rw same (rw e f)), k)
        | inr differ ↦ (r, at_row ∙ (rw differ e), h)
      ]

  after_claims-IsTaken :
      (id : String) (others : List (ℕ × String × QueueItem)) (s : Store Q J)
      → IsTaken id s
      → IsTaken id (after_claims others s)
  after_claims-IsTaken id [] s h = h
  after_claims-IsTaken id ((now, other, seen) ∷ rest) s h =
      after_claims-IsTaken id rest (claim Q J env now other seen s).1
        (claim-keeps-IsTaken now id other seen s h)

  IsTaken-claim :
      (later : ℕ) (id : String) (stale : QueueItem) (s : Store Q J)
      → is_claimable stale.state ≡ true
      → IsTaken id s
      → (claim Q J env later id stale s).0 ≡ ok 0
  unfolding claim
  IsTaken-claim later id stale s waiting (r, e, h) =
      let again = λ (q : QueueItem). state_eq q.state stale.state && leb q.next_attempt_at later in
      ap ok (Q.count_at_hits id again s.queue ∙ (rw e (ground arith)))

  -- Of the workers that read an item as waiting, one claims it: after a claim that counted a row,
  -- and after any further claims of this and of other items, a claim of that item counts none, by
  -- whatever waiting state and time its worker saw. Between these claims nothing else is written.
  pub claim_once :
      (now later : ℕ) (id : String) (seen stale : QueueItem)
      (others : List (ℕ × String × QueueItem)) (s : Store Q J)
      → is_claimable stale.state ≡ true
      → (claim Q J env now id seen s).0 ≢ ok 0
      → (claim Q J env later id stale (after_claims others (claim Q J env now id seen s).1)).0
        ≡ ok 0
  claim_once now later id seen stale others s waiting won = IsTaken-claim later id stale _ waiting (
      after_claims-IsTaken id others (claim Q J env now id seen s).1
        (claim-IsTaken now id seen s won))

  update_both_item :
      (id : String) (f : QueueItem → QueueItem) (job_id : String) (g : JobScoring → JobScoring)
      (s : Store Q J) (r : QueueItem)
      → Q.find_unique id s.queue ≡ some r
      → is_some (J.find_unique job_id s.jobs) ≡ true
      → Q.find_unique id (update_both Q J id f job_id g s).1.queue ≡ some (f r)
  unfolding update_both
  update_both_item id f job_id g s r e j =
      rw (j, update_both) (rw e (update_at_self Q id (λ _. true) f s.queue ∙ (rw e)))

  -- After a failed attempt the item waits for a retry exactly when the failure is transient and the
  -- attempt was not the third, one minute after the first attempt and five after the second;
  -- otherwise it has failed for good. Its lock is gone, and only the safe code is kept.
  pub record_failure_cases :
      (now : ℕ) (id job_id : String) (attempt : ℕ) (e : Failure) (s : Store Q J) (r : QueueItem)
      → Q.find_unique id s.queue ≡ some r
      → is_some (J.find_unique job_id s.jobs) ≡ true
      → (q : QueueItem) × (Q.find_unique id
            (record_failure Q J env now id job_id attempt e s).1.queue
          ≡ some q)
        × (q.locked_at ≡ none)
        × (q.last_error_code ≡ some (safe_error_code e))
        × (q.attempt_count ≡ r.attempt_count)
        × ((q.state ≡ retryable_failed)
            ↔ ((is_transient e (safe_error_code e) ≡ true) × (attempt < max_attempts)))
        × (q.state ≡ retryable_failed → q.next_attempt_at ≡ now + retry_delay attempt)
        × (q.state ≢ retryable_failed → (q.state ≡ permanent_failed) × (q.completed_at ≡ some now))
  unfolding record_failure is_retryable
  record_failure_cases now id job_id attempt e s r f j =
      let next = if is_retryable e attempt then now + retry_delay attempt else now in
      (
        failed now (is_retryable e attempt) next (safe_error_code e) r,
        update_both_item id _ job_id _ s r f j,
        ground arith,
        ground arith,
        ground arith,
        (λ h. (ground arith, ground arith), λ h. ground arith),
        λ h. ground arith,
        λ h. (ground arith, ground arith),
      )
