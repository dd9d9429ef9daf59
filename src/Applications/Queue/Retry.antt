-- ===== src/Applications/Queue/Retry.antt =====
-- What it takes to retry a failed run, and what becomes of it.
use internship_pilot.Prelude.{
  ℕ, ◌+◌, ◌≡◌, refl, sym, ap, ◌∙◌, arith, ==_iff, ◌&&◌, Bool, true, false, not, Option, none, some,
  [], ◌∷◌, ◌++◌, String, is_text, is_some, ◌==◌, Bool-cases, inl, inr,
}
use internship_pilot.Database.{Table, hits, patched}
use internship_pilot.Database.Laws.{update_at_self}
use internship_pilot.Program.{Program, Result, ok, err, bind_ok}
use internship_pilot.Applications.Queue.{
  queued, is_active, is_moving, is_failed, is_submitted, Run, nowhere, application_active_key,
  Answer, Store, mark_applying, write_audit, key_is_taken, record_run_stage,
}
use internship_pilot.Applications.Queue.Resume.{
  past_attempts, attempt_of, retried_run, find_own, write_where, answer_moving, has_other,
  can_retry, after_retry, requeue_failed, explained, retry_run, retry_failed_run, refuse_when,
  unless_moving, only_failed, already_active, requeue,
}

module _ (T : Table Run) where
  not_moved :
      (id : String) (o : Option Run) (message : String) (s : Store T) (a : Answer) (u : Store T)
      → answer_moving T id o message s ≡ (ok a, u)
      → a.was_queued ≡ false
  not_moved id none message s a u e = let e' = ap (λ z. z.0) e in cc
  not_moved id (some r) message s a u e = elim (Bool-cases (is_moving r.status)) [
    | inl y ↦ let e' = ap (λ z. z.0) (rw y at e) in cc
    | inr n ↦ let e' = ap (λ z. z.0) (rw n at e) in cc
  ]

  write_where_ok :
      (id : String) (fits : Run → Bool) (key : String) (f : Run → Run) (s : Store T) (n : ℕ)
      (u : Store T)
      → write_where T id fits key f s ≡ (ok n, u)
      → (n ≡ T.count_at id fits s.runs) × (u.runs ≡ T.update_at id fits f s.runs)
  unfolding write_where
  write_where_ok id fits key f s n u e =
      elim (Bool-cases ((T.count_at id fits s.runs == 1) && key_is_taken T id key s)) [
        | inl y ↦ let e' = ap (λ z. z.0) (rw y at e) in cc
        | inr z ↦ let g = rw z at e in let e' = ap (λ w. w.0) g in (cc, sym (ap (λ w. w.1.runs) g))
      ]

  hit_one :
      (fits : Run → Bool) (f : Run → Run) (r : Run)
      → hits fits (some r) ≡ 1
      → (fits r ≡ true) × (patched fits f (some r) ≡ some (f r))
  hit_one fits f r h = elim (Bool-cases (fits r)) [
    | inl y ↦ (y, rw y)
    | inr n ↦ absurd (ground arith)
  ]

  abbrev pub staged : Run → Run
  staged r = record r { current_step = some "QUEUED" }

  requeue_failed_row :
      (now : ℕ) (id user : String) (r : Run) (s : Store T) (a : Answer) (u : Store T)
      → T.find_unique id s.runs ≡ some r
      → requeue_failed T now id user r s ≡ (ok a, u)
      → a.was_queued ≡ true
      → (can_retry T user r ≡ true)
        × (T.find_unique id u.runs
            ≡ some (staged (retried_run now (application_active_key user r.job_id) r r)))
  unfolding requeue_failed record_run_stage mark_applying write_audit
  requeue_failed_row now id user r s a u f e q =
      let key = application_active_key user r.job_id in
      let change = retried_run now key r in
      let (n, t, w, rest) =
        bind_ok (write_where T id (can_retry T user) key change) (after_retry T id user r) s a u
          e in
      let (counted, rows) = write_where_ok id (can_retry T user) key change s n t w in
      elim (Bool-cases (n == 1)) [
        | inr other ↦
            let lost = not_moved id (find_own T id user t) _ t a u (rw other at rest) in cc
        | inl one ↦
            let h : hits (can_retry T user) (some r) ≡ 1 =
              ap (hits (can_retry T user)) (sym f)
              ∙ (sym (T.count_at_hits id (can_retry T user) s.runs)
                  ∙ (sym counted ∙ (==_iff n 1).0 one)) in
            let (fit, row) = hit_one (can_retry T user) change r h in
            let last = sym (ap (λ (z : Result Answer × Store T). z.1.runs) (rw one at rest)) in
            (
              fit,
              ap (T.find_unique id) last
                  ∙ (update_at_self T id (λ _. true) staged t.runs
                      ∙ ap (patched (λ _. true) staged) (
                          ap (T.find_unique id) rows
                          ∙ (update_at_self T id (can_retry T user) change s.runs
                              ∙ (ap (patched (can_retry T user) change) f ∙ row)))),
            )
      ]

  -- What is known once a failed run was queued again.
  pub record IsRetried (now : ℕ) (id user : String) (s u : Store T) : Type 0 where
    pub run : Run
    pub stored : T.find_unique id s.runs ≡ some run
    pub owned : is_text run.user_id user ≡ true
    pub had_failed : is_failed run.status ≡ true
    pub unlocked : is_some run.active_key ≡ false
    pub alone : has_other T is_active id user run.job_id s ≡ false
    pub unsent : has_other T is_submitted id user run.job_id s ≡ false
    pub row : Run
    pub stored_after : T.find_unique id u.runs ≡ some row
    pub queued_again : row.status ≡ queued
    pub keyed : row.active_key ≡ some (application_active_key user run.job_id)
    pub next_attempt : row.attempt_number ≡ run.attempt_number + 1
    pub history :
        row.attempt_history ≡ some (past_attempts run.attempt_history ++ attempt_of now run ∷ [])
    pub restarted : (row.current_step ≡ some "QUEUED") × (row.finished_at ≡ none)
    pub cleared :
        (row.error_code ≡ none)
        × (row.error_log ≡ none)
        × (row.validation_path ≡ none)
        × (row.needs_user_action_reason ≡ none)
        × (row.stopped ≡ nowhere)
    pub kept :
        (row.user_id ≡ run.user_id)
        × (row.job_id ≡ run.job_id)
        × (row.resume_document_id ≡ run.resume_document_id)
        × (row.cover_letter_document_id ≡ run.cover_letter_document_id)

  explained_ok :
      (r : Result Answer × Store T) (a : Answer) (u : Store T)
      → explained T r ≡ (ok a, u)
      → r ≡ (ok a, u)
  explained_ok (ok b, t) a u e = e
  explained_ok (err x, t) a u e = let e' = ap (λ z. z.0) e in cc

  own_run :
      (id user : String) (s : Store T) (r : Run)
      → find_own T id user s ≡ some r
      → T.find_unique id s.runs ≡ some r
  own_run id user s r e = ground arith

  refuse_when_ok :
      (b : Bool) (message : String) (m : Program (Store T) Answer) (s : Store T) (a : Answer)
      (u : Store T)
      → refuse_when T b message m s ≡ (ok a, u)
      → (b ≡ false) × (m s ≡ (ok a, u))
  refuse_when_ok true message m s a u e = let e' = ap (λ z. z.0) e in cc
  refuse_when_ok false message m s a u e = (refl, e)

  unless_moving_ok :
      (b : Bool) (id : String) (r : Run) (m : Program (Store T) Answer) (s : Store T) (a : Answer)
      (u : Store T)
      → unless_moving T b id r m s ≡ (ok a, u)
      → a.was_queued ≡ true
      → m s ≡ (ok a, u)
  unless_moving_ok true id r m s a u e q = let e' = ap (λ z. z.0) e in cc
  unless_moving_ok false id r m s a u e q = e

  not-false : (b : Bool) → not b ≡ false → b ≡ true
  not-false true e = refl
  not-false false e = cc

  retry_run-IsRetried :
      (now : ℕ) (id user : String) (o : Option Run) (s : Store T) (a : Answer) (u : Store T)
      → find_own T id user s ≡ o
      → retry_run T now id user o s ≡ (ok a, u)
      → a.was_queued ≡ true
      → IsRetried now id user s u
  retry_run-IsRetried now id user none s a u o e q = let e' = ap (λ z. z.0) e in cc
  retry_run-IsRetried now id user (some r) s a u o e q =
      let sent : String = "This requisition is already recorded as submitted." in
      let last = requeue T now id user r in
      let unsent_first = refuse_when T (has_other T is_submitted id user r.job_id s) sent last in
      let alone_first =
        refuse_when T (has_other T is_active id user r.job_id s) (already_active T) unsent_first in
      let failed_first = refuse_when T (not (is_failed r.status)) (only_failed T) alone_first in
      let e1 = unless_moving_ok (is_moving r.status) id r failed_first s a u e q in
      let (f, e2) =
        refuse_when_ok (not (is_failed r.status)) (only_failed T) alone_first s a u e1 in
      let (alone, e3) =
        refuse_when_ok (has_other T is_active id user r.job_id s) (already_active T) unsent_first s
          a u e2 in
      let (unsent, e4) =
        refuse_when_ok (has_other T is_submitted id user r.job_id s) sent last s a u e3 in
      let stored = own_run id user s r o in
      let (fit, row) =
        requeue_failed_row now id user r s a u stored
          (explained_ok (requeue_failed T now id user r s) a u e4) q in
      record {
        run = r;
        stored = stored;
        owned = ground arith;
        had_failed = not-false (is_failed r.status) f;
        unlocked = ground arith;
        alone = alone;
        unsent = unsent;
        row = staged (retried_run now (application_active_key user r.job_id) r r);
        stored_after = row;
        queued_again = refl;
        keyed = refl;
        next_attempt = refl;
        history = refl;
        restarted = (refl, refl);
        cleared = (refl, refl, refl, refl, refl);
        kept = (refl, refl, refl, refl);
      }

  -- A run is queued again only where it is the user's own, has failed, holds no key, and the user
  -- has no other active and no submitted run of the job. Then it keeps its row,
  -- with its user, job and documents: it is queued under the key of this user and this job, at its
  -- first step, with the next attempt number and the failed attempt at the end of its history, and
  -- the error, its log, the validation file, the reason to ask the user, the place where it stopped
  -- and the finish time are gone.
  pub retry_failed_run-IsRetried :
      (now : ℕ) (id user : String) (s : Store T) (a : Answer) (u : Store T)
      → retry_failed_run T now id user s ≡ (ok a, u)
      → a.was_queued ≡ true
      → IsRetried now id user s u
  unfolding retry_failed_run
  retry_failed_run-IsRetried now id user s a u e q =
      retry_run-IsRetried now id user (find_own T id user s) s a u refl e q
