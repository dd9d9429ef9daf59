-- ===== src/Matching/Queue/Invariant.antt =====
-- What holds of every row of the match queue, and that a worker's round keeps it.
use internship_pilot.Prelude.{
  ℕ, ◌+◌, ◌≡◌, sym, arith, ◌&&◌, Bool, true, Option, none, some, String, str_eq, str_eq_refl,
  eq_iff, ap, subst, is_some, leb, ◌==◌, Bool-cases, Option-cases, inl, inr, ◌∙◌,
}
use mathlib.Core.Option.{some-injective}
use internship_pilot.Database.{Table, Every}
use internship_pilot.Database.Laws.{Every-update_at, update_at_self}
use internship_pilot.Program.{
  Result, ok, err, Failure, ◌>>◌, return, Keeps, Keeps-bind, Keeps-catch, Keeps-each,
}
use internship_pilot.Matching.Queue.{
  state_eq, QueueItem, JobScoring, initial_match_type, Store, update_item, update_job, update_both,
  match_is_taken,
}
use internship_pilot.Matching.Queue.Item.{
  Services, PersistedMatch, is_complete_automatic_match, retired, claimed, is_retryable, is_due,
  hash_is_current, is_earlier,
}
use internship_pilot.Matching.Queue.Worker.{
  recover_one, recover_abandoned, claim, finish, record_failure, accept, score_item, run_claimed,
  claim_and_run, process_owned, process_found, started, score_or_record, process_due, retire,
  origin_of, find_due, process_next,
}
use internship_pilot.Matching.Queue.Sound.{
  IsSound, interrupted-IsSound, retired-IsSound, claimed-IsSound, finished-IsSound, failed-IsSound,
  failed-attempt_count, is_retryable-lt, claimable_of_eq, state_eq_refl,
}

module _ (Q : Table QueueItem) (J : Table JobScoring) where
  abbrev pub AllSound : Store Q J → Type 0
  AllSound s = Every Q (λ k r. IsSound r) s.queue

  -- Every row is sound, and the row under `id` has made this many attempts.
  abbrev OnAttempt : String → ℕ → Store Q J → Type 0
  OnAttempt id n s = Every Q (λ k r. IsSound r × (str_eq k id ≡ true → r.attempt_count ≡ n)) s.queue

  module _ (P : String → QueueItem → Type 0) where
    Keeps-update_item :
        (id : String) (f : QueueItem → QueueItem)
        → ((r : QueueItem) → P id r → P id (f r))
        → Keeps (λ s. Every Q P s.queue) (update_item Q J id f)
    unfolding update_item
    Keeps-update_item id f step s h = elim (Bool-cases (is_some (Q.find_unique id s.queue))) [
      | inl y ↦ rw y (Every-update_at Q P id (λ _. true) f s.queue (λ r _ _. step r) h)
      | inr n ↦ rw n h
    ]

    Keeps-update_both :
        (id : String) (f : QueueItem → QueueItem) (job_id : String) (g : JobScoring → JobScoring)
        → ((r : QueueItem) → P id r → P id (f r))
        → Keeps (λ s. Every Q P s.queue) (update_both Q J id f job_id g)
    unfolding update_both
    Keeps-update_both id f job_id g step s h =
        elim (Bool-cases
          (is_some (Q.find_unique id s.queue) && is_some (J.find_unique job_id s.jobs))) [
            | inl y ↦ rw y (Every-update_at Q P id (λ _. true) f s.queue (λ r _ _. step r) h)
            | inr n ↦ rw n h
          ]

    Keeps-update_job :
        (job_id : String) (g : JobScoring → JobScoring)
        → Keeps (λ s. Every Q P s.queue) (update_job Q J job_id g)
    unfolding update_job
    Keeps-update_job job_id g s h = elim (Bool-cases (is_some (J.find_unique job_id s.jobs))) [
      | inl y ↦ rw y h
      | inr n ↦ rw n h
    ]

  module _ (env : Services) where
    Keeps-recover : (now : ℕ) → Keeps AllSound (recover_abandoned Q J env now)
    unfolding recover_abandoned
    Keeps-recover now s h =
        Keeps-each AllSound (recover_one Q J env now) _
          (λ p. Keeps-update_both (λ k r. IsSound r) p.0 _ _ _ (λ r. interrupted-IsSound now r)) s h

    module _ (id : String) (n : ℕ) where
      Keeps-finish :
          (now : ℕ) (job_id match_id : String)
          → Keeps (OnAttempt id n) (finish Q J env now id job_id match_id)
      unfolding finish
      Keeps-finish now job_id match_id s h = elim (Bool-cases (match_is_taken Q J id match_id s)) [
        | inl y ↦ rw y h
        | inr free ↦ rw free (
            Keeps-update_both (λ k r. IsSound r × (str_eq k id ≡ true → r.attempt_count ≡ n)) id _
              job_id _ (λ r p. (finished-IsSound now match_id r p.0, p.1)) s h)
      ]

      Keeps-failure :
          (now : ℕ) (job_id : String) (e : Failure)
          → Keeps (OnAttempt id n) (record_failure Q J env now id job_id n e)
      unfolding record_failure
      Keeps-failure now job_id e =
          Keeps-update_both (λ k r. IsSound r × (str_eq k id ≡ true → r.attempt_count ≡ n)) id _
            job_id _
            (λ r p.
              let same = p.1 (str_eq_refl id) in
              (
                failed-IsSound now _ (is_retryable e n) _ r (λ y. rw same (is_retryable-lt e n y))
                    p.0,
                λ y. failed-attempt_count now _ (is_retryable e n) _ r ∙ same,
              ))

      Keeps-accept :
          (now : ℕ) (r : QueueItem) (m : Result PersistedMatch)
          → Keeps (OnAttempt id n) (accept Q J env now id r m)
      unfolding accept
      Keeps-accept now r (err e) s h = h
      Keeps-accept now r (ok m) s h =
          elim (Bool-cases
            (is_complete_automatic_match env.valid_json_array m (origin_of Q J env r))) [
              | inl y ↦ rw y (Keeps-finish now r.job_id m.id s h)
              | inr bad ↦ rw bad h
            ]

      Keeps-score_item :
          (now : ℕ) (r : QueueItem) (user : String) (done : Option String)
          → Keeps (OnAttempt id n) (score_item Q J env now id r user done)
      unfolding score_item
      Keeps-score_item now r user none s h = Keeps-accept now r _ s h
      Keeps-score_item now r user (some m) s h =
          elim (Bool-cases (str_eq r.match_type initial_match_type)) [
            | inl y ↦ rw y (Keeps-finish now r.job_id m s h)
            | inr again ↦ rw again (Keeps-accept now r _ s h)
          ]

    Keeps-run_claimed :
        (now : ℕ) (id : String) (r : QueueItem) (user : String)
        → Keeps (OnAttempt id (r.attempt_count + 1)) (run_claimed Q J env now id r user)
    unfolding run_claimed
    Keeps-run_claimed now id r user =
        let n = r.attempt_count + 1 in
        Keeps-bind (OnAttempt id n) (update_job Q J r.job_id (started Q J env now))
          (λ _. score_or_record Q J env now id r user >> return true)
          (Keeps-update_job (λ k q. IsSound q × (str_eq k id ≡ true → q.attempt_count ≡ n)) r.job_id
            (started Q J env now))
          (λ _.
            Keeps-bind (OnAttempt id n) (score_or_record Q J env now id r user) (λ _. return true)
              (Keeps-catch (OnAttempt id n)
                (score_item Q J env now id r user (env.existing_match user r.job_id))
                (record_failure Q J env now id r.job_id n)
                (Keeps-score_item id n now r user (env.existing_match user r.job_id))
                (Keeps-failure id n now r.job_id))
              (λ _ s h. h))

    -- The claim of an item that was just read as due makes its next attempt.
    claim-OnAttempt :
        (now : ℕ) (id : String) (seen : QueueItem) (s : Store Q J)
        → is_due now seen ≡ true
        → Q.find_unique id s.queue ≡ some seen
        → AllSound s
        → OnAttempt id (seen.attempt_count + 1) (claim Q J env now id seen s).1
    unfolding claim
    claim-OnAttempt now id seen s due f h k r e = (sound k r e, attempts)
      where
        fits : QueueItem → Bool
        fits q = state_eq q.state seen.state && leb q.next_attempt_at now

        sound : Every Q (λ k r. IsSound r) (Q.update_at id fits (claimed now) s.queue)
        sound =
            Every-update_at Q (λ k r. IsSound r) id fits (claimed now) s.queue
              (λ q g w i.
                claimed-IsSound now q
                  (claimable_of_eq q.state seen.state (ground arith) (ground arith)) i)
              h

        attempts : str_eq k id ≡ true → r.attempt_count ≡ seen.attempt_count + 1
        attempts same =
            let own : Q.find_unique id (Q.update_at id fits (claimed now) s.queue)
                ≡ some (claimed now seen) =
              update_at_self Q id fits (claimed now) s.queue
              ∙ (rw f (ground (arith, state_eq_refl seen.state))) in
            let at_id =
              subst (λ j. Q.find_unique j (Q.update_at id fits (claimed now) s.queue) ≡ some r)
                ((eq_iff k id).0 same) e in
            ap (λ (q : QueueItem). q.attempt_count) (some-injective _ _ (sym at_id ∙ own))

    claim_and_run-AllSound :
        (now : ℕ) (id : String) (r : QueueItem) (user : String) (s : Store Q J)
        → is_due now r ≡ true
        → Q.find_unique id s.queue ≡ some r
        → AllSound s
        → AllSound (claim_and_run Q J env now id r user s).1
    unfolding claim_and_run claim
    claim_and_run-AllSound now id r user s due f h =
        let after = claim-OnAttempt now id r s due f h in
        elim (Bool-cases (
          Q.count_at id (λ q. state_eq q.state r.state && leb q.next_attempt_at now) s.queue
          == 0)) [
            | inl lost ↦ rw lost (λ k q e. (after k q e).0)
            | inr won ↦ rw won (λ k q e.
                (Keeps-run_claimed now id r user (claim Q J env now id r s).1 after k q e).0)
          ]

    retire-AllSound : (now : ℕ) (id reason : String) → Keeps AllSound (retire Q J env now id reason)
    retire-AllSound now id reason =
        Keeps-bind AllSound (update_item Q J id (retired now reason)) (λ _. return true)
          (Keeps-update_item (λ k r. IsSound r) id _ (λ r. retired-IsSound now reason r))
          (λ _ s h. h)

    process_owned-AllSound :
        (now : ℕ) (id : String) (r : QueueItem) (owner : Option String) (s : Store Q J)
        → is_due now r ≡ true
        → Q.find_unique id s.queue ≡ some r
        → AllSound s
        → AllSound (process_owned Q J env now id r owner s).1
    unfolding process_owned
    process_owned-AllSound now id r none s due f h = retire-AllSound now id _ s h
    process_owned-AllSound now id r (some user) s due f h =
        elim (Bool-cases (str_eq r.match_type initial_match_type)) [
          | inl y ↦ rw y (claim_and_run-AllSound now id r user s due f h)
          | inr other ↦
              rw other
                (elim (Bool-cases
                  (hash_is_current (env.refresh_hash r.match_type) (env.profile_revision user))) [
                    | inl y ↦ rw y (claim_and_run-AllSound now id r user s due f h)
                    | inr stale ↦ rw stale (retire-AllSound now id _ s h)
                  ])
        ]

    process_due-AllSound : (now : ℕ) → Keeps AllSound (process_due Q J env now)
    unfolding process_due find_due process_found
    process_due-AllSound now s h =
        elim (Option-cases (Q.find_first (λ k r. is_due now r) is_earlier s.queue)) [
          | inl idle ↦ rw (idle, process_due, find_due) h
          | inr (p, e) ↦
              let (f, due) = Q.find_first_sound _ is_earlier s.queue p.0 p.1 e in
              rw (e, process_due, find_due) (process_owned-AllSound now p.0 p.1 _ s due f h)
        ]

    -- One round of a worker keeps every row of the queue sound, whatever the scorer, the other tables
    -- and the clock give, and whether the round returns or throws. So rounds alone leave no
    -- item with more than three attempts, none running without a lock and none ended without its time;
    -- a retry that a user asks for starts the count again.
    pub process_next-AllSound : (now : ℕ) → Keeps AllSound (process_next Q J env now)
    unfolding process_next
    process_next-AllSound now =
        Keeps-bind AllSound (recover_abandoned Q J env now) (λ _. process_due Q J env now)
          (Keeps-recover now) (λ _. process_due-AllSound now)
