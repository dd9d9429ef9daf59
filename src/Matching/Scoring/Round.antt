-- ===== src/Matching/Scoring/Round.antt =====
-- One round of the scoring worker: it ends the job that it finds, or there is none.
use internship_pilot.Prelude.{
  ℕ, ◌≡◌, ◌⊎◌, refl, sym, ap, ◌∙◌, arith, Bool, true, false, Option, none, some, String, str_eq,
  is_some, if◌then◌else◌, ◌==◌, Bool-cases, inl, inr,
}
use internship_pilot.Database.{Table, hits, patched}
use internship_pilot.Program.{
  Result, ok, err, Failure, ◌>>◌, return, bind-ok, bind-err, catch-ok, catch-err,
}
use internship_pilot.Matching.Scoring.{
  ScoringState, scored, failed, is_queued, is_waiting, is_ended, JobRow, is_abandoned, recovered,
  claimed, finished, goes_first, Store, Scorer, update_job, recover_abandoned_scoring_jobs,
  find_next, no_longer_scoring, score_claimed, after_claim, score_found, score_next_queued_job,
}

abbrev pub waiting_row : Option JobRow → Bool
waiting_row none = false
waiting_row (some r) = is_waiting r.scoring_state

abbrev pub queued_row : Option JobRow → Bool
queued_row none = false
queued_row (some r) = is_queued r.scoring_state

abbrev pub state_of : Option JobRow → Option ScoringState
state_of none = none
state_of (some r) = some r.scoring_state

recovered_waits :
    (now : ℕ) (o : Option JobRow)
    → waiting_row (patched (is_abandoned now) recovered o) ≡ waiting_row o
recovered_waits now none = refl
recovered_waits now (some r) = ground arith

claimed_waits :
    (now : ℕ) (o : Option JobRow)
    → waiting_row (patched (λ q. is_queued q.scoring_state) (claimed now) o) ≡ waiting_row o
claimed_waits now none = refl
claimed_waits now (some r) = ground arith

finished_waits :
    (now : ℕ) (st : ScoringState) (er : Option String) (o : Option JobRow)
    → is_ended st ≡ true
    → waiting_row (patched (λ _. true) (finished now st er) o) ≡ false
finished_waits now st er none h = refl
finished_waits now st er (some r) h = ground arith

same_waits : (a b : Option JobRow) → state_of a ≡ state_of b → waiting_row a ≡ waiting_row b
same_waits none none e = refl
same_waits none (some b) e = cc
same_waits (some a) none e = cc
same_waits (some a) (some b) e = ground arith

pub waits_of_queued : (o : Option JobRow) → queued_row o ≡ true → waiting_row o ≡ true
waits_of_queued none h = h
waits_of_queued (some r) h = ground arith

exists_of_waiting : (o : Option JobRow) → waiting_row o ≡ true → is_some o ≡ true
exists_of_waiting none h = cc
exists_of_waiting (some r) h = refl

module _ (J : Table JobRow) (scorer : Scorer J) where
  -- A score leaves the scoring state of every job, and the jobs themselves, as they are.
  abbrev pub KeepsStates : Type 0
  KeepsStates =
      (id user : String) (s : Store J) (k : String)
      → state_of (J.find_unique k (scorer.run id user s).1.jobs) ≡ state_of (J.find_unique k s.jobs)

  abbrev pub waits_at : String → Store J → Bool
  waits_at k s = waiting_row (J.find_unique k s.jobs)

  -- The job was waiting; now it has ended, and every other job waits exactly if it did.
  abbrev pub IsEnded : String → Store J → Store J → Type 0
  IsEnded id s u =
      (waits_at id s ≡ true)
      × ((j : String) → waits_at j u ≡ (if str_eq j id then false else waits_at j s))

  recover-waits_at :
      (now : ℕ) (s : Store J) (k : String)
      → waits_at k (recover_abandoned_scoring_jobs J now s) ≡ waits_at k s
  unfolding recover_abandoned_scoring_jobs
  recover-waits_at now s k =
      ap waiting_row (J.update_many-find_unique (λ _ r. is_abandoned now r) recovered s.jobs k)
      ∙ recovered_waits now (J.find_unique k s.jobs)

  update_at-waits_at :
      (id : String) (w : JobRow → Bool) (f : JobRow → JobRow) (s : Store J) (k : String)
      → waiting_row (J.find_unique k (J.update_at id w f s.jobs))
        ≡ (if str_eq k id then waiting_row (patched w f (J.find_unique k s.jobs)) else waits_at k s)
  update_at-waits_at id w f s k =
      ap waiting_row (J.update_at-find_unique id w f s.jobs k)
      ∙ (elim (Bool-cases (str_eq k id)) [ inl y ↦ rw y refl | inr n ↦ rw n refl ])

  claim-waits_at :
      (now : ℕ) (id : String) (s : Store J) (k : String)
      → waiting_row
          (J.find_unique k (J.update_at id (λ q. is_queued q.scoring_state) (claimed now) s.jobs))
        ≡ waits_at k s
  claim-waits_at now id s k =
      update_at-waits_at id (λ q. is_queued q.scoring_state) (claimed now) s k
      ∙ (elim (Bool-cases (str_eq k id)) [
        | inl y ↦ rw y (claimed_waits now (J.find_unique k s.jobs))
        | inr n ↦ rw n refl
      ])

  finish :
      (now : ℕ) (id : String) (st : ScoringState) (er : Option String) (s : Store J)
      → is_ended st ≡ true
      → waits_at id s ≡ true
      → (u : Store J) × (update_job J id (finished now st er) s ≡ (ok tt, u)) × IsEnded id s u
  unfolding update_job
  finish now id st er s h w = (
    record s { jobs = J.update_at id (λ _. true) (finished now st er) s.jobs },
    rw (exists_of_waiting (J.find_unique id s.jobs) w) refl,
    (
      w,
      λ j.
          update_at-waits_at id (λ _. true) (finished now st er) s j
          ∙ (elim (Bool-cases (str_eq j id)) [
            | inl y ↦ rw y (finished_waits now st er (J.find_unique j s.jobs) h)
            | inr n ↦ rw n refl
          ]),
    ),
  )

  ended_from :
      (id : String) (s t u : Store J)
      → ((k : String) → waits_at k t ≡ waits_at k s)
      → IsEnded id t u
      → IsEnded id s u
  ended_from id s t u same (w, rest) =
      (sym (same id) ∙ w, λ j. rest j ∙ ap (λ b. if str_eq j id then false else b) (same j))

  module _ (keeps : KeepsStates) where
    scorer-waits_at :
        (id user : String) (s : Store J) (k : String)
        → waits_at k (scorer.run id user s).1 ≡ waits_at k s
    scorer-waits_at id user s k = same_waits _ _ (keeps id user s k)

    after_run :
        (now : ℕ) (user id : String) (s t : Store J) (r : Result (Unit {0}))
        → waits_at id t ≡ true
        → scorer.run id user s ≡ (r, t)
        → (u : Store J) × (score_claimed J scorer now user id s ≡ (ok tt, u)) × IsEnded id t u
    after_run now user id s t (ok x) w p =
        let m = scorer.run id user in
        let next = update_job J id (finished now scored none) in
        let handle =
          λ (e : Failure). update_job J id (finished now failed (some (scorer.message e))) in
        let (u, done, ended) = finish now id scored none t refl w in
        (
          record u { currently_scoring = none },
          ap (no_longer_scoring J)
              (catch-ok (m >> next) handle s tt u (bind-ok m (λ _. next) s tt t p ∙ done)),
          ended,
        )
    after_run now user id s t (err e) w p =
        let m = scorer.run id user in
        let next = update_job J id (finished now scored none) in
        let handle =
          λ (e : Failure). update_job J id (finished now failed (some (scorer.message e))) in
        let (u, done, ended) = finish now id failed (some (scorer.message e)) t refl w in
        (
          record u { currently_scoring = none },
          ap (no_longer_scoring J)
              (catch-err (m >> next) handle s e t (bind-err m (λ _. next) s e t p) ∙ done),
          ended,
        )

    claimed_ends :
        (now : ℕ) (user id : String) (s : Store J)
        → waits_at id s ≡ true
        → (u : Store J) × (score_claimed J scorer now user id s ≡ (ok tt, u)) × IsEnded id s u
    claimed_ends now user id s w =
        let r = scorer.run id user s in
        let same = scorer-waits_at id user s in
        let (u, done, ended) = after_run now user id s r.1 r.0 (same id ∙ w) refl in
        (u, done, ended_from id s r.1 u same ended)

    one_claimed :
        (id : String) (r : JobRow) (s : Store J)
        → J.find_unique id s.jobs ≡ some r
        → is_queued r.scoring_state ≡ true
        → (J.count_at id (λ q. is_queued q.scoring_state) s.jobs == 0) ≡ false
    one_claimed id r s f q =
        ap (λ n. n == 0)
          (J.count_at_hits id (λ q. is_queued q.scoring_state) s.jobs
            ∙ ap (hits (λ q. is_queued q.scoring_state)) f)
        ∙ rw q refl

    found_ends :
        (now : ℕ) (user id : String) (r : JobRow) (s : Store J)
        → J.find_unique id s.jobs ≡ some r
        → is_queued r.scoring_state ≡ true
        → (u : Store J) × (score_found J scorer now user (some (id, r)) s ≡ (ok true, u))
          × IsEnded id s u
    found_ends now user id r s f q =
        let t = record s {
          jobs = J.update_at id (λ q. is_queued q.scoring_state) (claimed now) s.jobs;
          currently_scoring = some id;
        } in
        let waits = waits_of_queued (J.find_unique id s.jobs) (rw f q) in
        let (u, done, ended) = claimed_ends now user id t (claim-waits_at now id s id ∙ waits) in
        (
          u,
          ap
                (λ b.
                  after_claim J b scorer now user id
                    (record t { currently_scoring = s.currently_scoring }))
                (one_claimed id r s f q)
              ∙ bind-ok (score_claimed J scorer now user id) (λ _. return true) t tt u done,
          ended_from id s t u (claim-waits_at now id s) ended,
        )

    -- What one round of the worker does: it finds no queued job, or it ends one that was waiting.
    abbrev pub Progress : Store J → Result Bool × Store J → Type 0
    Progress s x =
        ((x.0 ≡ ok false)
          × ((k : String) → queued_row (J.find_unique k x.1.jobs) ≡ false)
          × ((k : String) → waits_at k x.1 ≡ waits_at k s))
        ⊎ ((x.0 ≡ ok true) × (id : String) × IsEnded id s x.1)

    none_queued :
        (s : Store J) (k : String)
        → find_next J s ≡ none
        → queued_row (J.find_unique k s.jobs) ≡ false
    none_queued s k e = go (J.find_unique k s.jobs) refl
      where
        go : (o : Option JobRow) → J.find_unique k s.jobs ≡ o → queued_row o ≡ false
        go none f = refl
        go (some r) f =
            J.find_first_none (λ _ r. is_queued r.scoring_state) goes_first s.jobs k r e f

    found-Progress :
        (now : ℕ) (user : String) (s t : Store J) (o : Option (String × JobRow))
        → find_next J t ≡ o
        → ((k : String) → waits_at k t ≡ waits_at k s)
        → Progress s (score_found J scorer now user o t)
    found-Progress now user s t none e same = inl (refl, λ k. none_queued t k e, same)
    found-Progress now user s t (some (id, r)) e same =
        let (f, q) =
          J.find_first_sound (λ _ r. is_queued r.scoring_state) goes_first t.jobs id r e in
        let (u, done, ended) = found_ends now user id r t f q in
        rw done (inr (refl, id, ended_from id s t u same ended))

    -- For a scorer that leaves every job in place and in its scoring state (`KeepsStates`), whether it
    -- returns or throws, a round of the worker does not fail. It answers `false` only where no job is
    -- left in the queue; otherwise it answers `true`, and one job that was waiting waits no longer,
    -- while every other job waits exactly if it did before.
    pub score_next_queued_job-Progress :
        (now : ℕ) (user : String) (s : Store J)
        → Progress s (score_next_queued_job J scorer now user s)
    unfolding score_next_queued_job
    score_next_queued_job-Progress now user s =
        let t = recover_abandoned_scoring_jobs J now (record s { last_heartbeat = some now }) in
        found-Progress now user s t (find_next J t) refl
          (recover-waits_at now (record s { last_heartbeat = some now }))
