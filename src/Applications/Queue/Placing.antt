-- ===== src/Applications/Queue/Placing.antt =====
-- What placing a run does to the table, once every check has passed.
use internship_pilot.Prelude.{
  ℕ, ◌≡◌, ◌≢◌, refl, sym, ap, ◌∙◌, arith, Bool, true, false, Option, none, some, String, differs,
}
use internship_pilot.Database.{Table}
use internship_pilot.Database.Laws.{create_self}
use internship_pilot.Program.{Program, ok, err, Failure, database, ◌>>◌}
use internship_pilot.Jobs.Availability.{is_active_availability}
use internship_pilot.Documents.Strategy.{Document}
use internship_pilot.Applications.Queue.{
  Run, application_active_key, same_active_key, Answer, guard, Store, mark_applying, write_audit,
  find_winner,
}
use internship_pilot.Applications.Queue.Request.{
  Urls, JobView, check_availability, refuse_if, new_run,
}
use internship_pilot.Applications.Queue.Enqueue.{
  supersede_others, repair, create_run, answer_of_winner, repair_unless, after_create, place_by,
}

pub guard_ok :
    {S A : Type 0} (b : Bool) (message : String) (m : Program S A) (s : S) (a : A) (u : S)
    → (guard b message >> m) s ≡ (ok a, u)
    → (b ≡ true) × (m s ≡ (ok a, u))
guard_ok true message m s a u e = (refl, e)
guard_ok false message m s a u e = absurd (is_err (ap (λ r. r.0) e))
  where
    is_err : {A : Type 0} {x : Failure} {a : A} → err x ≡ ok a → ⊥
    is_err e = cc

pub refuse_if_ok :
    {S A : Type 0} (o : Option String) (m : Program S A) (s : S) (a : A) (u : S)
    → (refuse_if o >> m) s ≡ (ok a, u)
    → (o ≡ none) × (m s ≡ (ok a, u))
refuse_if_ok none m s a u e = (refl, e)
refuse_if_ok (some message) m s a u e = absurd (is_err (ap (λ r. r.0) e))
  where
    is_err : {A : Type 0} {x : Failure} {a : A} → err x ≡ ok a → ⊥
    is_err e = cc

pub check_availability-none :
    (status : Option String)
    → check_availability status ≡ none
    → is_active_availability status ≡ true
check_availability-none status e = ground arith

module _ (T : Table Run) (env : Urls) where
  -- The row that was made, and that every other row was there before.
  abbrev pub IsMade : String → Run → Answer → Store T → Store T → Type 0
  IsMade fresh_id made a s u =
      (a.run_id ≡ fresh_id)
      × (T.find_unique fresh_id u.runs ≡ some made)
      × ((k : String) (r : Run)
          → k ≢ fresh_id
          → T.find_unique k u.runs ≡ some r
          → T.find_unique k s.runs ≡ some r)

  not_winner :
      (o : Option (String × Run)) (x : Failure) (s : Store T) (a : Answer) (u : Store T)
      → answer_of_winner T env o x s ≡ (ok a, u)
      → a.was_queued ≡ false
  not_winner none x s a u e = let e' = ap (λ r. r.0) e in cc
  not_winner (some (id, r)) x s a u e = let e' = ap (λ r. r.0) e in cc

  not_repaired :
      (b : Bool) (user job_id id : String) (r : Run) (s : Store T) (a : Answer) (u : Store T)
      → repair_unless T env b user job_id id r s ≡ (ok a, u)
      → a.was_queued ≡ false
  unfolding mark_applying
  not_repaired true user job_id id r s a u e =
      not_winner (find_winner T (application_active_key user job_id) user s) (database "P2002") s a
        u e
  not_repaired false user job_id id r s a u e = let e' = ap (λ r. r.0) e in cc

  after_create-IsMade :
      (o : Option T.Tab) (fresh_id : String) (user job_id : String) (made : Run) (s : Store T)
      (a : Answer) (u : Store T)
      → T.create same_active_key fresh_id made s.runs ≡ o
      → after_create T env o fresh_id user job_id s ≡ (ok a, u)
      → a.was_queued ≡ true
      → IsMade fresh_id made a s u
  unfolding mark_applying write_audit
  after_create-IsMade none fresh_id user job_id made s a u c e q =
      let lost =
        not_winner (find_winner T (application_active_key user job_id) user s) (database "P2002") s
          a u e in
      cc
  after_create-IsMade (some runs) fresh_id user job_id made s a u c e q =
      let e' = ap (λ r. r.0) e in
      let rows : u.runs ≡ runs = sym (ap (λ r. r.1.runs) e) in
      (
        cc,
        rw rows (create_self T same_active_key fresh_id made s.runs runs c),
        λ k r n f.
            sym (
              T.create-find_unique same_active_key fresh_id made s.runs runs k c
              ∙ rw (differs k fresh_id n))
            ∙ (ap (T.find_unique k) (sym rows) ∙ f),
      )

  pub place_by-IsMade :
      (o : Option (String × Run)) (fresh_id : String) (now : ℕ) (user job_id : String) (j : JobView)
      (d : Document) (s : Store T) (a : Answer) (u : Store T)
      → place_by T env o fresh_id now user job_id j d s ≡ (ok a, u)
      → a.was_queued ≡ true
      → (o ≡ none) × IsMade fresh_id (new_run user job_id now j d) a s u
  unfolding create_run supersede_others repair
  place_by-IsMade none fresh_id now user job_id j d s a u e q = (
    refl,
    after_create-IsMade _ fresh_id user job_id (new_run user job_id now j d) s a u refl e q,
  )
  place_by-IsMade (some (id, r)) fresh_id now user job_id j d s a u e q =
      let lost = not_repaired _ user job_id id r _ a u e in cc
