-- ===== src/Applications/Worker/Process/Rules.antt =====
-- Rules for what the steps of the worker keep of a run's row, and what they lead to.
use internship_pilot.Prelude.{
  ℕ, ◌≡◌, refl, ap, ◌∙◌, arith, Bool, true, false, not, Option, none, some, String, is_some,
  Bool-cases, inl, inr,
}
use internship_pilot.Database.{Table, patched}
use internship_pilot.Database.Laws.{update_at_self}
use internship_pilot.Program.{Program, Result, ok, err, ◌>>=◌, ◌>>◌, Keeps}
use internship_pilot.Applications.Queue.{
  RunStatus, needs_user_action, filled, failed, is_submitted, is_paused as is_waiting, Run, guard,
  write_audit, record_run_stage,
}
use internship_pilot.Applications.Worker.Errors.{Patterns, Classified}
use internship_pilot.Applications.Worker.Process.{
  FillResult, run_status, filled_run, quarantined_run, failed_run, World, on_queue, find_run,
  write_run, update_run, update_run_key, is_key_free, stage,
}

abbrev pub is_end : RunStatus → Bool
is_end needs_user_action = true
is_end filled = true
is_end failed = true
is_end _ = false

-- A row as the worker leaves it: filled or failed, without a key and with the time of its end, or
-- paused and not finished.
pub record IsRow (st : RunStatus) (r : Run) : Type 0 where
  pub stored_status : r.status ≡ st
  pub ended : is_end st ≡ true
  pub unlocked : is_waiting st ≡ false → r.active_key ≡ none
  pub timed : is_waiting st ≡ false → is_some r.finished_at ≡ true
  pub open_still : is_waiting st ≡ true → r.finished_at ≡ none

pub filled_run-IsRow :
    (p : Patterns) (now : ℕ) (context job_id : String) (r : FillResult) (run : Run)
    → not (is_submitted (run_status r.status)) ≡ true
    → IsRow (run_status r.status) (filled_run p now context job_id r run)
filled_run-IsRow p now context job_id r run h = ground arith

pub quarantined_run-IsRow :
    (context : String) (run : Run) → IsRow needs_user_action (quarantined_run context run)
quarantined_run-IsRow context run = ground arith

pub failed_run-IsRow :
    (now : ℕ) (technical : String) (c : Classified) (run : Run)
    → IsRow failed (failed_run now technical c run)
failed_run-IsRow now technical c run = ground arith

still_some :
    (f : Run → Run) (o : Option Run) → is_some o ≡ true → is_some (patched (λ _. true) f o) ≡ true
still_some f none h = h
still_some f (some r) h = refl

module _ (T : Table Run) (id : String) where
  -- The row of the run exists.
  abbrev pub Lives : World T → Type 0
  Lives w = is_some (find_run T id w) ≡ true

  abbrev pub IsEnded : RunStatus → World T → Type 0
  IsEnded st w = (r : Run) × (find_run T id w ≡ some r) × IsRow st r

  abbrev pub Outcome : {A : Type 0} → (A → World T → Type 0) → Result A × World T → Type 0
  Outcome P (ok a, u) = P a u
  Outcome P (err e, u) = Lives u

  -- What an action leads to where it returns; the row is still there where it throws.
  abbrev pub Leads : {A : Type 0} → (A → World T → Type 0) → Program (World T) A → Type 0
  Leads P m = (w : World T) → Lives w → Outcome P (m w)

  module _ {A B : Type 0} (P : B → World T → Type 0) where
    pub Leads-bind :
        (m : Program (World T) A) (f : A → Program (World T) B)
        → Keeps Lives m
        → ((a : A) → Leads P (f a))
        → Leads P (m >>= f)
    Leads-bind m f h k w l = go (m w) (h w l)
      where
        go : (r : Result A × World T) → Lives r.1 → Outcome P (◌>>=◌ (λ _. r) f w)
        go (ok a, t) q = k a t q
        go (err e, t) q = q

    pub Leads-then :
        (Q : World T → Type 0) (m : Program (World T) A) (f : A → Program (World T) B)
        → Leads (λ _. Q) m
        → ((a : A) (t : World T) → Q t → Outcome P (f a t))
        → Leads P (m >>= f)
    Leads-then Q m f h k w l = go (m w) (h w l)
      where
        go : (r : Result A × World T) → Outcome (λ _. Q) r → Outcome P (◌>>=◌ (λ _. r) f w)
        go (ok a, t) q = k a t q
        go (err e, t) q = q

  pub Leads-guard :
      {B : Type 0} (P : B → World T → Type 0) (b : Bool) (message : String)
      (m : Program (World T) B)
      → (b ≡ true → Leads P m)
      → Leads P (guard b message >> m)
  Leads-guard P true message m h w l = h refl w l
  Leads-guard P false message m h w l = l

  pub guard-Keeps : (b : Bool) (message : String) → Keeps Lives (guard b message)
  guard-Keeps true message w l = l
  guard-Keeps false message w l = l

  pub stage-Keeps : (name : String) → Keeps Lives (stage T id name)
  unfolding record_run_stage
  stage-Keeps name w l =
      ap is_some (update_at_self T id (λ _. true) _ w.queue.runs)
      ∙ still_some (λ r. record r { current_step = some name }) (find_run T id w) l

  pub update_run-Keeps : (f : Run → Run) → Keeps Lives (update_run T id f)
  unfolding update_run
  update_run-Keeps f w l = rw l (
      ap is_some (update_at_self T id (λ _. true) f w.queue.runs)
      ∙ still_some f (find_run T id w) l)

  pub audit-Keeps : (action : String) → Keeps Lives (on_queue T (write_audit T action id))
  unfolding write_audit
  audit-Keeps action w l = l

  ended_by :
      (st : RunStatus) (f : Run → Run) (w : World T)
      → ((r : Run) → IsRow st (f r))
      → Lives w
      → IsEnded st (write_run T id f w)
  ended_by st f w h l = go (find_run T id w) refl l
    where
      go :
          (o : Option Run)
          → find_run T id w ≡ o
          → is_some o ≡ true
          → IsEnded st (write_run T id f w)
      go none e l = cc
      go (some r) e l =
          (f r, update_at_self T id (λ _. true) f w.queue.runs ∙ ap (patched (λ _. true) f) e, h r)

  pub update_run-Leads :
      (st : RunStatus) (f : Run → Run)
      → ((r : Run) → IsRow st (f r))
      → Leads (λ _. IsEnded st) (update_run T id f)
  unfolding update_run
  update_run-Leads st f h w l = rw l (ended_by st f w h l)

  pub update_run_key-Leads :
      (st : RunStatus) (key : Option String) (f : Run → Run)
      → ((r : Run) → IsRow st (f r))
      → Leads (λ _. IsEnded st) (update_run_key T id key f)
  unfolding update_run_key
  update_run_key-Leads st key f h w l = elim (Bool-cases (is_key_free T id key w)) [
    | inl y ↦ rw y (update_run-Leads st f h w l)
    | inr n ↦ rw n l
  ]
