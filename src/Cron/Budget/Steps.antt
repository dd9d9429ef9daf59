-- ===== src/Cron/Budget/Steps.antt =====
-- What a step of a lane (`runLaneStep` in src/lib/cron/lane.ts) does to the state and to the lane.
use internship_pilot.Prelude.{
  ℕ, ◌≤◌, ◌≡◌, ◌⊎◌, ◌↔◌, refl, arith, ◌&&◌, Bool, true, false, not, Option, none, some, List, ◌∷◌,
  String, Bool-cases, inl, inr,
}
use internship_pilot.Program.{Program, Result, ok, err, Failure}
use internship_pilot.Cron.Budget.{
  LaneBudget, remaining_ms, can_afford, LaneStepResult, start_step, step_if, run_lane_step,
  lane_outcome, has_error, is_empty,
}

-- What a step that ran reports.
abbrev pub IsReport : {A : Type 0} → (Failure → String) → Result A → LaneStepResult A → Type 0
IsReport short (ok v) r = (r.value ≡ some v) × (r.error ≡ none)
IsReport short (err e) r = (r.value ≡ none) × (r.error ≡ some (short e))

-- It threw, with a message.
abbrev pub HasFailed : {A : Type 0} → (Failure → String) → Result A → Type 0
HasFailed short (ok v) = ⊥
HasFailed short (err e) = is_empty (short e) ≡ false

-- Whether a lane calls itself ok, with this step before the others.
abbrev pub lane_ok : {A : Type 0} → String → LaneStepResult A → List (String × Option String) → Bool
lane_ok name r others = (lane_outcome ((name, r.error) ∷ others)).0

lane_outcome_cons :
    (step : String × Option String) (others : List (String × Option String))
    → (lane_outcome (step ∷ others)).0 ≡ (not (has_error step) && (lane_outcome others).0)
unfolding lane_outcome
lane_outcome_cons step others = elim (Bool-cases (has_error step)) [
  | inl y ↦ rw y (ground arith)
  | inr n ↦ rw n refl
]

-- The state in which a step that is run starts, after two readings of the clock.
abbrev pub at_start : {S : Type 0} → (S → ℕ × S) → S → S
at_start date_now s = (date_now (date_now s).1).1

module _ {S A : Type 0} (date_now : S → ℕ × S) (short : Failure → String) where
  -- What becomes of the state, the report and the lane.
  pub record IsContained (b : LaneBudget) (need : ℕ) (step : Program S A) (s : S) (name : String)
      (others : List (String × Option String)) (r : LaneStepResult A) (u : S) : Type 0 where
    pub within_budget : (r.ran ≡ true) ↔ (need ≤ remaining_ms b (date_now s).0)
    pub not_run : r.ran ≡ false → (u ≡ (date_now s).1) × (r.value ≡ none) × (r.error ≡ none)
    pub ran_once : r.ran ≡ true → u ≡ (date_now (step (at_start date_now s)).1).1
    pub report : r.ran ≡ true → IsReport short (step (at_start date_now s)).0 r
    pub lane : (lane_ok name r others ≡ false) ↔ (
        ((r.ran ≡ true) × HasFailed short (step (at_start date_now s)).0)
        ⊎ ((lane_outcome others).0 ≡ false))

  module _ (b : LaneBudget) (need : ℕ) (step : Program S A) (s : S) (name : String)
      (others : List (String × Option String)) where
    skips :
        can_afford b need (date_now s).0 ≡ false
        → IsContained b need step s name others
            (step_if date_now short false step (date_now s).1).0
            (step_if date_now short false step (date_now s).1).1
    unfolding can_afford
    skips n = record {
      within_budget = (λ e. cc, λ l. ground arith);
      not_run = λ e. (refl, refl, refl);
      ran_once = λ e. cc;
      report = λ e. cc;
      lane =
          rw (lane_outcome_cons (name, none) others)
            (λ e. inr e, λ h. elim h [ inl (e, f) ↦ cc | inr e ↦ e ]);
    }

    reports :
        (o : Result A × S)
        → step (at_start date_now s) ≡ o
        → can_afford b need (date_now s).0 ≡ true
        → IsContained b need step s name others
            (start_step date_now short step (date_now (date_now s).1)).0
            (start_step date_now short step (date_now (date_now s).1)).1
    unfolding can_afford
    reports (ok v, u) run y = rw run (record {
      within_budget = (λ e. ground arith, λ l. refl);
      not_run = λ e. cc;
      ran_once = λ e. rw run refl;
      report = λ e. rw run (refl, refl);
      lane =
          rw (lane_outcome_cons (name, none) others)
            (λ e. inr e, λ h. elim h [ inl (e, f) ↦ absurd (rw run at f) | inr e ↦ e ]);
    })
    reports (err x, u) run y = rw run (record {
      within_budget = (λ e. ground arith, λ l. refl);
      not_run = λ e. cc;
      ran_once = λ e. rw run refl;
      report = λ e. rw run (refl, refl);
      lane = rw (lane_outcome_cons (name, some (short x)) others) (
        λ e. elim (Bool-cases (is_empty (short x))) [
          | inl z ↦ inr (rw z at e)
          | inr n ↦ inl (refl, rw run n)
        ],
        λ h. elim h [
          | inl (e, f) ↦ let f' : is_empty (short x) ≡ false = rw run at f in rw f' refl
          | inr e ↦ ground arith
        ],
      );
    })

    -- A step starts only when the budget still has the time that it asks for; otherwise nothing but
    -- the clock is touched, and there is no value and no error. A step that starts is run once, from
    -- the state that it finds, and its writes stay, also where it throws; then its value is
    -- reported, or the shortened message and no value. The lane calls itself not ok exactly where
    -- this step ran and threw with a message, or another of its steps has an error.
    pub run_lane_step-IsContained :
        IsContained b need step s name others
          (run_lane_step date_now short b need step s).0
          (run_lane_step date_now short b need step s).1
    unfolding run_lane_step
    run_lane_step-IsContained = elim (Bool-cases (can_afford b need (date_now s).0)) [
      | inl y ↦ rw y (reports (step (at_start date_now s)) refl y)
      | inr n ↦ rw n (skips n)
    ]
