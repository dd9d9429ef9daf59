-- ===== src/Cron/Budget.antt =====
-- The time budget of a lane run, its steps, its bounded settings, its outcome and who may start it
-- (src/lib/cron/lane.ts): `LaneBudget`, `runLaneStep`, `boundedEnv`, `laneOutcome`,
-- `isAuthorizedCronRequest`.
pub mod Laws
pub mod Steps
use internship_pilot.Prelude.{
  ℕ, ◌+◌, ◌-◌, ◌≡◌, Bool, true, false, not, Option, none, some, List, [], ◌∷◌, ◌++◌, map, keep, leb,
  min, max, ◌==◌, if◌then◌else◌, String, length, ◌&&◌, is_some, ◌||◌,
}
use internship_pilot.Prelude.Int.{ℤ, pos, sub_ℕ}
use internship_pilot.Program.{Program, Result, ok, err, Failure}
use Prim.Native.Nat.{bit_or, bit_xor}

-- `now - startedAt` may be negative, so the remaining time is `total + started - now`, at least 0.
pub record LaneBudget : Type 0 where
  pub total_ms : ℕ
  pub started_at : ℕ

unfoldable pub remaining_ms : LaneBudget → ℕ → ℕ
remaining_ms b now = b.total_ms + b.started_at - now

unfoldable pub can_afford : LaneBudget → ℕ → ℕ → Bool
can_afford b need now = leb need (remaining_ms b now)

pub record LaneStepResult (A : Type 0) : Type 0 where
  pub ran : Bool
  pub skipped : Bool
  pub value : Option A
  -- negative where the clock was set back
  pub ms : ℤ
  pub error : Option String

abbrev pub skipped_step : {A : Type 0} → LaneStepResult A
skipped_step = record { ran = false; skipped = true; value = none; ms = pos 0; error = none }

abbrev pub step_result : {A : Type 0} → (Failure → String) → ℤ → Result A → LaneStepResult A
step_result short ms (ok v) = record {
  ran = true;
  skipped = false;
  value = some v;
  ms = ms;
  error = none;
}
step_result short ms (err e) = record {
  ran = true;
  skipped = false;
  value = none;
  ms = ms;
  error = some (short e);
}

-- A step works on a state, of which the clock is a part: `Date.now()` reads the time and may move it
-- on. `short` is the first 300 characters of an error's message, or of the error as a text.
module _ {S A : Type 0} (date_now : S → ℕ × S) (short : Failure → String) where
  -- The `try` and the `catch` end alike: the clock is read, and the outcome reported.
  abbrev pub finish_step : ℕ → Result A × S → LaneStepResult A × S
  finish_step started (r, s) = (step_result short (sub_ℕ (date_now s).0 started) r, (date_now s).1)

  abbrev pub start_step : Program S A → ℕ × S → LaneStepResult A × S
  start_step step (started, s) = finish_step started (step s)

  abbrev pub step_if : Bool → Program S A → S → LaneStepResult A × S
  step_if true step s = start_step step (date_now s)
  step_if false step s = (skipped_step, s)

  unfoldable pub run_lane_step : LaneBudget → ℕ → Program S A → S → LaneStepResult A × S
  unfolding can_afford remaining_ms
  run_lane_step b need step s = step_if (can_afford b need (date_now s).0) step (date_now s).1

-- `Number.parseInt(process.env[name] ?? "", 10)`, `none` for `NaN`, is given as `parsed`.
unfoldable pub bounded_env : Option ℕ → ℕ → ℕ → ℕ → ℕ
bounded_env none fallback low high = min high (max low fallback)
bounded_env (some parsed) fallback low high = min high (max low parsed)

abbrev pub is_empty : String → Bool
is_empty String.[] = true
is_empty (String.◌∷◌ c s) = false

-- A step's name with its error; an empty message counts as no error (`Boolean(step.error)`).
abbrev pub has_error : String × Option String → Bool
has_error (name, none) = false
has_error (name, some message) = not (is_empty message)

unfoldable pub lane_outcome : List (String × Option String) → Bool × List String
lane_outcome steps =
    let failed = map (λ (s : String × Option String). s.0) (keep has_error steps) in
    (length failed == 0, failed)

-- `mismatch |= header.charCodeAt(index) ^ expected.charCodeAt(index)` over the whole text.
unfoldable pub mismatch_from : ℕ → List ℕ → List ℕ → ℕ
mismatch_from m (h ∷ hs) (e ∷ es) = mismatch_from (bit_or m (bit_xor h e)) hs es
mismatch_from m _ _ = m

-- The length first, then a full-width compare that does not exit early.
unfoldable pub same_text : List ℕ → List ℕ → Bool
unfolding mismatch_from
same_text header expected =
    if not (length header == length expected) then false else mismatch_from 0 header expected == 0

abbrev pub bearer : List ℕ
bearer = b'B' ∷ b'e' ∷ b'a' ∷ b'r' ∷ b'e' ∷ b'r' ∷ b' ' ∷ []

-- Texts are their UTF-16 code units; an empty secret or header counts as missing.
unfoldable pub is_authorized_cron_request : List ℕ → Option (List ℕ) → Bool
unfolding same_text
is_authorized_cron_request [] header = false
is_authorized_cron_request (c ∷ secret) none = false
is_authorized_cron_request (c ∷ secret) (some []) = false
is_authorized_cron_request (c ∷ secret) (some (h ∷ header)) =
    same_text (h ∷ header) (bearer ++ c ∷ secret)
