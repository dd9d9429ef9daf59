-- ===== src/Tests/Cron.antt =====
-- The lease and the budget of a lane at concrete inputs.
use mathlib.Core.Bool.{true≢false}
use internship_pilot.Prelude.{
  ◌+◌, ℕ, zero, suc, ◌<◌, ◌≡◌, ◌≢◌, ◌↔◌, refl, ap, subst, arith, eq_iff, ◌&&◌, Bool, true, false,
  Option, none, some, List, [], ◌∷◌, ◌++◌, String, str_eq, str_eq_refl,
}
use internship_pilot.Database.Memory.{memory, no_rows}
use internship_pilot.Cron.Lane.{LeaseRecord, PartialLease, Runtime}
use internship_pilot.Cron.Lane.Calls.{
  Phase, idle, Call, System, advance, put_call, expiry, begin, run, Reach, here, next, is_holding,
}
use internship_pilot.Cron.Lane.Exclusion.{at_most_one_holder}
use internship_pilot.Cron.Budget.{LaneBudget, run_lane_step, bearer, is_authorized_cron_request}
use internship_pilot.Cron.Budget.Laws.{is_authorized_iff}
use internship_pilot.Cron.Budget.Steps.{IsContained, run_lane_step-IsContained}
use internship_pilot.Program.{Program, err, other}

-- The texts of a column: nothing, or a lease.
data Text : Type 0 where
  blank : Text
  lease : LeaseRecord → Text

abbrev text_eq : Text → Text → Bool
text_eq blank blank = true
text_eq (lease a) (lease b) =
    str_eq a.holder b.holder
    && (str_eq a.acquired_at b.acquired_at && str_eq a.expires_at b.expires_at)
text_eq _ _ = false

text_eq_self : (a : LeaseRecord) → text_eq (lease a) (lease a) ≡ true
text_eq_self a =
    ground (arith, str_eq_refl a.holder, str_eq_refl a.acquired_at, str_eq_refl a.expires_at)

text_eq_iff : (a b : Text) → (text_eq a b ≡ true) ↔ (a ≡ b)
text_eq_iff blank blank = (λ e. refl, λ e. refl)
text_eq_iff blank (lease b) = (λ e. cc, λ e. cc)
text_eq_iff (lease a) blank = (λ e. cc, λ e. cc)
text_eq_iff (lease a) (lease b) = (
  λ e. ap lease (
      same a b (ground (arith, eq_iff a.holder b.holder))
        (ground (arith, eq_iff a.acquired_at b.acquired_at))
        (ground (arith, eq_iff a.expires_at b.expires_at))),
  λ e. subst (λ c. text_eq (lease a) c ≡ true) e (text_eq_self a),
)
  where
    same :
        (a b : LeaseRecord)
        → a.holder ≡ b.holder
        → a.acquired_at ≡ b.acquired_at
        → a.expires_at ≡ b.expires_at
        → a ≡ b
    same a b p q r = cc

-- An instant as a row of strokes.
abbrev strokes : ℕ → String
strokes zero = ""
strokes (suc n) = String.◌∷◌ "|" (strokes n)

abbrev count : String → ℕ
count String.[] = zero
count (String.◌∷◌ c s) = suc (count s)

count-strokes : (n : ℕ) → count (strokes n) ≡ n
count-strokes zero = refl
count-strokes (suc n) = ap suc (count-strokes n)

abbrev parse_text : Text → Option PartialLease
parse_text blank = none
parse_text (lease r) = some (record {
  holder = some r.holder;
  acquired_at = some r.acquired_at;
  expires_at = some r.expires_at;
})

abbrev runtime : Runtime
runtime = record {
  Text = Text;
  text_eq = text_eq;
  text_eq_iff = text_eq_iff;
  empty = blank;
  stringify = lease;
  parse_json = parse_text;
  to_iso = strokes;
  parse_date = λ s. some (count s);
  stringify_nonempty = λ r. refl;
  parse_json-stringify = λ r. refl;
  parse_date-to_iso = λ t. ap some (count-strokes t);
}

abbrev no_call : Call Text
no_call = record { phase = idle; holder = ""; now = 0; ttl = 0 }

abbrev quiet : System runtime memory "lane:ats"
quiet = record { calls = λ i. no_call; table = no_rows; clock = 5 }

abbrev began : System runtime memory "lane:ats"
began = record quiet {
  calls =
      put_call runtime memory "lane:ats" 0
        (record { phase = Phase.started; holder = "a"; now = 5; ttl = 10 }) quiet;
}

abbrev running : System runtime memory "lane:ats"
running = advance runtime memory "lane:ats" 0 began

holds : is_holding (running.calls 0).phase ≡ true
unfolding advance
holds = refl

runs : running.clock < expiry runtime memory "lane:ats" (running.calls 0)
unfolding advance
runs = omega arith

reached : Reach runtime memory "lane:ats" quiet running
reached =
    next (next here (begin 0 "a" 10 refl (λ j busy. absurd (true≢false busy)) refl)) (run 0 refl)

at_most_one_holder_example : ◌≡◌ {A = ℕ} 0 0
at_most_one_holder_example =
    at_most_one_holder runtime memory "lane:ats" quiet running (λ i. refl) reached 0 0 holds holds
      runs runs

abbrev secret : List ℕ
secret = b'k' ∷ []

is_authorized_iff_example :
    (is_authorized_cron_request secret (some (bearer ++ secret)) ≡ true)
    ↔ ((secret ≢ []) × (some (bearer ++ secret) ≡ some (bearer ++ secret)))
is_authorized_iff_example = is_authorized_iff secret (some (bearer ++ secret))

abbrev steps : List (String × Option String)
steps = ("fetch", none) ∷ ("save", some "down") ∷ []

-- The state is the clock, and every reading of it takes a millisecond.
abbrev date_now : ℕ → ℕ × ℕ
date_now s = (s, s + 1)

abbrev down : Program ℕ ℕ
down s = (err (other "down"), s + 20)

abbrev budget : LaneBudget
budget = record { total_ms = 100; started_at = 10 }

run_lane_step-IsContained_example :
    IsContained date_now
      (λ e. "down")
      budget
      50
      down
      20
      "sweep"
      steps
      (run_lane_step date_now (λ e. "down") budget 50 down 20).0
      (run_lane_step date_now (λ e. "down") budget 50 down 20).1
run_lane_step-IsContained_example =
    run_lane_step-IsContained date_now (λ e. "down") budget 50 down 20 "sweep" steps
