-- ===== src/Matching/Queue/Item.antt =====
-- What a round of a match worker (src/lib/matching/initialAiMatchQueue.ts) asks of an item and of a
-- result, and the data that its writes set.
use Prim.Native.String.{◌++◌ as str_append}
use text.Mathlib.Text.{starts_with}
use internship_pilot.Prelude.{
  ℕ, ◌+◌, ◌-◌, ◌*◌, ◌^◌, ◌&&◌, ◌||◌, Bool, true, false, not, Option, none, some, List, String,
  str_eq, ltb, leb, ◌==◌, if◌then◌else◌, min, max,
}
use internship_pilot.Program.{Result, Failure}
use internship_pilot.Matching.Queue.{
  running, succeeded, retryable_failed, permanent_failed, is_running, is_claimable, QueueItem,
  initial_match_type, max_attempts,
}
use internship_pilot.Matching.Queue.Codes.{safe_error_code, is_transient}

-- `AI_MATCH_WORKER_CONCURRENCY` as a number, `none` if it is no integer.
unfoldable pub worker_concurrency : Option ℕ → ℕ → ℕ
worker_concurrency configured free_memory =
    let requested : ℕ = elim configured [ none ↦ 2 | some n ↦ max 1 (min 2 n) ] in
    if ltb 1 requested && ltb free_memory (4 * 1024 ^ 3 * requested) then 1 else requested

pub record PersistedMatch : Type 0 where
  pub id : String
  -- `none` stands for a score that is no integer in ℕ
  pub score : Option ℕ
  pub eligibility : String
  pub eligibility_reason : String
  pub explanation : String
  pub skills : List String
  pub origin : Option String

abbrev pub is_nonempty : String → Bool
is_nonempty s = not (str_eq s "")

abbrev pub is_percent : Option ℕ → Bool
is_percent none = false
is_percent (some n) = leb n 100

abbrev pub origin_ok : Option String → String → Bool
origin_ok none expected = false
origin_ok (some o) expected = str_eq o expected || starts_with o (str_append expected ":")

abbrev pub all_arrays : (String → Bool) → List String → Bool
all_arrays valid List.[] = true
all_arrays valid (List.◌∷◌ x xs) = valid x && all_arrays valid xs

-- `validJsonArray` reads a text by `JSON.parse`.
unfoldable pub is_complete_automatic_match : (String → Bool) → PersistedMatch → String → Bool
is_complete_automatic_match valid_json_array m expected =
    is_percent m.score
    && (is_nonempty m.eligibility
        && (is_nonempty m.eligibility_reason
            && (is_nonempty m.explanation
                && (all_arrays valid_json_array m.skills && origin_ok m.origin expected))))

-- What a round reads of the rest of the program: the hash in a refresh's match type and the user's
-- present revision, a user's stored score of a job, the scorer, and `validJsonArray`.
pub record Services : Type 0 where
  pub refresh_hash : String → Option String
  pub profile_revision : String → Option String
  pub existing_match : String → String → Option String
  pub scorer : String → String → String → Result PersistedMatch
  pub valid_json_array : String → Bool

abbrev pub hash_is_current : Option String → Option String → Bool
hash_is_current (some hash) (some revision) = str_eq revision hash
hash_is_current _ _ = false

abbrev pub retry_delay : ℕ → ℕ
retry_delay attempt = if attempt == 1 then 60_000 else 5 * 60_000

-- `{ state: "RUNNING", lockedAt: { lt: cutoff } }`, with the cutoff two minutes ago.
abbrev pub is_abandoned : ℕ → QueueItem → Bool
is_abandoned now r =
    is_running r.state && elim r.locked_at [ none ↦ false | some at ↦ ltb at (now - 2 * 60_000) ]

abbrev pub is_due : ℕ → QueueItem → Bool
is_due now r =
    (str_eq r.match_type initial_match_type || starts_with r.match_type "PROFILE_REFRESH:")
    && (is_claimable r.state && leb r.next_attempt_at now)

-- `orderBy: [{ nextAttemptAt: "asc" }, { createdAt: "asc" }]`
abbrev pub is_earlier : QueueItem → QueueItem → Bool
is_earlier a b =
    ltb a.next_attempt_at b.next_attempt_at
    || (a.next_attempt_at == b.next_attempt_at && ltb a.created_at b.created_at)

-- The data that each write sets.
abbrev pub interrupted : ℕ → QueueItem → QueueItem
interrupted now r =
    if leb max_attempts r.attempt_count
    then record r {
      state = permanent_failed;
      next_attempt_at = now;
      locked_at = none;
      last_error_code = some "WORKER_INTERRUPTED";
      completed_at = some now;
    }
    else record r {
      state = retryable_failed;
      next_attempt_at = now;
      locked_at = none;
      last_error_code = some "WORKER_INTERRUPTED";
    }

abbrev pub retired : ℕ → String → QueueItem → QueueItem
retired now reason r = record r {
  state = permanent_failed;
  completed_at = some now;
  locked_at = none;
  last_error_code = some reason;
}

abbrev pub claimed : ℕ → QueueItem → QueueItem
claimed now r = record r {
  state = running;
  locked_at = some now;
  attempt_count = r.attempt_count + 1;
}

abbrev pub finished : ℕ → String → QueueItem → QueueItem
finished now match_id r = record r {
  state = succeeded;
  match_result_id = some match_id;
  completed_at = some now;
  locked_at = none;
  last_error_code = none;
}

abbrev pub failed : ℕ → Bool → ℕ → String → QueueItem → QueueItem
failed now retryable next code r =
    if retryable
    then record r {
      state = retryable_failed;
      next_attempt_at = next;
      locked_at = none;
      last_error_code = some code;
    }
    else record r {
      state = permanent_failed;
      next_attempt_at = next;
      locked_at = none;
      last_error_code = some code;
      completed_at = some now;
    }

-- Is another attempt made after this failure?
unfoldable pub is_retryable : Failure → ℕ → Bool
is_retryable e attempt = is_transient e (safe_error_code e) && ltb attempt max_attempts
