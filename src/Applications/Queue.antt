-- ===== src/Applications/Queue.antt =====
-- The queue of application runs (src/lib/applications/queue.ts): its rows, the store, and the writes
-- that the operations share. Instants are milliseconds; a JSON column is the value it encodes.
pub mod Request
pub mod Enqueue
pub mod Resume
pub mod Choice
pub mod Placing
pub mod Claims
pub mod Retry
use Prim.Native.String.{◌++◌ as concat}
use internship_pilot.Prelude.{
  ℕ, ◌≡◌, ◌&&◌, ◌||◌, Bool, true, false, not, Option, none, some, List, [], ◌∷◌, String, str_eq,
  is_text, is_some, if◌then◌else◌, ltb,
}
use internship_pilot.Database.{Table}
use internship_pilot.Program.{
  Program, ok, err, Failure, other, database, ◌>>=◌, ◌>>◌, return, throw,
}

pub data RunStatus : Type 0 where
  queued running needs_user_action filled submitted failed cancelled superseded : RunStatus

-- `ACTIVE_APPLICATION_STATUSES`
abbrev pub is_active : RunStatus → Bool
is_active queued = true
is_active running = true
is_active needs_user_action = true
is_active _ = false

-- `"queued"` or `"running"`
abbrev pub is_moving : RunStatus → Bool
is_moving queued = true
is_moving running = true
is_moving _ = false

abbrev pub is_paused : RunStatus → Bool
is_paused needs_user_action = true
is_paused _ = false

abbrev pub is_filled : RunStatus → Bool
is_filled filled = true
is_filled _ = false

abbrev pub is_submitted : RunStatus → Bool
is_submitted submitted = true
is_submitted _ = false

abbrev pub is_failed : RunStatus → Bool
is_failed failed = true
is_failed _ = false

-- One entry of `attemptHistory`.
pub record Attempt : Type 0 where
  pub number : ℕ
  pub status : RunStatus
  pub error : Option String
  pub error_code : Option String
  pub validation_path : Option String
  pub step : Option String
  pub finished_at : ℕ

-- The form field at which a run stopped.
pub record StoppedField : Type 0 where
  pub label : Option String
  pub type : Option String
  pub options : Option String
  pub step : Option ℕ
  pub context : Option String

-- The columns for the mode, the ATS, the stages and the strategy's name are constants or texts of the
-- log, and left out.
pub record Run : Type 0 where
  pub user_id : Option String
  pub active_key : Option String
  pub job_id : String
  pub status : RunStatus
  pub current_step : Option String
  pub needs_user_action_reason : Option String
  pub stopped : StoppedField
  pub resume_document_id : Option String
  pub cover_letter_document_id : Option String
  pub strategy_reason : Option String
  pub match_score : Option ℕ
  pub attempt_number : ℕ
  pub attempt_history : Option (List Attempt)
  pub error_code : Option String
  pub validation_path : Option String
  pub error_log : Option String
  pub finished_at : Option ℕ
  pub created_at : ℕ

abbrev pub nowhere : StoppedField
nowhere = record { label = none; type = none; options = none; step = none; context = none }

-- `applicationActiveKey`
unfoldable pub application_active_key : String → String → String
application_active_key user job_id = concat user (concat ":" job_id)

abbrev pub key_eq : Option String → Option String → Bool
key_eq (some a) (some b) = str_eq a b
key_eq _ _ = false

-- `activeKey` is unique; two rows without one do not clash.
abbrev pub same_active_key : Run → Run → Bool
same_active_key a b = key_eq a.active_key b.active_key

abbrev pub is_of : String → String → Run → Bool
is_of user job_id r = is_text r.user_id user && str_eq r.job_id job_id

-- What a request answers.
pub record Answer : Type 0 where
  pub run_id : String
  pub status : RunStatus
  pub was_queued : Bool

-- An `ApplicationAgentError`.
abbrev pub refuse : {S A : Type 0} → String → Program S A
refuse message = throw (other message)

abbrev pub guard : {S : Type 0} → Bool → String → Program S (Unit {0})
guard fine message s = if fine then (ok tt, s) else (err (other message), s)

module _ (T : Table Run) where
  -- `applying` and `audit` collect the upserts of `UserJobState` and the entries of the audit log.
  pub record Store : Type 0 where
    pub runs : T.Tab
    pub applying : List (String × String)
    pub audit : List (String × String)
    pub apply_urls : List (String × String)

  unfoldable pub mark_applying : String → String → Program Store (Unit {0})
  mark_applying user job_id s = (ok tt, record s { applying = (user, job_id) ∷ s.applying })

  unfoldable pub write_audit : String → String → Program Store (Unit {0})
  write_audit action run_id s = (ok tt, record s { audit = (action, run_id) ∷ s.audit })

  -- Another row than `id` that holds the key.
  unfoldable pub key_is_taken : String → String → Store → Bool
  key_is_taken id key s =
      is_some
        (T.find_first (λ k r. not (str_eq k id) && is_text r.active_key key) (λ _ _. false) s.runs)

  -- `recordRunStage`: a missing run is left alone.
  unfoldable pub record_run_stage : String → String → Program Store (Unit {0})
  record_run_stage id stage s = (
    ok tt,
    record s {
      runs = T.update_at id (λ _. true) (λ r. record r { current_step = some stage }) s.runs;
    },
  )

  -- `findFirst({ where: { activeKey, userId } })`
  unfoldable pub find_winner : String → String → Store → Option (String × Run)
  find_winner key user s =
      T.find_first (λ k r. is_text r.active_key key && is_text r.user_id user) (λ _ _. false) s.runs
