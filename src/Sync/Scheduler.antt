-- ===== src/Sync/Scheduler.antt =====
-- The scheduler's durable state and one tick of a schedule (src/lib/sync/schedulerState.ts and
-- `runIfNotPaused` in src/lib/sync/scheduler.ts). A row that `saveTick` wrote is the value that its
-- JSON encodes; `parse` is `JSON.parse` of any other text, read as a tick: it may throw, or be null.
pub mod Laws
pub mod Pause
pub mod Frame
use Prim.Native.String.{◌++◌ as concat}
use internship_pilot.Prelude.{
  ℕ, ◌+◌, Bool, true, false, Option, none, some, String, str_eq, is_some, if◌then◌else◌,
}
use internship_pilot.Database.{Table}
use internship_pilot.Program.{
  Program, Result, ok, err, Failure, other, database, ◌>>=◌, ◌>>◌, return, catch,
}

pub data TickStatus : Type 0 where
  success error : TickStatus

pub record TickInfo : Type 0 where
  pub label : String
  pub interval_ms : ℕ
  pub last_run_at : Option ℕ
  pub next_run_at : Option ℕ
  pub last_status : Option TickStatus
  pub last_summary : Option String
  pub new_jobs_total : ℕ
  pub errors_total : ℕ

-- The `value` of an `AppSetting` row, under its `key`.
pub data Setting : Type 0 where
  text : String → Setting
  tick : TickInfo → Setting

-- What a task reports of its run.
pub record Summary : Type 0 where
  pub summary : String
  pub new_jobs : ℕ
  pub errors : ℕ

pub record Schedule : Type 0 where
  pub name : String
  pub label : String
  pub interval_ms : ℕ

abbrev pub pause_key : String
pause_key = "scheduler:paused"

unfoldable pub tick_key : String → String
tick_key name = concat "scheduler:tick:" name

abbrev pub is_true : Option Setting → Bool
is_true (some (text value)) = str_eq value "true"
is_true _ = false

abbrev pub text_of_bool : Bool → String
text_of_bool true = "true"
text_of_bool false = "false"

-- The tick before its next run; a schedule without one starts at zero.
abbrev pub next_tick : ℕ → Schedule → Option TickInfo → TickInfo
next_tick now s none = record {
  label = s.label;
  interval_ms = s.interval_ms;
  last_run_at = none;
  next_run_at = some (now + s.interval_ms);
  last_status = none;
  last_summary = none;
  new_jobs_total = 0;
  errors_total = 0;
}
next_tick now s (some t) = record t {
  label = s.label;
  interval_ms = s.interval_ms;
  next_run_at = some (now + s.interval_ms);
}

abbrev pub with_result : ℕ → TickStatus → Summary → TickInfo → TickInfo
with_result now status r t = record t {
  last_run_at = some now;
  last_status = some status;
  last_summary = some r.summary;
  new_jobs_total = t.new_jobs_total + r.new_jobs;
  errors_total = t.errors_total + r.errors;
}

module _ (T : Table Setting) (Outside : Type 0) (parse : String → Option (Option TickInfo)) where
  -- The settings, and all that a task works on.
  pub record World : Type 0 where
    pub settings : T.Tab
    pub outside : Outside

  abbrev pub setting : String → World → Option Setting
  setting key w = T.find_unique key w.settings

  abbrev pub insert : Option T.Tab → Program World (Unit {0})
  insert none w = (err (database "P2002"), w)
  insert (some settings) w = (ok tt, record w { settings = settings })

  abbrev pub write_setting : Bool → String → Setting → Program World (Unit {0})
  write_setting true key v w =
      (ok tt, record w { settings = T.update_at key (λ _. true) (λ _. v) w.settings })
  write_setting false key v w = insert (T.create (λ _ _. false) key v w.settings) w

  -- `prisma.appSetting.upsert({ where: { key }, update, create })`
  unfoldable pub upsert : String → Setting → Program World (Unit {0})
  upsert key v w = write_setting (is_some (setting key w)) key v w

  unfoldable pub is_scheduler_paused : World → Bool
  is_scheduler_paused w = is_true (setting pause_key w)

  unfoldable pub set_scheduler_paused : Bool → Program World (Unit {0})
  set_scheduler_paused paused = upsert pause_key (text (text_of_bool paused))

  abbrev pub parsed_tick : Option (Option TickInfo) → Program World (Option TickInfo)
  parsed_tick none w = (err (other "SyntaxError"), w)
  parsed_tick (some t) w = (ok t, w)

  abbrev pub tick_of : Option Setting → Program World (Option TickInfo)
  tick_of none w = (ok none, w)
  tick_of (some (tick t)) w = (ok (some t), w)
  tick_of (some (text value)) w = parsed_tick (parse value) w

  unfoldable pub get_tick : String → Program World (Option TickInfo)
  get_tick name w = tick_of (setting (tick_key name) w) w

  unfoldable pub save_tick : String → TickInfo → Program World (Unit {0})
  save_tick name t = upsert (tick_key name) (tick t)

  unfoldable pub schedule_next_tick : ℕ → Schedule → Program World (Unit {0})
  schedule_next_tick now s = get_tick s.name >>= λ t. save_tick s.name (next_tick now s t)

  abbrev pub save_result :
      ℕ → String → TickStatus → Summary → Option TickInfo → Program World (Unit {0})
  save_result now name status r none = return tt
  save_result now name status r (some t) = save_tick name (with_result now status r t)

  unfoldable pub record_tick_result : ℕ → String → TickStatus → Summary → Program World (Unit {0})
  record_tick_result now name status r = get_tick name >>= save_result now name status r

  abbrev pub error_summary : String → Summary
  error_summary message = record { summary = message; new_jobs = 0; errors = 1 }

  unfoldable pub attempt_task :
      ℕ → (Failure → String) → String → Program World Summary → Program World (Unit {0})
  attempt_task now message name task =
      catch (task >>= record_tick_result now name success)
        (λ e. record_tick_result now name error (error_summary (message e)))

  abbrev pub unless_paused : Bool → Program World (Unit {0}) → Program World (Unit {0})
  unless_paused true run = return tt
  unless_paused false run = run

  abbrev pub check_pause : Program World (Unit {0}) → Program World (Unit {0})
  check_pause run w = unless_paused (is_scheduler_paused w) run w

  -- One tick: the next run is written down first, and a paused scheduler leaves it at that.
  unfoldable pub run_if_not_paused :
      ℕ → (Failure → String) → Schedule → Program World Summary → Program World (Unit {0})
  run_if_not_paused now message s task =
      schedule_next_tick now s >> check_pause (attempt_task now message s.name task)
