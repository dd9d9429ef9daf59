-- ===== src/Applications/Worker/Lock.antt =====
-- The lock file of the application worker (src/lib/applications/workerLock.ts). The file system, the
-- process table and the health endpoint of another worker come in as `Machine`.
pub mod Laws
pub mod Progress
use internship_pilot.Prelude.{
  ℕ, zero, suc, ◌-◌, ◌&&◌, ◌||◌, Bool, true, false, not, Option, none, some, List, ◌∷◌, String,
  str_eq, is_some, if◌then◌else◌, ltb, ◌==◌,
}
use internship_pilot.Prelude.Int.{ℤ, pos, negsuc}

pub data BrowserHealth : Type 0 where
  healthy unhealthy restarting stopped : BrowserHealth

-- The fields that a worker reports of its browser; its lock file keeps them beside its identity.
pub record Browser : Type 0 where
  pub browser_ready : Bool
  pub extension_ready : Bool
  pub extension_id : Option String
  pub browser_health : BrowserHealth
  pub browser_health_reason : Option String
  pub browser_generation : ℕ
  pub extension_fingerprint : Option String
  pub browser_open_pages : ℕ
  pub processing_run_id : Option String

-- `ApplicationWorkerLockData`. Instants are milliseconds; one that no date parses to is `none`.
pub record LockData : Type 0 where
  pub pid : ℤ
  pub port : ℤ
  pub token : String
  pub profile_path : String
  pub started_at : Option ℕ
  pub heartbeat_at : Option ℕ
  pub browser : Browser

-- What the text of the file parses to: `none` where a field has another type than `readWorkerLock`
-- asks for.
pub record RawLock : Type 0 where
  pub pid : Option ℤ
  pub port : Option ℤ
  pub token : Option String
  pub profile_path : String
  pub started_at : Option ℕ
  pub heartbeat_at : Option ℕ
  pub browser : Browser

pub data Content : Type 0 where
  unreadable : Content
  json : RawLock → Content

-- What `process.kill(pid, 0)` does: it returns, or throws `EPERM`, or throws another error.
pub data Signal : Type 0 where
  delivered no_permission no_process : Signal

-- The process and its surroundings during one call.
pub record Machine : Type 0 where
  pub own_pid : ℕ
  pub configured_port : Option ℤ
  pub random_uuid : ℕ → String
  pub now : ℕ
  pub kill_0 : ℕ → Signal
  -- the body of `GET /health` on a port, where the answer is in time and `ok`
  pub health_body : ℤ → Option RawLock
  -- an error of `mkdir` or `open` that is not `EEXIST`, an error of `unlink` that is not `ENOENT`
  pub open_error : Bool
  pub unlink_error : Bool

-- The lock file, where it exists, and the processes that were asked to end.
pub record World : Type 0 where
  pub file : Option Content
  pub terminated : List ℤ

-- An integer strictly between 0 and 65536.
abbrev pub is_port : ℤ → Bool
is_port (pos n) = ltb 0 n && ltb n 65536
is_port (negsuc n) = false

unfoldable pub worker_port : Option ℤ → ℤ
worker_port none = pos 43127
worker_port (some p) = if is_port p then p else pos 43127

abbrev pub answered : Signal → Bool
answered delivered = true
answered no_permission = true
answered no_process = false

unfoldable pub is_process_running : Machine → ℤ → Bool
is_process_running m (pos zero) = false
is_process_running m (pos (suc n)) = answered (m.kill_0 (suc n))
is_process_running m (negsuc n) = false

abbrev pub typed : Option ℤ → Option ℤ → Option String → RawLock → Option LockData
typed (some pid) (some port) (some token) raw = some (record {
  pid = pid;
  port = port;
  token = token;
  profile_path = raw.profile_path;
  started_at = raw.started_at;
  heartbeat_at = raw.heartbeat_at;
  browser = raw.browser;
})
typed _ _ _ raw = none

abbrev pub read_content : Option Content → Option LockData
read_content none = none
read_content (some unreadable) = none
read_content (some (json raw)) = typed raw.pid raw.port raw.token raw

unfoldable pub read_worker_lock : World → Option LockData
read_worker_lock w = read_content w.file

-- `JSON.stringify(data)`, as `readWorkerLock` parses it.
abbrev pub stringified : LockData → Content
stringified data_of = json (record {
  pid = some data_of.pid;
  port = some data_of.port;
  token = some data_of.token;
  profile_path = data_of.profile_path;
  started_at = data_of.started_at;
  heartbeat_at = data_of.heartbeat_at;
  browser = data_of.browser;
})

abbrev pub int_eq : ℤ → ℤ → Bool
int_eq (pos a) (pos b) = a == b
int_eq (negsuc a) (negsuc b) = a == b
int_eq _ _ = false

abbrev pub is_pid : Option ℤ → ℤ → Bool
is_pid none p = false
is_pid (some q) p = int_eq q p

abbrev pub is_token : Option String → String → Bool
is_token none t = false
is_token (some u) t = str_eq u t

-- The health answer counts only with the lock's own token and process.
abbrev pub own_health : Option RawLock → LockData → Option RawLock
own_health none lock = none
own_health (some h) lock =
    if is_token h.token lock.token && is_pid h.pid lock.pid then some h else none

unfoldable pub fetch_worker_health : Machine → LockData → Option RawLock
fetch_worker_health m lock = own_health (m.health_body lock.port) lock

abbrev pub new_browser : Browser
new_browser = record {
  browser_ready = false;
  extension_ready = false;
  extension_id = none;
  browser_health = unhealthy;
  browser_health_reason = some "The worker-owned browser has not started.";
  browser_generation = 0;
  extension_fingerprint = none;
  browser_open_pages = 0;
  processing_run_id = none;
}

unfoldable pub new_lock : Machine → ℕ → String → LockData
new_lock m attempt profile_path = record {
  pid = pos m.own_pid;
  port = worker_port m.configured_port;
  token = m.random_uuid attempt;
  profile_path = profile_path;
  started_at = some m.now;
  heartbeat_at = some m.now;
  browser = new_browser;
}

-- `heartbeatAgeMs > 10_000`; an instant that is no date is never late.
abbrev pub is_late : ℕ → Option ℕ → Bool
is_late now none = false
is_late now (some at) = ltb 10000 (now - at)

abbrev pub asked_health : Machine → LockData → Option RawLock
asked_health m lock = if is_process_running m lock.pid then fetch_worker_health m lock else none

unfoldable pub is_stale : Machine → LockData → Bool
is_stale m lock =
    not (is_process_running m lock.pid)
    || (not (is_some (asked_health m lock)) && is_late m.now lock.heartbeat_at)

-- `ApplicationWorkerLock`, a `DuplicateApplicationWorkerError`, or an error of the file system.
pub data Outcome : Type 0 where
  held : LockData → Outcome
  duplicate : Option LockData → Outcome
  io_error : Outcome

-- `process.kill(existing.pid, "SIGTERM")` for a process that runs and does not answer.
abbrev pub terminate_stuck : Machine → LockData → World → World
terminate_stuck m lock w =
    if is_process_running m lock.pid && not (is_some (asked_health m lock))
    then record w { terminated = lock.pid ∷ w.terminated }
    else w

-- `unlink(lockPath)`, after which the next turn is due (`none`).
abbrev pub clear_file : Bool → World → Option Outcome × World
clear_file true w = (some io_error, w)
clear_file false w = (none, record w { file = none })

-- One turn of the loop where the file exists.
abbrev pub yield_or_clear : Machine → Option LockData → World → Option Outcome × World
yield_or_clear m none w = clear_file m.unlink_error w
yield_or_clear m (some lock) w =
    if is_stale m lock
    then clear_file m.unlink_error (terminate_stuck m lock w)
    else (some (duplicate (some lock)), w)

abbrev pub open_or_clear : Machine → ℕ → String → Option Content → World → Option Outcome × World
open_or_clear m attempt profile_path none w =
    let lock = new_lock m attempt profile_path in
    (some (held lock), record w { file = some (stringified lock) })
open_or_clear m attempt profile_path (some c) w = yield_or_clear m (read_worker_lock w) w

-- An error other than `EEXIST` is thrown on.
abbrev pub unless_error : Bool → Option Outcome × World → World → Option Outcome × World
unless_error true turn w = (some io_error, w)
unless_error false turn w = turn

unfoldable pub attempt_acquire : Machine → ℕ → String → World → Option Outcome × World
attempt_acquire m attempt profile_path w =
    unless_error m.open_error (open_or_clear m attempt profile_path w.file w) w

abbrev pub next_turn : Option Outcome × World → (World → Outcome × World) → Outcome × World
next_turn (some o, w) rest = (o, w)
next_turn (none, w) rest = rest w

-- The turns that are left of the two, and the error after the last one.
unfoldable pub acquire_turns : Machine → ℕ → ℕ → String → World → Outcome × World
acquire_turns m zero attempt profile_path w = (duplicate (read_worker_lock w), w)
acquire_turns m (suc left) attempt profile_path w =
    next_turn (attempt_acquire m attempt profile_path w)
      (acquire_turns m left (suc attempt) profile_path)

unfoldable pub acquire_application_worker_lock : Machine → String → World → Outcome × World
acquire_application_worker_lock m profile_path w = acquire_turns m 2 0 profile_path w

-- `update(patch)` of a lock: the file is written whatever it holds.
unfoldable pub update : ℕ → (Browser → Browser) → LockData → World → LockData × World
update now patch lock w =
    let next : LockData = record lock { browser = patch lock.browser; heartbeat_at = some now } in
    (next, record w { file = some (stringified next) })

abbrev pub is_own : Machine → LockData → Option LockData → Bool
is_own m lock none = false
is_own m lock (some current) = str_eq current.token lock.token && int_eq current.pid (pos m.own_pid)

unfoldable pub release : Machine → LockData → World → World
release m lock w =
    if is_own m lock (read_worker_lock w) && not m.unlink_error then record w { file = none } else w
