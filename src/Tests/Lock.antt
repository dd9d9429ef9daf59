-- ===== src/Tests/Lock.antt =====
-- The worker's lock at concrete inputs.
use internship_pilot.Prelude.{◌≡◌, ◌≢◌, refl, eq_iff, true, false, none, some, []}
use internship_pilot.Prelude.Int.{pos}
use internship_pilot.Applications.Worker.Lock.{
  LockData, Machine, World, no_process, stringified, new_lock, worker_port, is_stale, held,
  duplicate, read_worker_lock, acquire_application_worker_lock, attempt_acquire, acquire_turns,
  is_process_running, fetch_worker_health, release,
}
use internship_pilot.Applications.Worker.Lock.Laws.{may_take, acquire_held}
use internship_pilot.Applications.Worker.Lock.Progress.{acquire_progress, acquire-release}

-- A worker with process 70, where no other process runs.
abbrev machine : Machine
machine = record {
  own_pid = 70;
  configured_port = none;
  random_uuid = λ n. "t1";
  now = 50000;
  kill_0 = λ p. no_process;
  health_body = λ p. none;
  open_error = false;
  unlink_error = false;
}

abbrev own_lock : LockData
own_lock = record (new_lock machine 1 "profile") { port = pos 43127 }

-- The lock of a worker that ended before.
abbrev old_lock : LockData
old_lock = record own_lock { pid = pos 12; token = "t0"; heartbeat_at = some 1000 }

abbrev before : World
before = record { file = some (stringified old_lock); terminated = [] }

abbrev after : World
after = (acquire_application_worker_lock machine "profile" before).1

abbrev taken : LockData
taken = new_lock machine 1 "profile"

got : acquire_application_worker_lock machine "profile" before ≡ (held taken, after)
unfolding acquire_application_worker_lock acquire_turns attempt_acquire new_lock worker_port
    is_stale is_process_running fetch_worker_health read_worker_lock
got = refl

acquire_held_example :
    (may_take machine before.file ≡ true)
    × (read_worker_lock after ≡ some taken)
    × (taken.pid ≡ pos 70)
unfolding new_lock
acquire_held_example = acquire_held machine "profile" before taken after got

acquire_progress_example :
    (may_take machine before.file ≡ true
      → (d : LockData) × ((acquire_application_worker_lock machine "profile" before).0 ≡ held d))
    × (may_take machine before.file ≡ false
        → acquire_application_worker_lock machine "profile" before
          ≡ (duplicate (read_worker_lock before), before))
acquire_progress_example = acquire_progress machine "profile" before refl refl

other_token : old_lock.token ≢ taken.token
unfolding new_lock
other_token e = let equal = (eq_iff old_lock.token taken.token).1 e in cc

acquire-release_example :
    ((machine.unlink_error ≡ false)
      → (release machine taken (release machine old_lock after)).file ≡ none)
    × ((machine.unlink_error ≡ true)
        → release machine taken (release machine old_lock after) ≡ after)
    × (release machine old_lock after ≡ after)
acquire-release_example =
    acquire-release machine machine "profile" before taken old_lock after got other_token
