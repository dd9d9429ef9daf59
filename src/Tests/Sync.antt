-- ===== src/Tests/Sync.antt =====
-- The discovery queue at concrete inputs.
use internship_pilot.Prelude.{
  inl, ℕ, ◌+◌, ◌*◌, ◌≤◌, ◌≡◌, ◌≢◌, ◌⊎◌, ◌↔◌, refl, arith, eq_iff, true, false, Option, none, some,
  [], ◌∷◌,
}
use internship_pilot.Database.Memory.{Rows, memory}
use internship_pilot.Program.{ok}
use internship_pilot.Sync.Discovery.{
  Signal, pending, retry, resolved, closed, abandoned, QueueRecord, found, gone, again, new,
  Services, resolve_signal, try_again,
}
use internship_pilot.Sync.Discovery.Queue.{
  Codec, conclude, is_too_old, is_waiting, is_due, max_attempts, process_live_discovery_queue,
  due_items,
}
use internship_pilot.Sync.Discovery.Enqueue.{
  cursor_key, CursorRecord, CursorCodec, fresh_record, find_cursor, enqueue_jobright_fresh_signals,
}
use internship_pilot.Sync.Discovery.Invariant.{
  IsSound, AllSound, process-AllSound, process_untouched,
}
use internship_pilot.Sync.Discovery.Claims.{conclude_cases}
use internship_pilot.Sync.Discovery.Run.{QueueRun, after_run, Holds}
use internship_pilot.Sync.Discovery.Rounds.{Runs, took, none_yet, Runs-end}
use internship_pilot.Sync.Discovery.Intake.{enqueue_keeps, enqueue_cursor_bounds}
use internship_pilot.Sync.Discovery.Official.{IsDirect, IsBestOnBoard, resolve_signal_found}

-- The texts of the value column.
data Text : Type 0 where
  event : QueueRecord → Text
  cursor : CursorRecord → Text

abbrev parse_event : Text → Option QueueRecord
parse_event (event r) = some r
parse_event (cursor c) = none

abbrev parse_cursor : Text → Option CursorRecord
parse_cursor (event r) = none
parse_cursor (cursor c) = some c

abbrev events : Codec
events = record { Text = Text; stringify = event; parse = parse_event; parse-stringify = λ r. refl }

abbrev cursors : CursorCodec Text
cursors = record { stringify = cursor; parse = parse_cursor; parse-stringify = λ c. refl }

abbrev signal : Signal
signal = record {
  source_job_id = "s1";
  title = "Intern";
  company = "Acme";
  location = none;
  work_model = none;
  source_posted_at = some 100;
  source_posted_text = none;
  qualifications = "";
  apply_url = none;
  official_application_url = some "https://acme.example/1";
  original_job_post_url = none;
}

abbrev waiting : QueueRecord
waiting = fresh_record 100 signal

abbrev done : QueueRecord
done = record waiting {
  state = resolved;
  attempts = 1;
  last_attempt_at = some 120;
  resolved_at = some 120;
}

abbrev table : Rows Text
table = record { keys = "liveDiscovery:event:1" ∷ []; look = λ k. some (event waiting) }

abbrev done_table : Rows Text
done_table = record { keys = "liveDiscovery:event:1" ∷ []; look = λ k. some (event done) }

abbrev cursor_row : CursorRecord
cursor_row = record { last_checked_at = 90; last_source_posted_at = some 80; source_fresh = 1 }

abbrev cursor_table : Rows Text
cursor_table = record { keys = cursor_key ∷ []; look = λ k. some (cursor cursor_row) }

abbrev services : Services
services = record {
  is_aggregator_url = λ u. false;
  is_valid_official_url = λ u. true;
  probe_closed = λ u. none;
  list_jobs = λ c. ok (true, []);
  score = λ s j. 90;
  strong = 72;
  persist = λ s j. ok (new, some "j1");
  company_key = λ n. [];
  contains = λ a b. false;
  same_key = λ a b. false;
  message = λ e. "failed";
}

waiting-IsSound : IsSound waiting
waiting-IsSound = ground arith

table-AllSound : AllSound events memory table
table-AllSound k v f n r e = ground (arith, waiting-IsSound)

process-AllSound_example :
    AllSound events memory
      (process_live_discovery_queue events memory 200
        (λ k. 210)
        (resolve_signal services [])
        60
        table).1
process-AllSound_example =
    process-AllSound events memory 200 (λ k. 210) (resolve_signal services []) 60 table
      table-AllSound

not_due : (r : QueueRecord) → parse_event (event done) ≡ some r → is_due 200 r ≡ false
not_due r e = ground arith

process_untouched_example :
    (memory {Row = Text}).find_unique "liveDiscovery:event:1"
      (process_live_discovery_queue events memory 200
        (λ k. 210)
        (resolve_signal services [])
        60
        done_table).1
    ≡ some (event done)
process_untouched_example =
    process_untouched events memory 200 (λ k. 210) (resolve_signal services []) 60 done_table
      "liveDiscovery:event:1" (event done) refl not_due

conclude_cases_example :
    let q = conclude 200 210 waiting (try_again "later") in
    ((q.state ≡ resolved) ↔ (again ≡ found))
    × ((q.state ≡ closed) ↔ (again ≡ gone))
    × ((q.state ≡ abandoned)
        ↔ ((again ≡ again) × ((max_attempts ≤ q.attempts) ⊎ (is_too_old 200 signal ≡ true))))
    × (q.state ≢ pending)
    × (q.state ≡ retry
        → (210 + 20 * 60_000 ≤ q.next_attempt_at) × (q.next_attempt_at ≤ 210 + 120 * 60_000))
conclude_cases_example = conclude_cases 200 210 waiting (try_again "later")

abbrev one_run : QueueRun
one_run = record { now = 200; clock = λ k. 210; resolve = λ s. try_again "later"; limit = 60 }

-- The signal is due in the table, and one run takes it up.
taken_up :
    Runs events memory "liveDiscovery:event:1" table 1
      (after_run events memory "liveDiscovery:event:1" one_run table)
unfolding due_items
taken_up = took none_yet one_run waiting (inl refl)

Runs-end_example :
    (q : QueueRecord) × Holds events memory "liveDiscovery:event:1" q
      (after_run events memory "liveDiscovery:event:1" one_run table)
    × (1 ≤ max_attempts)
    × (q.attempts ≡ waiting.attempts + 1)
    × (◌≡◌ {A = ℕ} 1 max_attempts → is_waiting q.state ≡ false)
Runs-end_example =
    Runs-end events memory "liveDiscovery:event:1" waiting table 1
      (after_run events memory "liveDiscovery:event:1" one_run table) (event waiting, refl, refl)
      taken_up

no_cursor : "liveDiscovery:event:1" ≢ cursor_key
no_cursor e = ground (arith, eq_iff "liveDiscovery:event:1" cursor_key)

enqueue_keeps_example :
    (memory {Row = Text}).find_unique "liveDiscovery:event:1"
      (enqueue_jobright_fresh_signals events cursors memory (λ i. i) 300 (signal ∷ []) table).1
    ≡ some (event waiting)
enqueue_keeps_example =
    enqueue_keeps events cursors memory (λ i. i) 300 (signal ∷ []) table "liveDiscovery:event:1"
      (event waiting) no_cursor refl

enqueue_cursor_bounds_example :
    let (report, u) =
      enqueue_jobright_fresh_signals events cursors memory
        (λ i. i)
        300
        (signal ∷ [])
        cursor_table in
    (q : ℕ) × (find_cursor events cursors memory (λ i. i) u ≡ some q)
    × (report.cursor_advanced_to ≡ some q)
    × (80 ≤ q)
enqueue_cursor_bounds_example =
    enqueue_cursor_bounds events cursors memory (λ i. i) 300 (signal ∷ []) cursor_table 80 refl

resolves : (resolve_signal services [] signal).state ≡ found
unfolding resolve_signal
resolves = refl

resolve_signal_found_example : IsDirect services signal ⊎ IsBestOnBoard services [] signal
resolve_signal_found_example = resolve_signal_found services [] signal resolves
