-- ===== src/Sync/Scheduler/Frame.antt =====
-- What one tick of a schedule adds to what its task does.
use internship_pilot.Prelude.{
  ℕ, ◌≡◌, ◌⊎◌, refl, inl, inr, Bool, true, false, Option, none, some, String, is_some,
}
use internship_pilot.Database.{Table}
use internship_pilot.Program.{
  Program, Result, ok, err, Failure, ◌>>=◌, ◌>>◌, catch, Keeps, Keeps-bind, Keeps-catch,
}
use internship_pilot.Sync.Scheduler.{
  TickStatus, success, error, TickInfo, Setting, Summary, Schedule, tick_key, World, setting,
  upsert, is_scheduler_paused, get_tick, save_tick, schedule_next_tick, save_result,
  record_tick_result, error_summary, attempt_task, check_pause, unless_paused, run_if_not_paused,
}
use internship_pilot.Sync.Scheduler.Laws.{IsApart, schedule-Own, record-Apart}
use internship_pilot.Sync.Scheduler.Pause.{write-Untouched, tick_of-Untouched, schedule-Untouched}

module _ (T : Table Setting) (Outside : Type 0) (parse : String → Option (Option TickInfo))
    (s : Schedule) where
  -- From the first state to the second only the row of this schedule was written.
  abbrev pub IsOwnWrite : World T Outside parse → World T Outside parse → Type 0
  IsOwnWrite start w =
      IsApart T Outside parse (tick_key s.name) start w × (w.outside ≡ start.outside)

  -- Only the schedule's row was written; or the task ran, not paused, on a state that differs from
  -- the first in that row alone, and after it again only that row was written.
  abbrev pub IsFramed :
      Program (World T Outside parse) Summary
      → World T Outside parse
      → World T Outside parse
      → Type 0
  IsFramed task start u =
      IsOwnWrite start u
      ⊎ ((w : World T Outside parse) × IsOwnWrite start w
          × (is_scheduler_paused T Outside parse w ≡ false)
          × IsOwnWrite (task w).1 u)

  result-IsOwnWrite :
      (start : World T Outside parse) (now : ℕ) (status : TickStatus) (r : Summary)
      → Keeps
          (λ u. u.outside ≡ start.outside)
          (record_tick_result T Outside parse now s.name status r)
  unfolding record_tick_result get_tick save_tick upsert
  result-IsOwnWrite start now status r =
      Keeps-bind (λ u. u.outside ≡ start.outside) (get_tick T Outside parse s.name)
        (save_result T Outside parse now s.name status r)
        (λ w h.
          tick_of-Untouched T Outside parse s start (setting T Outside parse (tick_key s.name) w) w
            h)
        after
    where
      after :
          (o : Option TickInfo)
          → Keeps
              (λ u. u.outside ≡ start.outside)
              (save_result T Outside parse now s.name status r o)
      after none = λ w h. h
      after (some t) = λ w h.
          write-Untouched T Outside parse s start
            (is_some (setting T Outside parse (tick_key s.name) w)) _ _ w h

  record-IsOwnWrite :
      (start : World T Outside parse) (now : ℕ) (status : TickStatus) (r : Summary)
      → Keeps (IsOwnWrite start) (record_tick_result T Outside parse now s.name status r)
  record-IsOwnWrite start now status r u (apart, same) = (
    record-Apart T Outside parse s.name start now status r u apart,
    result-IsOwnWrite start now status r u same,
  )

  module _ (now : ℕ) (message : Failure → String)
      (task : Program (World T Outside parse) Summary) where
    note_error : Failure → Program (World T Outside parse) (Unit {0})
    note_error e =
        record_tick_result T Outside parse now s.name error
          (error_summary T Outside parse (message e))

    note_success : Summary → Program (World T Outside parse) (Unit {0})
    note_success = record_tick_result T Outside parse now s.name success

    -- After the task only the row of the schedule is written.
    attempt-IsOwnWrite :
        (w : World T Outside parse)
        → IsOwnWrite (task w).1 (attempt_task T Outside parse now message s.name task w).1
    unfolding attempt_task note_error note_success
    attempt-IsOwnWrite w = go (task w)
      where
        go :
            (r : Result Summary × World T Outside parse)
            → IsOwnWrite r.1 (catch ((λ _. r) >>= note_success) note_error w).1
        go (ok r, v) =
            Keeps-catch (IsOwnWrite v) (note_success r) note_error
              (record-IsOwnWrite v now success r)
              (λ e. record-IsOwnWrite v now error (error_summary T Outside parse (message e))) v
              (λ k n. refl, refl)
        go (err e, v) =
            record-IsOwnWrite v now error (error_summary T Outside parse (message e)) v
              (λ k n. refl, refl)

    check-IsFramed :
        (start w : World T Outside parse)
        → IsOwnWrite start w
        → IsFramed task start
            (check_pause T Outside parse (attempt_task T Outside parse now message s.name task) w).1
    check-IsFramed start w own = go (is_scheduler_paused T Outside parse w) refl
      where
        go :
            (b : Bool)
            → is_scheduler_paused T Outside parse w ≡ b
            → IsFramed task start
                (unless_paused T Outside parse b
                  (attempt_task T Outside parse now message s.name task)
                  w).1
        go true e = inl own
        go false e = inr (w, own, e, attempt-IsOwnWrite w)

    -- A tick either writes nothing but the row of its schedule, or it runs its task, where the
    -- scheduler is not paused, once and on a state that differs from the first in that row alone;
    -- all that differs between the state that the task leaves and the last one is that row again.
    -- This holds for every task, whatever it writes, and whether it returns or throws.
    pub run_if_not_paused-IsFramed :
        (start : World T Outside parse)
        → IsFramed task start (run_if_not_paused T Outside parse now message s task start).1
    unfolding run_if_not_paused
    run_if_not_paused-IsFramed start = go (schedule_next_tick T Outside parse now s start) (
      schedule-Own T Outside parse s start now start (λ k n. refl),
      schedule-Untouched T Outside parse s start now start refl,
    )
      where
        run : Program (World T Outside parse) (Unit {0})
        run = check_pause T Outside parse (attempt_task T Outside parse now message s.name task)

        go :
            (r : Result (Unit {0}) × World T Outside parse)
            → IsOwnWrite start r.1
            → IsFramed task start (((λ _. r) >> run) start).1
        go (err e, w) own = inl own
        go (ok x, w) own = check-IsFramed start w own
