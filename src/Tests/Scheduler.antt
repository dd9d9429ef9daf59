-- ===== src/Tests/Scheduler.antt =====
-- A tick of a schedule at concrete inputs.
use internship_pilot.Prelude.{ℕ, ◌≡◌, refl, true, Option, none, some, String, [], ◌∷◌}
use internship_pilot.Database.Memory.{Rows, memory}
use internship_pilot.Program.{Program, ok}
use internship_pilot.Sync.Scheduler.{
  TickInfo, Setting, text, Summary, Schedule, tick_key, World, is_scheduler_paused,
  run_if_not_paused,
}
use internship_pilot.Sync.Scheduler.Laws.{IsApart}
use internship_pilot.Sync.Scheduler.Frame.{IsFramed, run_if_not_paused-IsFramed}
use internship_pilot.Sync.Scheduler.Pause.{Untouched, run_if_not_paused_skips}

abbrev settings : Rows Setting
settings = record { keys = "scheduler:paused" ∷ []; look = λ k. some (text "true") }

-- No text is JSON.
abbrev parse : String → Option (Option TickInfo)
parse value = none

-- Outside the settings there is a number, which the task counts up.
abbrev world : World memory ℕ parse
world = record { settings = settings; outside = 7 }

abbrev queue : Schedule
queue = record { name = "queue"; label = "Verification queue"; interval_ms = 120000 }

abbrev task : Program (World memory ℕ parse) Summary
task w = (ok (record { summary = "done"; new_jobs = 1; errors = 0 }), record w { outside = 8 })

paused : is_scheduler_paused memory ℕ parse world ≡ true
unfolding is_scheduler_paused
paused = refl

run_if_not_paused_skips_example :
    Untouched memory ℕ parse queue world
      (run_if_not_paused memory ℕ parse 10 (λ e. "failed") queue task world).1
    × IsApart memory ℕ parse
        (tick_key "queue")
        world
        (run_if_not_paused memory ℕ parse 10 (λ e. "failed") queue task world).1
run_if_not_paused_skips_example =
    run_if_not_paused_skips memory ℕ parse queue world 10 (λ e. "failed") task paused

abbrev running : World memory ℕ parse
running = record { settings = record { keys = []; look = λ k. none }; outside = 7 }

run_if_not_paused-IsFramed_example :
    IsFramed memory ℕ parse queue task running
      (run_if_not_paused memory ℕ parse 10 (λ e. "failed") queue task running).1
run_if_not_paused-IsFramed_example =
    run_if_not_paused-IsFramed memory ℕ parse queue 10 (λ e. "failed") task running
