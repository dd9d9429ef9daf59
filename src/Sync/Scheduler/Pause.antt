-- ===== src/Sync/Scheduler/Pause.antt =====
-- A paused scheduler runs no task.
use Prim.Native.Char.{code}
use Prim.Native.String.{[], ◌∷◌, ◌++◌ as concat}
use package.text.Mathlib.TextLemmas.{cons-append}
use internship_pilot.Prelude.{
  zero, suc, ℕ, ◌≡◌, ◌≢◌, refl, ap, ◌∙◌, arith, Bool, true, false, Option, none, some, String,
  is_some,
}
use internship_pilot.Database.{Table}
use internship_pilot.Program.{Program, Result, ok, err, Failure, ◌>>◌, Keeps, Keeps-bind}
use internship_pilot.Sync.Scheduler.{
  TickInfo, Setting, text, tick, Summary, Schedule, pause_key, tick_key, next_tick, World, setting,
  insert, write_setting, upsert, is_true, is_scheduler_paused, tick_of, parsed_tick, get_tick,
  save_tick, schedule_next_tick, attempt_task, unless_paused, check_pause, run_if_not_paused,
}
use internship_pilot.Sync.Scheduler.Laws.{IsApart, schedule-Own}

letter : ℕ → String → ℕ
letter n [] = 0
letter zero (c ∷ s) = code c
letter (suc n) (c ∷ s) = letter n s

reaches : ℕ → String → Bool
reaches n [] = false
reaches zero (c ∷ s) = true
reaches (suc n) (c ∷ s) = reaches n s

letter-concat : (n : ℕ) (s t : String) → reaches n s ≡ true → letter n (concat s t) ≡ letter n s
unfolding letter reaches
letter-concat n [] t h = cc
letter-concat zero (c ∷ s) t h = ap (letter 0) (cons-append c s t)
letter-concat (suc n) (c ∷ s) t h = ap (letter (suc n)) (cons-append c s t) ∙ letter-concat n s t h

two_letters : ◌≢◌ {A = ℕ} b'p' b't'
two_letters e = omega arith

-- The key of a tick is never that of the pause.
apart_keys : (name : String) → pause_key ≢ tick_key name
unfolding tick_key letter reaches
apart_keys name e = two_letters (ap (letter 10) e ∙ letter-concat 10 "scheduler:tick:" name refl)

module _ (T : Table Setting) (Outside : Type 0) (parse : String → Option (Option TickInfo))
    (s : Schedule) (start : World T Outside parse) where
  abbrev pub Untouched : World T Outside parse → Type 0
  Untouched w = w.outside ≡ start.outside

  insert-Untouched : (o : Option T.Tab) → Keeps Untouched (insert T Outside parse o)
  insert-Untouched none w h = h
  insert-Untouched (some settings) w h = h

  pub write-Untouched :
      (b : Bool) (key : String) (v : Setting)
      → Keeps Untouched (write_setting T Outside parse b key v)
  write-Untouched true key v w h = h
  write-Untouched false key v w h = insert-Untouched (T.create (λ _ _. false) key v w.settings) w h

  parsed-Untouched :
      (o : Option (Option TickInfo)) → Keeps Untouched (parsed_tick T Outside parse o)
  parsed-Untouched none w h = h
  parsed-Untouched (some t) w h = h

  pub tick_of-Untouched : (o : Option Setting) → Keeps Untouched (tick_of T Outside parse o)
  tick_of-Untouched none w h = h
  tick_of-Untouched (some (tick t)) w h = h
  tick_of-Untouched (some (text v)) w h = parsed-Untouched (parse v) w h

  pub schedule-Untouched : (now : ℕ) → Keeps Untouched (schedule_next_tick T Outside parse now s)
  unfolding schedule_next_tick get_tick save_tick upsert
  schedule-Untouched now =
      Keeps-bind Untouched (get_tick T Outside parse s.name)
        (λ t. save_tick T Outside parse s.name (next_tick now s t))
        (λ w h. tick_of-Untouched (setting T Outside parse (tick_key s.name) w) w h)
        (λ t w h. write-Untouched (is_some (setting T Outside parse (tick_key s.name) w)) _ _ w h)

  skipped :
      (run : Program (World T Outside parse) (Unit {0})) (w : World T Outside parse)
      → is_scheduler_paused T Outside parse w ≡ true
      → (check_pause T Outside parse run w).1 ≡ w
  skipped run w e = ap (λ b. (unless_paused T Outside parse b run w).1) e

  -- While the scheduler is paused, a tick does not run its task: nothing outside the settings
  -- changes, and of the settings at most the row of this schedule.
  pub run_if_not_paused_skips :
      (now : ℕ) (message : Failure → String) (task : Program (World T Outside parse) Summary)
      → is_scheduler_paused T Outside parse start ≡ true
      → Untouched (run_if_not_paused T Outside parse now message s task start).1
        × IsApart T Outside parse
            (tick_key s.name)
            start
            (run_if_not_paused T Outside parse now message s task start).1
  unfolding run_if_not_paused is_scheduler_paused
  run_if_not_paused_skips now message task paused =
      go (schedule_next_tick T Outside parse now s start) (schedule-Untouched now start refl)
        (schedule-Own T Outside parse s start now start (λ k n. refl))
    where
      run : Program (World T Outside parse) (Unit {0})
      run = attempt_task T Outside parse now message s.name task

      go :
          (r : Result (Unit {0}) × World T Outside parse)
          → Untouched r.1
          → IsApart T Outside parse (tick_key s.name) start r.1
          → Untouched (◌>>◌ (λ _. r) (check_pause T Outside parse run) start).1
            × IsApart T Outside parse
                (tick_key s.name)
                start
                (◌>>◌ (λ _. r) (check_pause T Outside parse run) start).1
      go (err e, w) same apart = (same, apart)
      go (ok x, w) same apart =
          let still = ap is_true (apart pause_key (apart_keys s.name)) ∙ paused in
          let here = skipped run w still in
          (ap (λ v. v.outside) here ∙ same, λ k n. ap (setting T Outside parse k) here ∙ apart k n)
