-- ===== src/Sync/Scheduler/Laws.antt =====
-- What one tick of a schedule leaves alone.
use internship_pilot.Prelude.{
  ℕ, ◌≡◌, ◌≢◌, refl, ◌∙◌, Bool, true, false, Option, none, some, String, differs, is_some,
}
use internship_pilot.Database.{Table}
use internship_pilot.Program.{Keeps, Keeps-bind}
use internship_pilot.Sync.Scheduler.{
  TickStatus, TickInfo, Setting, text, tick, Summary, Schedule, tick_key, next_tick, with_result,
  World, setting, insert, write_setting, upsert, tick_of, parsed_tick, get_tick, save_tick,
  schedule_next_tick, save_result, record_tick_result,
}

module _ (T : Table Setting) (Outside : Type 0) (parse : String → Option (Option TickInfo))
    (key : String) where
  -- Every setting but the one under the key is as it was.
  abbrev pub IsApart : World T Outside parse → World T Outside parse → Type 0
  IsApart start w =
      (k : String) → k ≢ key → setting T Outside parse k w ≡ setting T Outside parse k start

  module _ (start : World T Outside parse) where
    insert-IsApart :
        (o : Option T.Tab) (v : Setting) (w : World T Outside parse)
        → T.create (λ _ _. false) key v w.settings ≡ o
        → IsApart start w
        → IsApart start (insert T Outside parse o w).1
    insert-IsApart none v w e h k n = h k n
    insert-IsApart (some settings) v w e h k n =
        T.create-find_unique (λ _ _. false) key v w.settings settings k e
        ∙ (rw (differs k key n) (h k n))

    write-IsApart :
        (b : Bool) (v : Setting) → Keeps (IsApart start) (write_setting T Outside parse b key v)
    write-IsApart true v w h k n =
        T.update_at-find_unique key (λ _. true) (λ _. v) w.settings k
        ∙ (rw (differs k key n) (h k n))
    write-IsApart false v w h k n = insert-IsApart _ v w refl h k n

    upsert-IsApart : (v : Setting) → Keeps (IsApart start) (upsert T Outside parse key v)
    unfolding upsert
    upsert-IsApart v w h = write-IsApart (is_some (setting T Outside parse key w)) v w h

    parsed-IsApart :
        (o : Option (Option TickInfo)) → Keeps (IsApart start) (parsed_tick T Outside parse o)
    parsed-IsApart none w h = h
    parsed-IsApart (some t) w h = h

    tick_of-IsApart : (o : Option Setting) → Keeps (IsApart start) (tick_of T Outside parse o)
    tick_of-IsApart none w h = h
    tick_of-IsApart (some (tick t)) w h = h
    tick_of-IsApart (some (text v)) w h = parsed-IsApart (parse v) w h

module _ (T : Table Setting) (Outside : Type 0) (parse : String → Option (Option TickInfo))
    (name : String) (start : World T Outside parse) where
  abbrev pub Apart : World T Outside parse → Type 0
  Apart w = IsApart T Outside parse (tick_key name) start w

  get-Apart : Keeps Apart (get_tick T Outside parse name)
  unfolding get_tick
  get-Apart w h = tick_of-IsApart T Outside parse (tick_key name) start _ w h

  save-Apart : (t : TickInfo) → Keeps Apart (save_tick T Outside parse name t)
  unfolding save_tick
  save-Apart t = upsert-IsApart T Outside parse (tick_key name) start (tick t)

  result-Apart :
      (now : ℕ) (status : TickStatus) (r : Summary) (o : Option TickInfo)
      → Keeps Apart (save_result T Outside parse now name status r o)
  result-Apart now status r none = λ w h. h
  result-Apart now status r (some t) = save-Apart (with_result now status r t)

  pub record-Apart :
      (now : ℕ) (status : TickStatus) (r : Summary)
      → Keeps Apart (record_tick_result T Outside parse now name status r)
  unfolding record_tick_result
  record-Apart now status r =
      Keeps-bind Apart (get_tick T Outside parse name)
        (save_result T Outside parse now name status r) get-Apart (result-Apart now status r)

module _ (T : Table Setting) (Outside : Type 0) (parse : String → Option (Option TickInfo))
    (s : Schedule) (start : World T Outside parse) where
  abbrev pub Own : World T Outside parse → Type 0
  Own w = Apart T Outside parse s.name start w

  pub schedule-Own : (now : ℕ) → Keeps Own (schedule_next_tick T Outside parse now s)
  unfolding schedule_next_tick
  schedule-Own now =
      Keeps-bind Own (get_tick T Outside parse s.name)
        (λ t. save_tick T Outside parse s.name (next_tick now s t))
        (get-Apart T Outside parse s.name start)
        (λ t. save-Apart T Outside parse s.name start (next_tick now s t))
