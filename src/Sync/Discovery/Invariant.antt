-- ===== src/Sync/Discovery/Invariant.antt =====
-- What holds of every record of the discovery queue, and that a run keeps it.
use mathlib.Core.Bool.{true≢false}
use mathlib.Core.Option.{some-injective}
use text.Mathlib.Text.{starts_with}
use internship_pilot.Prelude.{
  ℕ, ◌≤◌, ◌<◌, ◌≡◌, ◌≢◌, refl, sym, ap, ◌∙◌, subst, arith, true, false, Option, none, some, List,
  [], ◌∷◌, String, differs, All, All-take, All-keep, All-map, is_some, Bool-cases, inl, inr, min,
  max, take, length,
}
use internship_pilot.Database.{Table, Every}
use internship_pilot.Database.Laws.{Every-update_at}
use internship_pilot.Program.{each, return, Keeps, Keeps-bind, Keeps-each-All}
use internship_pilot.Jobs.Sort.Sorted.{sort_by-All}
use internship_pilot.Sync.Discovery.{Signal, pending, retry, resolved, QueueRecord, Resolution}
use internship_pilot.Sync.Discovery.Queue.{
  Codec, event_prefix, is_waiting, is_due, max_attempts, conclude, parsed, add_record, due_items,
  process_item, process_live_discovery_queue, newest_first, report_from, no_reports,
}
use internship_pilot.Sync.Discovery.Enqueue.{cursor_key}

-- A new record has no attempts; a record that waits for a retry has some left; twelve attempts are
-- never exceeded; a resolved record says when.
pub record IsSound (r : QueueRecord) : Type 0 where
  pub bounded : r.attempts ≤ max_attempts
  pub fresh : r.state ≡ pending → r.attempts ≡ 0
  pub left : r.state ≡ retry → r.attempts < max_attempts
  pub tried : r.state ≢ pending → is_some r.last_attempt_at ≡ true
  pub dated : r.state ≡ resolved → is_some r.resolved_at ≡ true

pub conclude-IsSound :
    (now clock : ℕ) (r : QueueRecord) (result : Resolution)
    → is_waiting r.state ≡ true
    → IsSound r
    → IsSound (conclude now clock r result)
unfolding conclude
conclude-IsSound now clock r result w h = record {
  bounded = ground arith;
  fresh = λ e. ground arith;
  left = λ e. ground arith;
  tried = λ e. ground arith;
  dated = λ e. ground arith;
}

module _ (cd : Codec) (T : Table cd.Text) where
  open cd use {Text, stringify, parse}

  -- Every row but the cursor's that holds a record holds a sound one.
  abbrev pub AllSound : T.Tab → Type 0
  AllSound = Every T (λ k v. k ≢ cursor_key → (r : QueueRecord) → parse v ≡ some r → IsSound r)

  -- A due item is the record of a row under the prefix of events.
  abbrev pub IsRow : T.Tab → String × QueueRecord → Type 0
  IsRow t item =
      (v : Text) × (T.find_unique item.0 t ≡ some v)
      × (starts_with item.0 event_prefix ≡ true)
      × (parse v ≡ some item.1)

  add_record-IsRow :
      (t : T.Tab) (k : String) (v : Text) (o : Option QueueRecord)
      (rest : List (String × QueueRecord))
      → T.find_unique k t ≡ some v
      → starts_with k event_prefix ≡ true
      → parse v ≡ o
      → All (IsRow t) rest
      → All (IsRow t) (add_record cd T k o rest)
  add_record-IsRow t k v none rest f w e h = h
  add_record-IsRow t k v (some r) rest f w e h = ((v, f, w, e), h)

  parsed-IsRow :
      (t : T.Tab) (rows : List (String × Text))
      → All (λ p. (T.find_unique p.0 t ≡ some p.1) × (starts_with p.0 event_prefix ≡ true)) rows
      → All (IsRow t) (parsed cd T rows)
  parsed-IsRow t [] h = tt
  parsed-IsRow t ((k, v) ∷ rows) ((f, w), h) =
      add_record-IsRow t k v (parse v) (parsed cd T rows) f w refl (parsed-IsRow t rows h)

  pub due_items-All :
      (now limit : ℕ) (t : T.Tab)
      → All (λ item. IsRow t item × (is_due now item.1 ≡ true)) (due_items cd T now limit t)
  unfolding due_items
  due_items-All now limit t =
      let rows = take 1500 (T.find_many (λ k v. starts_with k event_prefix) t) in
      All-take _ (max 1 (min limit 200)) _ (
        sort_by-All newest_first _ _ (
          All-keep (IsRow t) (λ item. is_due now item.1) (parsed cd T rows)
            (parsed-IsRow t rows
              (All-take _ 1500 _ (T.find_many_sound (λ k v. starts_with k event_prefix) t)))))

  not_cursor : (k : String) → starts_with k event_prefix ≡ true → k ≢ cursor_key
  not_cursor k w e = absurd (true≢false (sym w ∙ ap (λ j. starts_with j event_prefix) e))

  module _ (now : ℕ) (clock : String → ℕ) (resolve : Signal → Resolution) where
    process_item-AllSound :
        (item : String × QueueRecord)
        → (item.0 ≢ cursor_key → IsSound item.1)
        → is_waiting item.1.state ≡ true
        → Keeps AllSound (process_item cd T now clock resolve item)
    unfolding process_item
    process_item-AllSound (k, r) h w t s = elim (Bool-cases (is_some (T.find_unique k t))) [
      | inl y ↦ rw y (
          Every-update_at T _ k _ _ t
            (λ _ _ _ _ n q e.
              subst IsSound (some-injective _ _ (sym (cd.parse-stringify _) ∙ e))
                (conclude-IsSound now (clock k) r (resolve r.signal) w (h n)))
            s)
      | inr n ↦ rw n s
    ]

    -- A run of the discovery queue keeps every record sound, whatever its resolutions are and
    -- whether or not a write throws on the way.
    pub process-AllSound :
        (limit : ℕ) → Keeps AllSound (process_live_discovery_queue cd T now clock resolve limit)
    unfolding process_live_discovery_queue
    process-AllSound limit t s =
        Keeps-bind AllSound
          (each (process_item cd T now clock resolve) (due_items cd T now limit t))
          (λ _. return (
            report_from cd T now clock resolve (due_items cd T now limit t)
              (no_reports (length (due_items cd T now limit t)))))
          (Keeps-each-All AllSound (process_item cd T now clock resolve)
            (due_items cd T now limit t)
            (All-map _ _ (due_items cd T now limit t)
              (λ (item : String × QueueRecord) d.
                let ((v, f, w, e), due) = d in
                process_item-AllSound item (λ n. s item.0 v f n item.1 e) (ground arith))
              (due_items-All now limit t)))
          (λ _ u q. q) t s

    pub item_elsewhere :
        (k : String) (item : String × QueueRecord) (t : T.Tab)
        → item.0 ≢ k
        → T.find_unique k (process_item cd T now clock resolve item t).1 ≡ T.find_unique k t
    unfolding process_item
    item_elsewhere k (j, r) t n = elim (Bool-cases (is_some (T.find_unique j t))) [
      | inl y ↦ rw y (T.update_at-find_unique j _ _ t k ∙ (rw (differs k j (λ e. n (sym e)))))
      | inr z ↦ rw z
    ]

    -- A run leaves a row alone unless the row holds a record that is due: a resolved, closed or
    -- abandoned signal is never processed again, and a retry waits for its time.
    pub process_untouched :
        (limit : ℕ) (t : T.Tab) (k : String) (v : Text)
        → T.find_unique k t ≡ some v
        → ((r : QueueRecord) → parse v ≡ some r → is_due now r ≡ false)
        → T.find_unique k (process_live_discovery_queue cd T now clock resolve limit t).1 ≡ some v
    unfolding process_live_discovery_queue
    process_untouched limit t k v f idle =
        let items = due_items cd T now limit t in
        let Same = λ (u : T.Tab). T.find_unique k u ≡ some v in
        let others =
          All-map _ (λ item. Keeps Same (process_item cd T now clock resolve item)) items
            (λ (item : String × QueueRecord) ((w, g, x, e), due) u same.
              item_elsewhere k item u (λ i. true≢false (
                sym due
                ∙ idle item.1 (
                    subst (λ a. parse a ≡ some item.1)
                      (some-injective _ _ (sym g ∙ (ap (λ a. T.find_unique a t) i ∙ f))) e)))
              ∙ same)
            (due_items-All now limit t) in
        Keeps-bind Same (each (process_item cd T now clock resolve) items)
          (λ _. return (report_from cd T now clock resolve items (no_reports (length items))))
          (Keeps-each-All Same (process_item cd T now clock resolve) items others) (λ _ u q. q) t f
