-- ===== src/Sync/Discovery/Intake.antt =====
-- What taking in signals leaves as it is, and where the cursor stands.
use internship_pilot.Prelude.{
  ℕ, ◌≤◌, ◌≡◌, ◌≢◌, refl, ap, ◌∙◌, subst, arith, false, Option, none, some, List, [], ◌∷◌, ltb,
  String, differs, is_some, Bool-cases, Option-cases, inl, inr,
}
use internship_pilot.Database.{Table}
use internship_pilot.Database.Laws.{update_at_self}
use internship_pilot.Sync.Discovery.{Signal}
use internship_pilot.Sync.Discovery.Queue.{Codec}
use internship_pilot.Sync.Discovery.Enqueue.{
  cursor_key, CursorCodec, CursorRecord, fresh_record, create_records, upsert_cursor, later,
  latest_posted, enqueue_jobright_fresh_signals, find_cursor, position, cursor_of, new_signals,
  cursor_after,
}

later_bounds :
    (best t : Option ℕ) (p : ℕ) → best ≡ some p → (q : ℕ) × (later best t ≡ some q) × (p ≤ q)
later_bounds none t p e = cc
later_bounds (some b) none p e = (b, refl, ground arith)
later_bounds (some b) (some t) p e = elim (Bool-cases (ltb b t)) [
  | inl y ↦ (t, rw y, ground arith)
  | inr n ↦ (b, rw n, ground arith)
]

latest_posted_bounds :
    (signals : List Signal) (best : Option ℕ) (p : ℕ)
    → best ≡ some p
    → (q : ℕ) × (latest_posted best signals ≡ some q) × (p ≤ q)
unfolding latest_posted
latest_posted_bounds [] best p e = (p, e, omega arith)
latest_posted_bounds (s ∷ signals) best p e =
    let (q, f, l) = later_bounds best s.source_posted_at p e in
    let (m, g, k) = latest_posted_bounds signals (later best s.source_posted_at) q f in
    (m, g, omega arith)

module _ (cd : Codec) (cursors : CursorCodec cd.Text) (T : Table cd.Text)
    (event_key : String → String) where
  open cd use {Text}

  create_records_keeps :
      (now : ℕ) (signals : List Signal) (t : T.Tab) (k : String) (v : Text)
      → T.find_unique k t ≡ some v
      → T.find_unique k (create_records cd cursors T event_key now signals t) ≡ some v
  unfolding create_records
  create_records_keeps now [] t k v f = f
  create_records_keeps now (s ∷ signals) t k v f =
      elim (Option-cases (
        T.create (λ _ _. false) (event_key s.source_job_id) (cd.stringify (fresh_record now s))
          t)) [
            | inl n ↦ rw (n, create_records) (create_records_keeps now signals t k v f)
            | inr (u, e) ↦
                rw (e, create_records)
                  (create_records_keeps now signals u k v (
                    T.create-find_unique _ (event_key s.source_job_id) _ t u k e
                    ∙ rw (differs k (event_key s.source_job_id) (taken s t u k v f e)) f))
          ]
    where
      taken :
          (s : Signal) (t u : T.Tab) (k : String) (v : Text)
          → T.find_unique k t ≡ some v
          → T.create
              (λ _ _. false)
              (event_key s.source_job_id)
              (cd.stringify (fresh_record now s))
              t
            ≡ some u
          → k ≢ event_key s.source_job_id
      taken s t u k v f e i =
          let free = T.create_new_key _ (event_key s.source_job_id) _ t u e in
          let here = subst (λ j. T.find_unique j t ≡ some v) i f in cc

  upsert_cursor_elsewhere :
      (c : CursorRecord) (t : T.Tab) (k : String)
      → k ≢ cursor_key
      → T.find_unique k (upsert_cursor cd cursors T event_key c t) ≡ T.find_unique k t
  unfolding upsert_cursor
  upsert_cursor_elsewhere c t k n = elim (Bool-cases (is_some (T.find_unique cursor_key t))) [
    | inl y ↦ rw y (T.update_at-find_unique cursor_key _ _ t k ∙ rw (differs k cursor_key n))
    | inr z ↦ elim (Option-cases (T.create (λ _ _. false) cursor_key (cursors.stringify c) t)) [
      | inl e ↦ rw (z, e)
      | inr (u, e) ↦
          rw (z, e) (T.create-find_unique _ cursor_key _ t u k e ∙ rw (differs k cursor_key n))
    ]
  ]

  -- Taking in signals leaves every row of the queue as it is: a signal that is known, in whatever
  -- state, is not queued again.
  pub enqueue_keeps :
      (now : ℕ) (jobs : List Signal) (t : T.Tab) (k : String) (v : Text)
      → k ≢ cursor_key
      → T.find_unique k t ≡ some v
      → T.find_unique k (enqueue_jobright_fresh_signals cd cursors T event_key now jobs t).1
        ≡ some v
  unfolding enqueue_jobright_fresh_signals
  enqueue_keeps now jobs t k v n f =
      let signals = new_signals cd cursors T event_key now jobs t in
      upsert_cursor_elsewhere (cursor_after cd cursors T event_key now jobs t) _ k n
      ∙ create_records_keeps now signals t k v f

  cursor_row :
      (o : Option Text) (p : ℕ)
      → cursor_of cd cursors T event_key o ≡ some p
      → (v : Text) × (o ≡ some v)
  cursor_row none p e = cc
  cursor_row (some v) p e = (v, refl)

  upsert_cursor_self :
      (c : CursorRecord) (t : T.Tab) (v : Text)
      → T.find_unique cursor_key t ≡ some v
      → T.find_unique cursor_key (upsert_cursor cd cursors T event_key c t)
        ≡ some (cursors.stringify c)
  unfolding upsert_cursor
  upsert_cursor_self c t v f = rw f (update_at_self T cursor_key _ _ t ∙ rw f)

  -- The cursor never moves back: after a round it stands where the round says, which is not before
  -- where it stood.
  pub enqueue_cursor_bounds :
      (now : ℕ) (jobs : List Signal) (t : T.Tab) (p : ℕ)
      → find_cursor cd cursors T event_key t ≡ some p
      → let (report, u) = enqueue_jobright_fresh_signals cd cursors T event_key now jobs t in
        (q : ℕ) × (find_cursor cd cursors T event_key u ≡ some q)
        × (report.cursor_advanced_to ≡ some q)
        × (p ≤ q)
  unfolding enqueue_jobright_fresh_signals
  enqueue_cursor_bounds now jobs t p e =
      let (v, f) = cursor_row (T.find_unique cursor_key t) p e in
      let signals = new_signals cd cursors T event_key now jobs t in
      let c = cursor_after cd cursors T event_key now jobs t in
      let (q, g, l) = latest_posted_bounds jobs (find_cursor cd cursors T event_key t) p e in
      let row =
        upsert_cursor_self c (create_records cd cursors T event_key now signals t) v
          (create_records_keeps now signals t cursor_key v f) in
      (
        q,
        ap (cursor_of cd cursors T event_key) row
            ∙ (ap (position cd cursors T event_key) (cursors.parse-stringify c) ∙ g),
        g,
        l,
      )
