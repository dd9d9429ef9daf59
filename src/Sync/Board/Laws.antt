-- ===== src/Sync/Board/Laws.antt =====
-- When a posting is closed for having left its board.
use mathlib.Core.Option.{some-injective}
use internship_pilot.Prelude.{
  ℕ, ◌≤◌, ◌≡◌, ◌≢◌, inl, inr, refl, sym, ap, ◌∙◌, subst, arith, eq_iff, Bool, true, false, not,
  Option, none, some, List, [], ◌∷◌, String, str_eq, keep, length, includes, ◌==◌, All, All-keep,
  All-map, Bool-cases,
}
use internship_pilot.Database.{Table, patched}
use internship_pilot.Sync.Board.{
  BoardJob, BoardDelta, is_off, is_missing, is_to_close, ids, compute_board_delta, distinct,
  seen_again, missed_first, missed_again, closed, is_tracked, within, write_delta, tracked_jobs,
  first_misses, reconcile_official_board_delta,
}

-- An id of a list comes from one of its rows.
includes-ids :
    (P : String → BoardJob → Type 0) (rows : List (String × BoardJob)) (k : String)
    → All (λ p. P p.0 p.1) rows
    → includes (ids rows) k ≡ true
    → (job : BoardJob) × P k job
includes-ids P [] k h e = cc
includes-ids P ((id, job) ∷ rows) k (p, h) e = elim (Bool-cases (str_eq id k)) [
  | inl y ↦ (job, subst (λ i. P i job) ((eq_iff id k).0 y) p)
  | inr n ↦ includes-ids P rows k h (ground arith)
]

module _ (T : Table BoardJob) where
  -- What a row keeps through an update of other columns.
  patched-closed_at :
      (w : BoardJob → Bool) (f : BoardJob → BoardJob) (o : Option BoardJob) (c : Option ℕ)
      → ((job : BoardJob) → (f job).closed_at ≡ job.closed_at)
      → ((job : BoardJob) → o ≡ some job → job.closed_at ≡ c)
      → (job : BoardJob) → patched w f o ≡ some job
      → job.closed_at ≡ c
  patched-closed_at w f none c keep h job e = cc
  patched-closed_at w f (some r) c keep h job e = elim (Bool-cases (w r)) [
    | inl y ↦
        ap (λ (j : BoardJob). j.closed_at) (sym (some-injective _ _ (rw y at e)))
        ∙ (keep r ∙ h r refl)
    | inr n ↦ ap (λ (j : BoardJob). j.closed_at) (sym (some-injective _ _ (rw n at e))) ∙ h r refl
  ]

  update_many-closed_at :
      (list : List String) (f : BoardJob → BoardJob) (t : T.Tab) (k : String) (c : Option ℕ)
      → ((job : BoardJob) → (f job).closed_at ≡ job.closed_at)
      → ((job : BoardJob) → T.find_unique k t ≡ some job → job.closed_at ≡ c)
      → (job : BoardJob) → T.find_unique k (T.update_many (within T list) f t) ≡ some job
      → job.closed_at ≡ c
  update_many-closed_at list f t k c keep h job e =
      patched-closed_at (λ (j : BoardJob). includes list k) f (T.find_unique k t) c keep h job
        (sym (T.update_many-find_unique (within T list) f t k) ∙ e)

  update_many_outside :
      (list : List String) (f : BoardJob → BoardJob) (t : T.Tab) (k : String)
      → includes list k ≡ false
      → T.find_unique k (T.update_many (within T list) f t) ≡ T.find_unique k t
  update_many_outside list f t k n =
      T.update_many-find_unique (within T list) f t k ∙ outside (T.find_unique k t)
    where
      outside : (o : Option BoardJob) → patched (λ (j : BoardJob). includes list k) f o ≡ o
      outside none = refl
      outside (some r) = rw n

  write_delta-closed_at :
      (now : ℕ) (first again : List String) (delta : BoardDelta) (t : T.Tab) (k : String)
      (r q : BoardJob)
      → T.find_unique k t ≡ some r
      → T.find_unique k (write_delta T now first again delta t) ≡ some q
      → includes delta.close_job_ids k ≡ false
      → q.closed_at ≡ r.closed_at
  unfolding write_delta
  write_delta-closed_at now first again delta t k r q f g n =
      let t1 = T.update_many (within T delta.present_job_ids) seen_again t in
      let t2 = T.update_many (within T first) (missed_first now) t1 in
      let t3 = T.update_many (within T again) missed_again t2 in
      update_many-closed_at again missed_again t2 k r.closed_at (λ j. refl)
        (update_many-closed_at first (missed_first now) t1 k r.closed_at (λ j. refl)
          (update_many-closed_at delta.present_job_ids seen_again t k r.closed_at (λ j. refl)
            (λ job e. ap (λ (j : BoardJob). j.closed_at) (some-injective _ _ (sym e ∙ f)))))
        q (sym (update_many_outside delta.close_job_ids (closed now) t3 k n) ∙ g)

  -- What makes a row one to close.
  abbrev pub IsGone :
      List String → String → String → Option String → T.Tab → String → BoardJob → Type 0
  IsGone current company provider tenant t k job =
      (T.find_unique k t ≡ some job)
      × (is_tracked company provider tenant job ≡ true)
      × (is_off current job.source_job_id ≡ true)
      × (1 ≤ job.consecutive_board_misses)

  close_ids-IsGone :
      (previous current : List String) (company provider : String) (tenant : Option String)
      (t : T.Tab) (k : String)
      → includes
          (compute_board_delta previous current
            (tracked_jobs T company provider tenant t)
            true).close_job_ids
          k
        ≡ true
      → (job : BoardJob) × IsGone current company provider tenant t k job
  unfolding compute_board_delta
  close_ids-IsGone previous current company provider tenant t k e =
      let tracked = tracked_jobs T company provider tenant t in
      includes-ids (IsGone current company provider tenant t)
        (keep is_to_close (keep (is_missing current) tracked)) k
        (All-map _ _ _ (λ (p : String × BoardJob) (((f, w), off), two). (f, w, off, ground arith))
          (All-keep _ is_to_close (keep (is_missing current) tracked) (
            All-keep _ (is_missing current) tracked
              (T.find_many_sound (λ k job. is_tracked company provider tenant job) t))))
        e

  -- A reconciliation closes a posting only where it is a tracked one, is absent from the board that
  -- was just read, and was already absent the time before; every other row keeps its closing date.
  pub reconcile_closed :
      (now : ℕ) (company provider : String) (tenant : Option String) (previous board : List String)
      (t : T.Tab) (k : String) (r q : BoardJob)
      → T.find_unique k t ≡ some r
      → T.find_unique k
          (reconcile_official_board_delta T now company provider tenant previous board t).2
        ≡ some q
      → q.closed_at ≢ r.closed_at
      → (is_tracked company provider tenant r ≡ true)
        × (is_off (distinct board) r.source_job_id ≡ true)
        × (1 ≤ r.consecutive_board_misses)
  unfolding reconcile_official_board_delta
  reconcile_closed now company provider tenant previous board t k r q f g n =
      let current = distinct board in
      let tracked = tracked_jobs T company provider tenant t in
      let delta = compute_board_delta previous current tracked true in
      let first = first_misses T delta.missing_job_ids tracked in
      let again = keep (λ id. not (includes first id)) delta.missing_job_ids in
      elim (Bool-cases (length current == 0)) [
        | inl y ↦
            absurd
              (n (ap (λ (j : BoardJob). j.closed_at) (some-injective _ _ (sym (rw y at g) ∙ f))))
        | inr z ↦ elim (Bool-cases (includes delta.close_job_ids k)) [
          | inr out ↦
              absurd (n (write_delta-closed_at now first again delta t k r q f (rw z at g) out))
          | inl chosen ↦
              let (job, (h, w, off, two)) =
                close_ids-IsGone previous current company provider tenant t k chosen in
              let same : job ≡ r = some-injective _ _ (sym h ∙ f) in
              subst
                (λ (j : BoardJob).
                  (is_tracked company provider tenant j ≡ true)
                  × (is_off current j.source_job_id ≡ true)
                  × (1 ≤ j.consecutive_board_misses))
                same (w, off, two)
        ]
      ]
