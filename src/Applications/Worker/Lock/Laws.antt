-- ===== src/Applications/Worker/Lock/Laws.antt =====
-- Who may take the worker's lock, and who may remove it.
use internship_pilot.Prelude.{
  ℕ, zero, suc, ◌≡◌, ◌≢◌, refl, sym, ap, ◌∙◌, Bool, true, false, Option, none, some, String,
  Bool-cases, inl, inr, ◌⊎◌,
}
use internship_pilot.Prelude.Int.{pos}
use internship_pilot.Applications.Worker.Lock.{
  LockData, Content, Machine, World, read_content, read_worker_lock, stringified, new_lock,
  is_stale, Outcome, held, terminate_stuck, clear_file, unless_error, yield_or_clear, open_or_clear,
  attempt_acquire, next_turn, acquire_turns, acquire_application_worker_lock,
}

-- The lock is free, or its file names no worker, or the worker that it names is gone.
abbrev pub may_replace : Machine → Option LockData → Bool
may_replace m none = true
may_replace m (some lock) = is_stale m lock

abbrev pub may_take : Machine → Option Content → Bool
may_take m none = true
may_take m (some c) = may_replace m (read_content (some c))

-- What a turn that takes the lock leaves.
abbrev IsTaken : Machine → LockData → World → Type 0
IsTaken m d u = (u.file ≡ some (stringified d)) × (d.pid ≡ pos m.own_pid)

module _ (m : Machine) (profile_path : String) where
  clear_not_held :
      (b : Bool) (w : World) (d : LockData) (u : World) → clear_file b w ≢ (some (held d), u)
  clear_not_held true w d u e = let e' = ap (λ z. z.0) e in cc
  clear_not_held false w d u e = let e' = ap (λ z. z.0) e in cc

  replace_not_held :
      (o : Option LockData) (w : World) (d : LockData) (u : World)
      → yield_or_clear m o w ≢ (some (held d), u)
  replace_not_held none w d u e = clear_not_held m.unlink_error w d u e
  replace_not_held (some lock) w d u e = elim (Bool-cases (is_stale m lock)) [
    | inl y ↦ clear_not_held m.unlink_error (terminate_stuck m lock w) d u (rw y at e)
    | inr n ↦ let e' = ap (λ z. z.0) (rw n at e) in cc
  ]

  replace_again :
      (o : Option LockData) (w v : World)
      → yield_or_clear m o w ≡ (none, v)
      → may_replace m o ≡ true
  replace_again none w v e = refl
  replace_again (some lock) w v e = elim (Bool-cases (is_stale m lock)) [
    | inl y ↦ y
    | inr n ↦ let e' = ap (λ z. z.0) (rw n at e) in cc
  ]

  abbrev taken_lock : Option Outcome → LockData → LockData
  taken_lock (some (held d)) other = d
  taken_lock _ other = other

  open_held :
      (attempt : ℕ) (o : Option Content) (w : World) (d : LockData) (u : World)
      → open_or_clear m attempt profile_path o w ≡ (some (held d), u)
      → (o ≡ none) × IsTaken m d u
  unfolding new_lock
  open_held attempt none w d u e =
      let lock : new_lock m attempt profile_path ≡ d = ap (λ z. taken_lock z.0 d) e in
      let file = sym (ap (λ z. z.1.file) e) ∙ ap (λ x. some (stringified x)) lock in
      (refl, (file, ap (λ x. x.pid) (sym lock)))
  open_held attempt (some c) w d u e = absurd (replace_not_held (read_worker_lock w) w d u e)

  open_again :
      (attempt : ℕ) (o : Option Content) (w v : World)
      → w.file ≡ o
      → open_or_clear m attempt profile_path o w ≡ (none, v)
      → may_take m o ≡ true
  unfolding read_worker_lock
  open_again attempt none w v f e = refl
  open_again attempt (some c) w v f e =
      ap (λ o. may_replace m (read_content o)) (sym f) ∙ replace_again (read_content w.file) w v e

  no_error :
      (b : Bool) (turn : Option Outcome × World) (w : World) (d : LockData) (u : World)
      → unless_error b turn w ≡ (some (held d), u)
      → turn ≡ (some (held d), u)
  no_error true turn w d u e = let e' = ap (λ z. z.0) e in cc
  no_error false turn w d u e = e

  no_error_again :
      (b : Bool) (turn : Option Outcome × World) (w v : World)
      → unless_error b turn w ≡ (none, v)
      → turn ≡ (none, v)
  no_error_again true turn w v e = let e' = ap (λ z. z.0) e in cc
  no_error_again false turn w v e = e

  turn_held :
      (attempt : ℕ) (w : World) (d : LockData) (u : World)
      → attempt_acquire m attempt profile_path w ≡ (some (held d), u)
      → (may_take m w.file ≡ true) × IsTaken m d u
  unfolding attempt_acquire
  turn_held attempt w d u e =
      let (f, t) = open_held attempt w.file w d u (no_error m.open_error _ w d u e) in
      (ap (may_take m) f, t)

  turn_again :
      (attempt : ℕ) (w v : World)
      → attempt_acquire m attempt profile_path w ≡ (none, v)
      → may_take m w.file ≡ true
  unfolding attempt_acquire
  turn_again attempt w v e =
      open_again attempt w.file w v refl (no_error_again m.open_error _ w v e)

  after_turn :
      (r : Option Outcome × World) (rest : World → Outcome × World) (d : LockData) (u : World)
      → next_turn r rest ≡ (held d, u)
      → (r ≡ (some (held d), u)) ⊎ ((v : World) × (r ≡ (none, v)) × (rest v ≡ (held d, u)))
  after_turn (some o, w) rest d u e = inl (ap (λ z. (some z.0, z.1)) e)
  after_turn (none, w) rest d u e = inr (w, refl, e)

  turns_held :
      (left attempt : ℕ) (w : World) (d : LockData) (u : World)
      → acquire_turns m left attempt profile_path w ≡ (held d, u)
      → (may_take m w.file ≡ true) × IsTaken m d u
  unfolding acquire_turns
  turns_held zero attempt w d u e = let e' = ap (λ z. z.0) e in cc
  turns_held (suc left) attempt w d u e =
      elim (after_turn (attempt_acquire m attempt profile_path w)
        (acquire_turns m left (suc attempt) profile_path) d u e) [
          | inl now ↦ turn_held attempt w d u now
          | inr (v, again, rest) ↦
              (turn_again attempt w v again, (turns_held left (suc attempt) v d u rest).1)
        ]

  -- A worker gets the lock only where the file did not exist, or named no worker, or named a process
  -- that is gone or that neither answers nor wrote a heartbeat for ten seconds. Then the file is
  -- readable, and names the worker's own process and token.
  pub acquire_held :
      (w : World) (d : LockData) (u : World)
      → acquire_application_worker_lock m profile_path w ≡ (held d, u)
      → (may_take m w.file ≡ true) × (read_worker_lock u ≡ some d) × (d.pid ≡ pos m.own_pid)
  unfolding acquire_application_worker_lock read_worker_lock
  acquire_held w d u e =
      let (may, (file, own)) = turns_held 2 0 w d u e in (may, ap read_content file, own)
