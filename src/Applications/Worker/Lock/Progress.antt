-- ===== src/Applications/Worker/Lock/Progress.antt =====
-- A lock that may be taken is taken, and only its holder removes it.
use internship_pilot.Prelude.{
  ℕ, ◌≡◌, ◌≢◌, refl, sym, ap, ◌∙◌, true, false, Option, none, some, String, str_eq_refl, differs,
  ==_iff,
}
use internship_pilot.Prelude.Int.{pos}
use internship_pilot.Applications.Worker.Lock.{
  LockData, Content, Machine, World, read_content, read_worker_lock, new_lock, Outcome, held,
  duplicate, terminate_stuck, clear_file, unless_error, yield_or_clear, open_or_clear,
  attempt_acquire, next_turn, acquire_turns, acquire_application_worker_lock, is_own, release,
}
use internship_pilot.Applications.Worker.Lock.Laws.{may_replace, may_take, acquire_held}

module _ (m : Machine) (profile_path : String) where
  cleared :
      (o : Option LockData) (w : World)
      → m.unlink_error ≡ false
      → may_replace m o ≡ true
      → (v : World) × (yield_or_clear m o w ≡ (none, v)) × (v.file ≡ none)
  cleared none w e h = (record w { file = none }, ap (λ b. clear_file b w) e, refl)
  cleared (some lock) w e h = (
    record (terminate_stuck m lock w) { file = none },
    rw h (ap (λ b. clear_file b (terminate_stuck m lock w)) e),
    refl,
  )

  kept_out :
      (o : Option LockData) (w : World)
      → may_replace m o ≡ false
      → yield_or_clear m o w ≡ (some (duplicate o), w)
  kept_out none w h = cc
  kept_out (some lock) w h = rw h

  turn_free :
      (attempt : ℕ) (w : World)
      → m.open_error ≡ false
      → w.file ≡ none
      → (attempt_acquire m attempt profile_path w).0 ≡ some (held (new_lock m attempt profile_path))
  unfolding attempt_acquire new_lock
  turn_free attempt w e f =
      ap (λ b. (unless_error b (open_or_clear m attempt profile_path w.file w) w).0) e
      ∙ ap (λ o. (open_or_clear m attempt profile_path o w).0) f

  turn_cleared :
      (w : World) (c : Content)
      → w.file ≡ some c
      → m.open_error ≡ false
      → m.unlink_error ≡ false
      → may_take m (some c) ≡ true
      → (v : World) × (attempt_acquire m 0 profile_path w ≡ (none, v)) × (v.file ≡ none)
  unfolding attempt_acquire read_worker_lock
  turn_cleared w c f e g h =
      let (v, turn, free) = cleared (read_content w.file) w g (rw f h) in
      let opened = ap (λ b. unless_error b (open_or_clear m 0 profile_path w.file w) w) e in
      (v, opened ∙ (ap (λ o. open_or_clear m 0 profile_path o w) f ∙ turn), free)

  turn_refused :
      (w : World) (c : Content)
      → w.file ≡ some c
      → m.open_error ≡ false
      → may_take m (some c) ≡ false
      → attempt_acquire m 0 profile_path w ≡ (some (duplicate (read_worker_lock w)), w)
  unfolding attempt_acquire read_worker_lock
  turn_refused w c f e h =
      let opened = ap (λ b. unless_error b (open_or_clear m 0 profile_path w.file w) w) e in
      opened
      ∙ (ap (λ o. open_or_clear m 0 profile_path o w) f ∙ kept_out (read_content w.file) w (rw f h))

  abbrev first_of : Option Outcome → Outcome → Outcome
  first_of none o = o
  first_of (some p) o = p

  decided :
      (r : Option Outcome × World) (rest : World → Outcome × World) (o : Outcome)
      → r.0 ≡ some o
      → (next_turn r rest).0 ≡ o
  decided (some p, w) rest o e = ap (λ q. first_of q o) e
  decided (none, w) rest o e = cc

  taken :
      (o : Option Content) (w : World)
      → w.file ≡ o
      → m.open_error ≡ false
      → m.unlink_error ≡ false
      → may_take m o ≡ true
      → (d : LockData) × ((acquire_application_worker_lock m profile_path w).0 ≡ held d)
  unfolding acquire_application_worker_lock acquire_turns
  taken none w f e g h = (new_lock m 0 profile_path, decided _ _ _ (turn_free 0 w e f))
  taken (some c) w f e g h =
      let (v, turn, free) = turn_cleared w c f e g h in
      (
        new_lock m 1 profile_path,
        rw turn (decided (attempt_acquire m 1 profile_path v) _ _ (turn_free 1 v e free)),
      )

  refused :
      (o : Option Content) (w : World)
      → w.file ≡ o
      → m.open_error ≡ false
      → may_take m o ≡ false
      → acquire_application_worker_lock m profile_path w ≡ (duplicate (read_worker_lock w), w)
  unfolding acquire_application_worker_lock acquire_turns
  refused none w f e h = cc
  refused (some c) w f e h = rw (turn_refused w c f e h) refl

  -- Where the file system works, two turns are enough: a worker takes every lock that is free, names
  -- no worker or names one that is gone. Any other lock is reported as held, and neither the file
  -- nor the process of its holder is touched.
  pub acquire_progress :
      (w : World)
      → m.open_error ≡ false
      → m.unlink_error ≡ false
      → (may_take m w.file ≡ true
          → (d : LockData) × ((acquire_application_worker_lock m profile_path w).0 ≡ held d))
        × (may_take m w.file ≡ false
            → acquire_application_worker_lock m profile_path w
              ≡ (duplicate (read_worker_lock w), w))
  acquire_progress w e g = (taken w.file w refl e g, refused w.file w refl e)

owned : (m : Machine) (d : LockData) → d.pid ≡ pos m.own_pid → is_own m d (some d) ≡ true
owned m d p = rw (p, str_eq_refl d.token) ((==_iff m.own_pid m.own_pid).1 refl)

-- A worker that got the lock and releases it, with only releases by other tokens in between, leaves no
-- file, if the file system lets it remove the file, and otherwise leaves the file as it is. A
-- release by another token, of this or of another process, changes nothing. Nothing is said of a lock
-- that another worker replaced before the release.
pub acquire-release :
    (m other : Machine) (profile_path : String) (w : World) (d e : LockData) (u : World)
    → acquire_application_worker_lock m profile_path w ≡ (held d, u)
    → e.token ≢ d.token
    → ((m.unlink_error ≡ false) → (release m d (release other e u)).file ≡ none)
      × ((m.unlink_error ≡ true) → release m d (release other e u) ≡ u)
      × (release other e u ≡ u)
unfolding release
acquire-release m other profile_path w d e u got differ =
    let (may, read, own) = acquire_held m profile_path w d u got in
    let idle : release other e u ≡ u =
      rw (read, differs d.token e.token (λ q. differ (sym q))) refl in
    (
      λ works. ap (λ v. (release m d v).file) idle ∙ rw (read, owned m d own) (rw works refl),
      λ fails. ap (λ v. release m d v) idle ∙ rw (read, owned m d own) (rw fails refl),
      idle,
    )
