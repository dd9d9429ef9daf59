-- ===== src/Matching/Queue/Sound.antt =====
-- What holds of one row of the match queue, and that each kind of write keeps it.
use internship_pilot.Prelude.{ℕ, ◌≤◌, ◌<◌, ◌≡◌, refl, arith, Bool, true, false, String, is_some}
use internship_pilot.Program.{Failure}
use internship_pilot.Matching.Queue.{
  MatchState, pending, running, succeeded, retryable_failed, permanent_failed, is_running,
  is_claimable, state_eq, QueueItem, max_attempts,
}
use internship_pilot.Matching.Queue.Item.{
  interrupted, retired, claimed, finished, failed, is_retryable,
}

-- A row is locked exactly while it runs; a waiting row has attempts left; an ended row says when, and
-- a scored one which match.
pub record IsSound (r : QueueItem) : Type 0 where
  pub bounded : r.attempt_count ≤ max_attempts
  pub fresh : r.state ≡ pending → r.attempt_count ≡ 0
  pub counted : r.state ≡ running → 0 < r.attempt_count
  pub left : r.state ≡ retryable_failed → r.attempt_count < max_attempts
  pub locked : is_some r.locked_at ≡ is_running r.state
  pub scored : r.state ≡ succeeded → is_some r.match_result_id ≡ true
  pub ended :
      is_claimable r.state ≡ false → is_running r.state ≡ false → is_some r.completed_at ≡ true

pub interrupted-IsSound : (now : ℕ) (r : QueueItem) → IsSound r → IsSound (interrupted now r)
interrupted-IsSound now r h = ground arith

pub retired-IsSound : (now : ℕ) (c : String) (r : QueueItem) → IsSound r → IsSound (retired now c r)
retired-IsSound now c r h = ground arith

pub claimed-IsSound :
    (now : ℕ) (r : QueueItem) → is_claimable r.state ≡ true → IsSound r → IsSound (claimed now r)
claimed-IsSound now r c h = ground arith

pub finished-IsSound :
    (now : ℕ) (m : String) (r : QueueItem) → IsSound r → IsSound (finished now m r)
finished-IsSound now m r h = ground arith

pub failed-IsSound :
    (now next : ℕ) (b : Bool) (c : String) (r : QueueItem)
    → (b ≡ true → r.attempt_count < max_attempts)
    → IsSound r
    → IsSound (failed now b next c r)
failed-IsSound now next true c r l h = ground (arith, l refl)
failed-IsSound now next false c r l h = ground arith

pub failed-attempt_count :
    (now next : ℕ) (b : Bool) (c : String) (r : QueueItem)
    → (failed now b next c r).attempt_count ≡ r.attempt_count
failed-attempt_count now next true c r = refl
failed-attempt_count now next false c r = refl

pub is_retryable-lt : (e : Failure) (n : ℕ) → is_retryable e n ≡ true → n < max_attempts
unfolding is_retryable
is_retryable-lt e n h = ground arith

pub claimable_of_eq :
    (a b : MatchState) → state_eq a b ≡ true → is_claimable b ≡ true → is_claimable a ≡ true
claimable_of_eq a b e h = ground arith

pub state_eq_refl : (a : MatchState) → state_eq a a ≡ true
state_eq_refl pending = refl
state_eq_refl running = refl
state_eq_refl succeeded = refl
state_eq_refl retryable_failed = refl
state_eq_refl permanent_failed = refl
