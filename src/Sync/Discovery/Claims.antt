-- ===== src/Sync/Discovery/Claims.antt =====
-- What becomes of one signal, and of the signals that are taken in.
use internship_pilot.Prelude.{ℕ, zero, suc, ◌+◌, ◌*◌, ◌≤◌, ◌≡◌, ◌≢◌, ◌⊎◌, ◌↔◌, arith, true, min}
use internship_pilot.Sync.Discovery.{
  pending, retry, resolved, closed, abandoned, QueueRecord, Resolution, found, gone, again,
}
use internship_pilot.Sync.Discovery.Queue.{
  is_too_old, max_attempts, conclude, retry_minutes, next_retry_at,
}

retry_minutes_bounds :
    (attempts : ℕ) → 1 ≤ attempts → (20 ≤ retry_minutes attempts) × (retry_minutes attempts ≤ 120)
unfolding retry_minutes
retry_minutes_bounds zero l = absurd (omega arith)
retry_minutes_bounds (suc zero) l = (omega arith, omega arith)
retry_minutes_bounds (suc (suc zero)) l = (omega arith, omega arith)
retry_minutes_bounds (suc (suc (suc zero))) l = (omega arith, omega arith)
retry_minutes_bounds (suc (suc (suc (suc n)))) l =
    let four : min (suc (suc (suc (suc n)))) 4 ≡ 4 = omega arith in
    rw four (omega arith, omega arith)

-- A signal that could not be resolved waits again, between twenty minutes and two hours from the
-- present, unless this was its twelfth attempt or the signal is over a week old: then it is
-- abandoned. One that was resolved or found closed keeps that state.
pub conclude_cases :
    (now clock : ℕ) (r : QueueRecord) (result : Resolution)
    → let q = conclude now clock r result in
      ((q.state ≡ resolved) ↔ (result.state ≡ found))
      × ((q.state ≡ closed) ↔ (result.state ≡ gone))
      × ((q.state ≡ abandoned) ↔ (
          (result.state ≡ again)
          × ((max_attempts ≤ q.attempts) ⊎ (is_too_old now r.signal ≡ true))))
      × (q.state ≢ pending)
      × (q.state ≡ retry
          → (clock + 20 * 60_000 ≤ q.next_attempt_at) × (q.next_attempt_at ≤ clock + 120 * 60_000))
unfolding conclude next_retry_at
conclude_cases now clock r result = (
  (λ e. ground arith, λ e. ground arith),
  (λ e. ground arith, λ e. ground arith),
  (λ e. (ground arith, ground arith), λ e. ground arith),
  λ e. ground arith,
  λ e. ground (arith, retry_minutes_bounds (r.attempts + 1)),
)
