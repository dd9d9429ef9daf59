-- ===== src/Sync/Discovery/Rounds.antt =====
-- How often the runs of the discovery queue (src/lib/sync/liveDiscoveryQueue.ts) take up one signal.
use mathlib.Core.Option.{some-injective}
use internship_pilot.Prelude.{
  ℕ, zero, suc, ◌+◌, ◌≤◌, ◌<◌, ◌≡◌, ◌≢◌, refl, sym, ap, ◌∙◌, arith, true, false, String, All, OneOf,
  Bool-cases, inl, inr,
}
use internship_pilot.Database.{Table}
use internship_pilot.Sync.Discovery.{QueueRecord, Resolution}
use internship_pilot.Sync.Discovery.Queue.{Codec, is_waiting, max_attempts, conclude}
use internship_pilot.Sync.Discovery.Run.{QueueRun, due_of, after_run, Holds, run_takes, run_passes}

conclude_attempts :
    (now clock : ℕ) (r : QueueRecord) (result : Resolution)
    → ((conclude now clock r result).attempts ≡ r.attempts + 1)
      × (is_waiting (conclude now clock r result).state ≡ true
          → (conclude now clock r result).attempts < max_attempts)
unfolding conclude
conclude_attempts now clock r result = (refl, λ w. ground arith)

next_bound :
    (m attempts first : ℕ)
    → attempts ≡ first + m
    → (0 < m → attempts < max_attempts)
    → suc m ≤ max_attempts
next_bound zero attempts first e l = omega arith
next_bound (suc m) attempts first e l = let b = l (omega arith) in omega (arith, e, b)

module _ (cd : Codec) (T : Table cd.Text) (k : String) where
  open cd use {Text, stringify, parse}

  -- The runs from one table to another, one after the other, and how many of them took the signal up.
  pub data Runs (t : T.Tab) : ℕ → T.Tab → Type 0 where
    none_yet : Runs t 0 t
    took :
        {n : ℕ} {u : T.Tab}
        → Runs t n u
        → (run : QueueRun) (q : QueueRecord) → OneOf (k, q) (due_of cd T k run u)
        → Runs t (suc n) (after_run cd T k run u)
    passed :
        {n : ℕ} {u : T.Tab}
        → Runs t n u
        → (run : QueueRun) → All (λ item. item.0 ≢ k) (due_of cd T k run u)
        → Runs t n (after_run cd T k run u)

  -- What is known of the signal's row after it was taken up a number of times.
  abbrev pub IsCounted : ℕ → QueueRecord → T.Tab → Type 0
  IsCounted n first u =
      (q : QueueRecord) × Holds cd T k q u
      × (n ≤ max_attempts)
      × (q.attempts ≡ first.attempts + n)
      × (0 < n → is_waiting q.state ≡ true → q.attempts < max_attempts)

  Runs-IsCounted :
      (first : QueueRecord) (t : T.Tab) (n : ℕ) (u : T.Tab)
      → Holds cd T k first t
      → Runs t n u
      → IsCounted n first u
  Runs-IsCounted first t n u h none_yet =
      (first, h, omega arith, omega arith, λ l. absurd (omega arith))
  Runs-IsCounted first t n u h (took {n = m} {u = before} runs run q one) =
      let (r, (v, f, e), bound, count, left) = Runs-IsCounted first t m before h runs in
      let ((v', f', e'), waits, now) = run_takes cd T k run before q one in
      let texts : v ≡ v' = some-injective _ _ (sym f ∙ f') in
      let same : r ≡ q = some-injective _ _ (sym e ∙ (ap parse texts ∙ e')) in
      let (more, less) = conclude_attempts run.now (run.clock k) q (run.resolve q.signal) in
      let still = left_of m r q same left waits in
      (
        conclude run.now (run.clock k) q (run.resolve q.signal),
        now,
        next_bound m r.attempts first.attempts count still,
        more ∙ (omega (arith, ap (λ (x : QueueRecord). x.attempts) same, count)),
        λ _. less,
      )
    where
      left_of :
          (m : ℕ) (r q : QueueRecord)
          → r ≡ q
          → (0 < m → is_waiting r.state ≡ true → r.attempts < max_attempts)
          → is_waiting q.state ≡ true
          → 0 < m
          → r.attempts < max_attempts
      left_of m r q same left waits pos =
          left pos (ap (λ (x : QueueRecord). is_waiting x.state) same ∙ waits)
  Runs-IsCounted first t n u h (passed runs run others) =
      let (r, holds, bound, count, left) = Runs-IsCounted first t n _ h runs in
      (r, run_passes cd T k run _ r others holds, bound, count, left)

  -- Over any sequence of whole runs of the discovery queue, whatever they resolve signals to and
  -- whenever they come, a signal is taken up at most twelve times, and its record counts each of
  -- them. Once it was taken up twelve times, it is resolved, closed or abandoned. Nothing is said of
  -- how long a due signal waits to be taken up.
  pub Runs-end :
      (first : QueueRecord) (t : T.Tab) (n : ℕ) (u : T.Tab)
      → Holds cd T k first t
      → Runs t n u
      → (q : QueueRecord) × Holds cd T k q u
        × (n ≤ max_attempts)
        × (q.attempts ≡ first.attempts + n)
        × (n ≡ max_attempts → is_waiting q.state ≡ false)
  Runs-end first t n u h runs =
      let (q, holds, bound, count, left) = Runs-IsCounted first t n u h runs in
      (
        q,
        holds,
        bound,
        count,
        λ e. elim (Bool-cases (is_waiting q.state)) [
          | inl w ↦ absurd (omega (arith, count, e, left (omega arith) w))
          | inr z ↦ z
        ],
      )
