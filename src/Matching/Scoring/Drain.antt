-- ===== src/Matching/Scoring/Drain.antt =====
-- The drain of the scoring queue ends, and leaves nothing queued.
use internship_pilot.Prelude.{
  ℕ, zero, suc, ◌≤◌, ◌<◌, ◌≡◌, refl, sym, ap, subst, ◌∙◌, arith, true, false, not, List, [], ◌∷◌,
  String, str_eq, eq_iff, length, keep, includes, Bool-cases, inl, inr,
}
use internship_pilot.Database.{Table}
use internship_pilot.Program.{Program, Result, ok, return, bind-ok}
use internship_pilot.Matching.Scoring.{
  JobRow, Store, Scorer, score_next_queued_job, counted, drain_scoring_queue,
}
use internship_pilot.Matching.Scoring.Round.{
  queued_row, waits_of_queued, KeepsStates, waits_at, IsEnded, score_next_queued_job-Progress,
}

abbrev without : String → List String → List String
without id ids = keep (λ j. not (str_eq j id)) ids

without_shorter : (id : String) (ids : List String) → length (without id ids) ≤ length ids
without_shorter id [] = omega arith
without_shorter id (j ∷ ids) = ground (arith, without_shorter id ids)

without_fewer :
    (id : String) (ids : List String)
    → includes ids id ≡ true
    → length (without id ids) < length ids
without_fewer id [] h = cc
without_fewer id (j ∷ ids) h = ground (arith, without_shorter id ids, without_fewer id ids)

includes-without :
    (id : String) (ids : List String) (j : String)
    → str_eq j id ≡ false
    → includes ids j ≡ true
    → includes (without id ids) j ≡ true
includes-without id [] j d h = h
includes-without id (i ∷ ids) j d h =
    ground (arith, includes-without id ids j d, eq_iff i id, eq_iff j id, eq_iff i j)

module _ (J : Table JobRow) (scorer : Scorer J) (keeps : KeepsStates J scorer) where
  -- Every job that waits is in the list.
  abbrev pub Covers : List String → Store J → Type 0
  Covers ids s = (k : String) → waits_at J scorer k s ≡ true → includes ids k ≡ true

  Covers-without :
      (id : String) (ids : List String) (s u : Store J)
      → IsEnded J scorer id s u
      → Covers ids s
      → Covers (without id ids) u
  Covers-without id ids s u (w, rest) h k now =
      let here = rest k in
      elim (Bool-cases (str_eq k id)) [
        | inl y ↦ let gone = rw y at here in cc
        | inr n ↦ includes-without id ids k n (h k (sym (rw n at here) ∙ now))
      ]

  -- The drain counted at most so many jobs, and nothing is queued.
  abbrev pub IsDrained : ℕ → Result ℕ × Store J → Type 0
  IsDrained bound r =
      (n : ℕ) × (r.0 ≡ ok n)
      × (n ≤ bound)
      × ((k : String) → queued_row (J.find_unique k r.1.jobs) ≡ false)

  none_waits :
      (s : Store J) (k : String) → Covers [] s → queued_row (J.find_unique k s.jobs) ≡ false
  none_waits s k h = elim (Bool-cases (queued_row (J.find_unique k s.jobs))) [
    | inl y ↦ let waits = h k (waits_of_queued (J.find_unique k s.jobs) y) in cc
    | inr n ↦ n
  ]

  counted-IsDrained :
      (rest : Program (Store J) ℕ) (small bound : ℕ) (t : Store J)
      → small < bound
      → IsDrained small (rest t)
      → IsDrained bound (counted J rest true t)
  counted-IsDrained rest small bound t l (n, p, b, empty) =
      let step = bind-ok rest (λ n. return (suc n)) t n (rest t).1 (ap (λ r. (r, (rest t).1)) p) in
      subst (IsDrained bound) (sym step) (suc n, refl, omega arith, empty)

  -- For a scorer that leaves every job in place and in its scoring state (`KeepsStates`), whether it
  -- returns or throws: if the drain may take as many turns as there are jobs that wait to be scored,
  -- it ends without failing, counts at most that many jobs, and leaves no job in the queue.
  pub drain_scoring_queue-IsDrained :
      (clock : ℕ → ℕ) (turn : ℕ) (user : String) (max_jobs : ℕ) (ids : List String) (s : Store J)
      → length ids ≤ max_jobs
      → Covers ids s
      → IsDrained (length ids) (drain_scoring_queue J scorer clock turn user max_jobs s)
  unfolding drain_scoring_queue
  drain_scoring_queue-IsDrained clock turn user zero [] s l h =
      (0, refl, omega arith, λ k. none_waits s k h)
  drain_scoring_queue-IsDrained clock turn user zero (i ∷ ids) s l h = absurd (omega arith)
  drain_scoring_queue-IsDrained clock turn user (suc max_jobs) ids s l h =
      let m = score_next_queued_job J scorer (clock turn) user in
      let rest = drain_scoring_queue J scorer clock (suc turn) user max_jobs in
      let t = (m s).1 in
      elim (score_next_queued_job-Progress J scorer keeps (clock turn) user s) [
        | inl (p, empty, same) ↦
            subst (IsDrained (length ids))
              (sym (bind-ok m (counted J rest) s false t (ap (λ r. (r, t)) p)))
              (0, refl, omega arith, empty)
        | inr (p, id, ended) ↦
            let fewer = without_fewer id ids (h id ended.0) in
            subst (IsDrained (length ids))
              (sym (bind-ok m (counted J rest) s true t (ap (λ r. (r, t)) p)))
              (counted-IsDrained rest (length (without id ids)) (length ids) t fewer (
                drain_scoring_queue-IsDrained clock (suc turn) user max_jobs (without id ids) t
                  (omega arith) (Covers-without id ids s t ended h)))
      ]
