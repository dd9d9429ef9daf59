-- ===== src/Sync/Discovery/Run.antt =====
-- What one run of the discovery queue (src/lib/sync/liveDiscoveryQueue.ts) does to one row.
use mathlib.Core.Bool.{true≢false}
use mathlib.Core.Option.{some-injective}
use internship_pilot.Prelude.{
  ℕ, ◌≡◌, ◌≢◌, refl, sym, ap, ◌∙◌, subst, arith, true, some, List, [], ◌∷◌, String, All, All-map,
  OneOf, All-OneOf, is_some, Bool-cases, Option-cases, inl, inr, length, eq_iff, str_eq,
}
use internship_pilot.Database.{Table}
use internship_pilot.Database.Laws.{update_at_self}
use internship_pilot.Program.{
  Program, Result, ok, err, ◌>>◌, each, return, bind-ok, Keeps, Keeps-each-All,
}
use internship_pilot.Sync.Discovery.{Signal, QueueRecord, Resolution}
use internship_pilot.Sync.Discovery.Queue.{
  Codec, is_waiting, is_due, conclude, due_items, process_item, process_live_discovery_queue,
  report_from, no_reports,
}
use internship_pilot.Sync.Discovery.Invariant.{IsRow, due_items-All, item_elsewhere}

-- One run: its time, the time at which it plans a retry, what it resolves a signal to, and how many
-- signals it may take.
pub record QueueRun : Type 0 where
  pub now : ℕ
  pub clock : String → ℕ
  pub resolve : Signal → Resolution
  pub limit : ℕ

module _ (cd : Codec) (T : Table cd.Text) (k : String) where
  open cd use {Text, stringify, parse}

  abbrev pub due_of : QueueRun → T.Tab → List (String × QueueRecord)
  due_of run t = due_items cd T run.now run.limit t

  abbrev pub after_run : QueueRun → T.Tab → T.Tab
  after_run run t = (process_live_discovery_queue cd T run.now run.clock run.resolve run.limit t).1

  abbrev pub Holds : QueueRecord → T.Tab → Type 0
  Holds q t = (v : Text) × (T.find_unique k t ≡ some v) × (parse v ≡ some q)

  module _ (run : QueueRun) where
    work : String × QueueRecord → Program T.Tab (Unit {0})
    work = process_item cd T run.now run.clock run.resolve

    abbrev concluded : QueueRecord → Text
    concluded r = stringify (conclude run.now (run.clock k) r (run.resolve r.signal))

    abbrev Present : T.Tab → String × QueueRecord → Type 0
    Present u item = is_some (T.find_unique item.0 u) ≡ true

    -- A write keeps every row.
    work-Present :
        (item other : String × QueueRecord) (u : T.Tab)
        → Present u other
        → Present (work item u).1 other
    unfolding work process_item
    work-Present (j, r) other u h = elim (Bool-cases (is_some (T.find_unique j u))) [
      | inr n ↦ rw n h
      | inl y ↦ rw y (elim (Bool-cases (str_eq other.0 j)) [
        | inl same ↦ rw (T.update_at-find_unique j (λ _. true) _ u other.0) (rw same (ground arith))
        | inr differ ↦ rw (T.update_at-find_unique j (λ _. true) _ u other.0) (rw differ h)
      ])
    ]

    work_ok :
        (item : String × QueueRecord) (u : T.Tab)
        → Present u item
        → work item u ≡ (ok tt, (work item u).1)
    unfolding work process_item
    work_ok (j, r) u h = rw h refl

    each_step :
        (item : String × QueueRecord) (items : List (String × QueueRecord)) (u : T.Tab)
        → Present u item
        → (each work (item ∷ items) u).1 ≡ (each work items (work item u).1).1
    unfolding each
    each_step item items u h =
        ap (λ r. r.1)
          (bind-ok (work item) (λ _. each work items) u tt (work item u).1 (work_ok item u h))

    work_writes :
        (q : QueueRecord) (u : T.Tab)
        → Present u (k, q)
        → T.find_unique k (work (k, q) u).1 ≡ some (concluded q)
    unfolding work process_item
    work_writes q u h = elim (Option-cases (T.find_unique k u)) [
      | inl n ↦ let h' = rw n at h in cc
      | inr (v, e) ↦ rw h (update_at_self T k (λ _. true) (λ _. concluded q) u ∙ rw e refl)
    ]

    work_keeps :
        (q : QueueRecord) (item : String × QueueRecord) (u : T.Tab)
        → Present u item
        → (item.0 ≡ k → item.1 ≡ q)
        → T.find_unique k u ≡ some (concluded q)
        → T.find_unique k (work item u).1 ≡ some (concluded q)
    unfolding work
    work_keeps q item u h same e = elim (Bool-cases (str_eq item.0 k)) [
      | inl y ↦
          let at_k = (eq_iff item.0 k).0 y in
          subst (λ (i : String × QueueRecord). T.find_unique k (work i u).1 ≡ some (concluded q))
            (sym (pair item at_k (same at_k)))
            (work_writes q u (subst (Present u) (pair item at_k (same at_k)) h))
      | inr n ↦
          item_elsewhere cd T run.now run.clock run.resolve k item u
            (λ at_k. absurd (true≢false (sym ((eq_iff item.0 k).1 at_k) ∙ n)))
          ∙ e
    ]
      where
        pair : (i : String × QueueRecord) → i.0 ≡ k → i.1 ≡ q → i ≡ (k, q)
        pair (j, r) a b = rw (a, b) refl

    each_keeps :
        (q : QueueRecord) (items : List (String × QueueRecord)) (u : T.Tab)
        → All (Present u) items
        → All (λ item. item.0 ≡ k → item.1 ≡ q) items
        → T.find_unique k u ≡ some (concluded q)
        → T.find_unique k (each work items u).1 ≡ some (concluded q)
    unfolding each
    each_keeps q [] u p s e = e
    each_keeps q (item ∷ items) u (h, p) (same, s) e =
        ap (T.find_unique k) (each_step item items u h)
        ∙ each_keeps q items (work item u).1
            (All-map (Present u) (Present (work item u).1) items
              (λ other. work-Present item other u) p)
            s (work_keeps q item u h same e)

    each_writes :
        (q : QueueRecord) (items : List (String × QueueRecord)) (u : T.Tab)
        → OneOf (k, q) items
        → All (Present u) items
        → All (λ item. item.0 ≡ k → item.1 ≡ q) items
        → T.find_unique k (each work items u).1 ≡ some (concluded q)
    each_writes q [] u one p s = absurd one
    each_writes q (item ∷ items) u one (h, p) (same, s) =
        let u' = (work item u).1 in
        let p' = All-map (Present u) (Present u') items (λ other. work-Present item other u) p in
        ap (T.find_unique k) (each_step item items u h) ∙ elim one [
          | inl e ↦ each_keeps q items u' p' s (
              subst
                (λ (i : String × QueueRecord). T.find_unique k (work i u).1 ≡ some (concluded q)) e
                (work_writes q u (subst (Present u) (sym e) h)))
          | inr later ↦ each_writes q items u' later p' s
        ]

    after_each : (u : T.Tab) → after_run run u ≡ (each work (due_of run u) u).1
    unfolding process_live_discovery_queue work
    after_each u = go (each work (due_of run u) u)
      where
        go :
            (r : Result (Unit {0}) × T.Tab)
            → (((λ _. r)
                  >> return (
                      report_from cd T run.now run.clock run.resolve
                        (due_of run u)
                        (no_reports (length (due_of run u)))))
                u).1
              ≡ r.1
        go (ok x, t) = refl
        go (err e, t) = refl

    rows-Present :
        (u : T.Tab) (items : List (String × QueueRecord))
        → All (λ item. IsRow cd T u item × (is_due run.now item.1 ≡ true)) items
        → All (Present u) items
    rows-Present u items h =
        All-map _ (Present u) items (λ (item : String × QueueRecord) ((v, f, w, e), due). rw f refl)
          h

    same_row :
        (u : T.Tab) (q : QueueRecord) (item : String × QueueRecord)
        → Holds q u
        → IsRow cd T u item
        → item.0 ≡ k
        → item.1 ≡ q
    same_row u q item (v, f, e) (v', f', w, e') at_k =
        let texts : v' ≡ v = some-injective _ _ (sym f' ∙ (ap (λ j. T.find_unique j u) at_k ∙ f)) in
        some-injective _ _ (sym e' ∙ (ap parse texts ∙ e))

    -- A run that takes the signal up stores its record as concluded, once, whatever else it does.
    pub run_takes :
        (u : T.Tab) (q : QueueRecord)
        → OneOf (k, q) (due_of run u)
        → Holds q u
          × (is_waiting q.state ≡ true)
          × Holds (conclude run.now (run.clock k) q (run.resolve q.signal)) (after_run run u)
    run_takes u q one =
        let items = due_of run u in
        let rows = due_items-All cd T run.now run.limit u in
        let ((v, f, w, e), due) = All-OneOf _ items (k, q) rows one in
        (
          (v, f, e),
          ground arith,
          (
            concluded q,
            ap (T.find_unique k) (after_each u)
                ∙ each_writes q items u one (rows-Present u items rows) (
                    All-map _ (λ item. item.0 ≡ k → item.1 ≡ q) items
                      (λ (item : String × QueueRecord) (row, d). same_row u q item (v, f, e) row)
                      rows),
            cd.parse-stringify _,
          ),
        )

    pub run_passes :
        (u : T.Tab) (q : QueueRecord)
        → All (λ item. item.0 ≢ k) (due_of run u)
        → Holds q u
        → Holds q (after_run run u)
    unfolding work
    run_passes u q others (v, f, e) =
        let Same = λ (t : T.Tab). T.find_unique k t ≡ some v in
        (
          v,
          ap (T.find_unique k) (after_each u)
              ∙ Keeps-each-All Same work (due_of run u)
                  (All-map _ (λ item. Keeps Same (work item)) (due_of run u)
                    (λ (item : String × QueueRecord) n t same.
                      item_elsewhere cd T run.now run.clock run.resolve k item t n ∙ same)
                    others)
                  u f,
          e,
        )
