-- ===== src/Sync/Freshness/Laws.antt =====
-- Which postings a batch of rechecks takes out of the feed.
use internship_pilot.Prelude.{
  ℕ, ◌≡◌, ◌⊎◌, inl, inr, refl, sym, ap, subst, ◌∙◌, arith, Bool, true, false, Option, none, some,
  List, [], ◌∷◌, String, is_some, All, All-map, All-take, Bool-cases, max, min,
}
use mathlib.Core.Option.{some-injective}
use internship_pilot.Database.{Table, Every}
use internship_pilot.Database.Laws.{Every-update_at}
use internship_pilot.Program.{◌>>=◌, return, Keeps, Keeps-bind}
use internship_pilot.Jobs.Sort.{sort_by}
use internship_pilot.Jobs.Sort.Sorted.{sort_by-All}
use internship_pilot.Sync.Freshness.{
  ProbeState, open_state, closed_state, unknown_state, AvailabilityProbe, Response, Web, FreshJob,
  is_gone, is_success, looks_closed_html, is_text_content, probe_text, probe_response,
  probe_official_job_availability, closed_job, open_job, compare_due, is_rechecked, counts_of,
  update_fresh, write_outcome, recheck_at, recheck_job, recheck_all, due_jobs,
  run_freshness_verification_batch,
}

module _ (web : Web) where
  -- The posting is confirmed closed: it answers 404 or 410, or it answers with success a text that
  -- says so.
  abbrev pub says_closed : Option String → Bool
  says_closed none = false
  says_closed (some html) = looks_closed_html web html

  abbrev pub IsConfirmed : String → Type 0
  IsConfirmed url =
      (r : Response) × (web.fetch url ≡ some r)
      × ((is_gone r.status ≡ true)
          ⊎ ((is_success r.status ≡ true)
              × (is_text_content web r ≡ true)
              × (says_closed r.text ≡ true)))

  text_closed :
      (o : Option String) (r : Response) (url : String)
      → (probe_text web o r url).state ≡ closed_state
      → says_closed o ≡ true
  text_closed none r url e = cc
  text_closed (some html) r url e = ground arith

  response_closed :
      (o : Option Response) (url : String)
      → web.fetch url ≡ o
      → (probe_response web o url).state ≡ closed_state
      → IsConfirmed url
  response_closed none url f e = cc
  response_closed (some r) url f e = elim (Bool-cases (is_gone r.status)) [
    | inl y ↦ (r, f, inl y)
    | inr n ↦ elim (Bool-cases (is_success r.status)) [
      | inl ok_status ↦ elim (Bool-cases (is_text_content web r)) [
        | inl text ↦
            let said = text_closed r.text r url (rw text at rw ok_status at rw n at e) in
            (r, f, inr (ok_status, text, said))
        | inr other ↦ let wrong = rw other at rw ok_status at rw n at e in cc
      ]
      | inr failed ↦ let wrong = rw failed at rw n at e in cc
    ]
  ]

  abbrev pub IsConfirmedAt : Option String → Type 0
  IsConfirmedAt none = ⊥
  IsConfirmedAt (some url) = IsConfirmed url

no_both : ◌≡◌ {A = Bool} true false → ⊥
no_both e = cc

module _ (J : Table FreshJob) (web : Web) (start : J.Tab) where
  -- The row comes from one of the start, which left the feed only if its posting is closed.
  abbrev IsFrom : String → FreshJob → Type 0
  IsFrom id j =
      (old : FreshJob) × (J.find_unique id start ≡ some old)
      × (old.active_feed ≡ true
          → j.active_feed ≡ false
          → IsConfirmedAt web old.official_application_url)

  abbrev AllFrom : J.Tab → Type 0
  AllFrom t = Every J IsFrom t

  abbrev WasRead : String × FreshJob → Type 0
  WasRead job = J.find_unique job.0 start ≡ some job.1

  update-AllFrom :
      (id : String) (f : FreshJob → FreshJob)
      → ((j : FreshJob) → IsFrom id j → IsFrom id (f j))
      → Keeps AllFrom (update_fresh J id f)
  unfolding update_fresh
  update-AllFrom id f step t h = elim (Bool-cases (is_some (J.find_unique id t))) [
    | inl y ↦ rw y (Every-update_at J IsFrom id (λ _. true) f t (λ j _ _ from. step j from) h)
    | inr n ↦ rw n h
  ]

  outcome-AllFrom :
      (st : ProbeState) (p : AvailabilityProbe) (now : ℕ) (id url : String) (j : FreshJob)
      → WasRead (id, j)
      → j.official_application_url ≡ some url
      → (st ≡ closed_state → IsConfirmed web url)
      → Keeps AllFrom (write_outcome J web st p now id)
  outcome-AllFrom open_state p now id url j was own sure =
      update-AllFrom id (open_job web now p) (λ k (old, f, left). (old, f, left))
  outcome-AllFrom unknown_state p now id url j was own sure = λ t h. h
  outcome-AllFrom closed_state p now id url j was own sure =
      update-AllFrom id (closed_job web now p) (λ k from. (
        from.0,
        from.1,
        λ _ _.
            let same = some-injective _ _ (sym was ∙ from.1) in
            let address = sym own ∙ ap (λ x. x.official_application_url) same in
            subst (IsConfirmedAt web) address (sure refl),
      ))

  recheck_at-AllFrom :
      (o : Option String) (now : ℕ) (id : String) (j : FreshJob)
      → WasRead (id, j)
      → j.official_application_url ≡ o
      → Keeps AllFrom (recheck_at J web o now id)
  unfolding probe_official_job_availability
  recheck_at-AllFrom none now id j was own = λ t h. h
  recheck_at-AllFrom (some url) now id j was own =
      let p = probe_official_job_availability web url in
      Keeps-bind AllFrom (write_outcome J web p.state p now id) (λ _. return p.state)
        (outcome-AllFrom p.state p now id url j was own
          (λ e. response_closed web (web.fetch url) url refl e))
        (λ _ t h. h)

  recheck_all-AllFrom :
      (now : ℕ) (jobs : List (String × FreshJob))
      → All WasRead jobs
      → Keeps AllFrom (recheck_all J web now jobs)
  unfolding recheck_all recheck_job
  recheck_all-AllFrom now [] was = λ t h. h
  recheck_all-AllFrom now ((id, j) ∷ jobs) (first, was) =
      Keeps-bind AllFrom (recheck_job J web now (id, j))
        (λ o. recheck_all J web now jobs >>= λ os. return (o ∷ os))
        (recheck_at-AllFrom j.official_application_url now id j first refl)
        (λ o.
          Keeps-bind AllFrom (recheck_all J web now jobs) (λ os. return (o ∷ os))
            (recheck_all-AllFrom now jobs was) (λ os t h. h))

  due_jobs-WasRead : (limit : ℕ) → All WasRead (due_jobs J limit start)
  unfolding due_jobs
  due_jobs-WasRead limit =
      let read = J.find_many (λ _ j. is_rechecked j) start in
      All-take WasRead (max 1 (min limit 50)) (sort_by compare_due read) (
        sort_by-All compare_due WasRead read
          (All-map _ WasRead read (λ job h. h.0) (J.find_many_sound (λ _ j. is_rechecked j) start)))

  run-AllFrom : (now limit : ℕ) → AllFrom (run_freshness_verification_batch J web now limit start).1
  unfolding run_freshness_verification_batch
  run-AllFrom now limit =
      let due = due_jobs J limit start in
      Keeps-bind AllFrom (recheck_all J web now due) (λ outcomes. return (counts_of outcomes))
        (recheck_all-AllFrom now due (due_jobs-WasRead limit)) (λ _ t h. h) start
        (λ k j f. (j, f, λ y n. absurd (no_both (sym y ∙ n))))

-- A batch takes a posting out of the feed only where its address answers 404 or 410, or answers with
-- success a text that says that the posting is closed: an address that cannot be reached, any other
-- status and a batch that breaks off close nothing.
pub freshness_closes :
    (J : Table FreshJob) (web : Web) (now limit : ℕ) (t : J.Tab) (id : String)
    (before after : FreshJob)
    → J.find_unique id t ≡ some before
    → before.active_feed ≡ true
    → J.find_unique id (run_freshness_verification_batch J web now limit t).1 ≡ some after
    → after.active_feed ≡ false
    → IsConfirmedAt web before.official_application_url
freshness_closes J web now limit t id before after f y g n =
    let from = run-AllFrom J web t now limit id after g in
    let same = some-injective _ _ (sym from.1 ∙ f) in
    subst (λ j. IsConfirmedAt web j.official_application_url) same
      (from.2 (ap (λ j. j.active_feed) same ∙ y) n)
