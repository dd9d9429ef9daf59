-- ===== src/Sync/Discovery/Official.antt =====
-- Which posting a resolved signal leads to.
use internship_pilot.Prelude.{
  ℕ, ◌≤◌, ◌≡◌, ◌⊎◌, refl, sym, ap, ◌∙◌, arith, Bool, true, false, Option, none, some, List, [], ◌∷◌,
  OneOf, find-OneOf, ltb, length, ◌||◌, String, All, Bool-cases, Option-cases, inl, inr,
}
use internship_pilot.Sync.Discovery.{
  Signal, AtsJob, found, Services, Company, direct_url, best_from, resolve_best, resolve_listing,
  resolve_signal, resolve_by_board, has_no_board, find_company_config, exact_company,
}
use internship_pilot.Program.{Result, ok, err}
use mathlib.Core.Option.{some-injective}

module _ (env : Services) where
  open env use {
    is_aggregator_url, is_valid_official_url, probe_closed, list_jobs, score, strong, company_key,
    contains, same_key,
  }

  best_from_bounds :
      (s : Signal) (j : AtsJob) (jobs : List AtsJob)
      → (b : AtsJob) × (best_from env s (some (j, score s j)) jobs ≡ some (b, score s b))
        × ((b ≡ j) ⊎ OneOf b jobs)
        × (score s j ≤ score s b)
        × All (λ i. score s i ≤ score s b) jobs
  unfolding best_from
  best_from_bounds s j [] = (j, refl, inl refl, omega arith, tt)
  best_from_bounds s j (job ∷ jobs) = elim (Bool-cases (ltb (score s j) (score s job))) [
    | inl y ↦
        let (b, e, m, l, a) = best_from_bounds s job jobs in
        (b, rw y e, inr m, ground arith, (l, a))
    | inr n ↦
        let (b, e, m, l, a) = best_from_bounds s j jobs in
        (b, rw n e, keep_one b m, l, (ground arith, a))
  ]
    where
      keep_one : (b : AtsJob) → ((b ≡ j) ⊎ OneOf b jobs) → (b ≡ j) ⊎ OneOf b (job ∷ jobs)
      keep_one b (inl e) = inl e
      keep_one b (inr m) = inr (inr m)

  direct_url_sound :
      (s : Signal) (url : String)
      → direct_url env s ≡ some url
      → (is_aggregator_url url ≡ false) × (is_valid_official_url url ≡ true)
  unfolding direct_url
  direct_url_sound s url e = (ground arith, ground arith)

  -- Where the official posting of a resolved signal comes from.
  abbrev pub IsDirect : Signal → Type 0
  IsDirect s =
      (url : String) × (direct_url env s ≡ some url)
      × (is_aggregator_url url ≡ false)
      × (is_valid_official_url url ≡ true)
      × (probe_closed url ≡ none)

  -- A company of the signal's employer: its key is the employer's, or, where both keys have five
  -- letters or more, one of them contains the other.
  abbrev pub IsEmployer : String → Company → Type 0
  IsEmployer name c =
      (same_key (company_key c.name) (company_key name) ≡ true)
      ⊎ ((5 ≤ length (company_key name))
          × (5 ≤ length (company_key c.name))
          × ((contains (company_key c.name) (company_key name)
                || contains (company_key name) (company_key c.name))
              ≡ true))

  abbrev pub IsBestOnBoard : List Company → Signal → Type 0
  IsBestOnBoard companies s =
      (c : Company) × (jobs : List AtsJob) × (best : AtsJob) × OneOf c companies
      × IsEmployer s.company c
      × (list_jobs c ≡ ok (true, jobs))
      × OneOf best jobs
      × (strong ≤ score s best)
      × (is_aggregator_url best.apply_url ≡ false)
      × All (λ i. score s i ≤ score s best) jobs

  resolve_best_found :
      (s : Signal) (b : AtsJob) (n : ℕ)
      → (resolve_best env s (some (b, n))).state ≡ found
      → (strong ≤ n) × (is_aggregator_url b.apply_url ≡ false)
  unfolding resolve_best
  resolve_best_found s b n e = (ground arith, ground arith)

  exact_company_sound :
      (key : List ℕ) (companies : List Company) (c : Company)
      → exact_company env key companies ≡ some c
      → OneOf c companies × (same_key (company_key c.name) key ≡ true)
  unfolding exact_company
  exact_company_sound key [] c e = cc
  exact_company_sound key (d ∷ ds) c e = elim (Option-cases (exact_company env key ds)) [
    | inl n ↦ elim (Bool-cases (same_key (company_key d.name) key)) [
      | inl y ↦
          let same : c ≡ d = sym (some-injective _ _ (rw (n, y, exact_company) at e)) in
          (inl same, ap (λ (x : Company). same_key (company_key x.name) key) same ∙ y)
      | inr z ↦ let e' = rw (n, z, exact_company) at e in cc
    ]
    | inr (x, f) ↦
        let same : x ≡ c = some-injective _ _ (rw (f, exact_company) at e) in
        let (one, key_same) = exact_company_sound key ds c (f ∙ ap some same) in (inr one, key_same)
  ]

  find_company_config_sound :
      (name : String) (companies : List Company) (c : Company)
      → find_company_config env name companies ≡ some c
      → OneOf c companies × IsEmployer name c
  unfolding find_company_config
  find_company_config_sound name companies c e =
      let key = company_key name in
      elim (Option-cases (exact_company env key companies)) [
        | inr (x, f) ↦
            let same : x ≡ c = some-injective _ _ (rw (f, find_company_config) at e) in
            let (one, key_same) = exact_company_sound key companies c (f ∙ ap some same) in
            (one, inl key_same)
        | inl n ↦ elim (Bool-cases (ltb (length key) 5)) [
          | inl short ↦ let e' = rw (n, short, find_company_config) at e in cc
          | inr long ↦
              let (one, q) = find-OneOf _ companies c (rw (n, long, find_company_config) at e) in
              (one, inr (ground arith, ground arith, ground arith))
        ]
      ]

  resolve_listing_found :
      (companies : List Company) (s : Signal) (c : Company) (r : Result (Bool × List AtsJob))
      → OneOf c companies × IsEmployer s.company c
      → list_jobs c ≡ r
      → (resolve_listing env s r).state ≡ found
      → IsBestOnBoard companies s
  unfolding resolve_listing
  resolve_listing_found companies s c (err x) o l e = cc
  resolve_listing_found companies s c (ok (false, jobs)) o l e = cc
  resolve_listing_found companies s c (ok (true, [])) o l e = cc
  resolve_listing_found companies s c (ok (true, job ∷ jobs)) (one, employer) l e =
      let (b, f, m, k, a) = best_from_bounds s job jobs in
      let (strong_enough, official) =
        resolve_best_found s b (score s b) (ap (λ o. (resolve_best env s o).state) (sym f) ∙ e) in
      (c, job ∷ jobs, b, one, employer, l, m, strong_enough, official, (k, a))

  -- A signal counts as resolved only by an official posting: its own link, where that is no
  -- aggregator's and was not found closed, or else the best match on the board of a configured
  -- company, where that match is strong enough and links to no aggregator, and the company's key is
  -- the key of the signal's employer, or one of the two contains the other and both have five
  -- letters or more.
  pub resolve_signal_found :
      (companies : List Company) (s : Signal)
      → (resolve_signal env companies s).state ≡ found
      → IsDirect s ⊎ IsBestOnBoard companies s
  unfolding resolve_signal resolve_by_board
  resolve_signal_found companies s e = elim (Option-cases (direct_url env s)) [
    | inl n ↦
        inr (
          by_board (find_company_config env s.company companies) refl (rw (n, resolve_signal) at e))
    | inr (url, d) ↦ elim (Option-cases (probe_closed url)) [
      | inl unclosed ↦
          let (official, valid) = direct_url_sound s url d in
          inl (url, d, official, valid, unclosed)
      | inr (reason, p) ↦ let e' = rw (d, p, resolve_signal) at e in cc
    ]
  ]
    where
      by_board :
          (o : Option Company)
          → find_company_config env s.company companies ≡ o
          → (resolve_by_board env s o).state ≡ found
          → IsBestOnBoard companies s
      by_board none f e = cc
      by_board (some c) f e = elim (Bool-cases (has_no_board env c)) [
        | inl y ↦ let e' = rw y at e in cc
        | inr n ↦
            resolve_listing_found companies s c (list_jobs c)
              (find_company_config_sound s.company companies c f) refl (rw n at e)
      ]
