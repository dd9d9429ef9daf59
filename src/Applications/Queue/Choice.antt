-- ===== src/Applications/Queue/Choice.antt =====
-- The résumé that an application uses.
use mathlib.Core.Option.{some-injective}
use internship_pilot.Prelude.{
  ℕ, ◌≤◌, ◌≡◌, refl, sym, ap, ◌∙◌, arith, Bool, true, false, none, some, List, [], ◌∷◌, All,
  All-map, All-of_keep, OneOf, OneOf-keep, find-OneOf, find-none, keep, find, if◌then◌else◌,
  Bool-cases, Option-cases, inl, inr,
}
use internship_pilot.Documents.Strategy.{Document, is_usable_resume, strategy_from_tailoring_status}
use internship_pilot.Applications.Queue.Request.{choose_resume, first_of, is_tailored, is_partial}

abbrev is_tailored_document : Document → Bool
is_tailored_document d = is_tailored (strategy_from_tailoring_status d.tailoring_status)

abbrev is_partial_document : Document → Bool
is_partial_document d = is_partial (strategy_from_tailoring_status d.tailoring_status)

-- How far a document is from a tailored one.
abbrev pub rank : Document → ℕ
rank d = if is_tailored_document d then 0 else if is_partial_document d then 1 else 2

-- A usable document of the list, and none of the usable ones ranks before it.
abbrev pub IsBest : List Document → Document → Type 0
IsBest documents d =
    (is_usable_resume d ≡ true)
    × OneOf d documents
    × All (λ x. is_usable_resume x ≡ true → rank d ≤ rank x) documents

first_of-some : (xs : List Document) (d : Document) → first_of xs ≡ some d → OneOf d xs
first_of-some [] d e = cc
first_of-some (x ∷ xs) d e = inl (sym (some-injective _ _ e))

first_of-none : (xs : List Document) → first_of xs ≡ none → xs ≡ []
first_of-none [] e = refl
first_of-none (x ∷ xs) e = cc

rank_tailored : (d x : Document) → is_tailored_document d ≡ true → rank d ≤ rank x
rank_tailored d x h = ground arith

rank_partial :
    (d x : Document)
    → is_partial_document d ≡ true
    → is_tailored_document x ≡ false
    → rank d ≤ rank x
rank_partial d x p h = ground arith

rank_other :
    (d x : Document)
    → is_tailored_document x ≡ false
    → is_partial_document x ≡ false
    → rank d ≤ rank x
rank_other d x h k = ground arith

IsBest-of_usable :
    (documents : List Document) (d : Document)
    → OneOf d (keep is_usable_resume documents)
    → All (λ x. rank d ≤ rank x) (keep is_usable_resume documents)
    → IsBest documents d
IsBest-of_usable documents d one least =
    let (listed, usable) = OneOf-keep is_usable_resume documents d one in
    (usable, listed, All-of_keep (λ x. rank d ≤ rank x) is_usable_resume documents least)

both :
    (P Q : Document → Type 0) (xs : List Document) → All P xs → All Q xs → All (λ x. P x × Q x) xs
both P Q [] h k = tt
both P Q (x ∷ xs) (p, h) (q, k) = ((p, q), both P Q xs h k)

anything : (xs : List Document) → All (λ x. Unit {0}) xs
anything [] = tt
anything (x ∷ xs) = (tt, anything xs)

-- The résumé of an application passed its check under a verified identity, and no other such
-- document of the job is nearer to a tailored one: a tailored résumé comes before a partly tailored
-- one, and this before any other. There is none only if no document of the job is such a résumé.
pub choose_resume-IsBest :
    (documents : List Document)
    → ((d : Document) → choose_resume documents ≡ some d → IsBest documents d)
      × (choose_resume documents ≡ none → All (λ x. is_usable_resume x ≡ false) documents)
unfolding choose_resume
choose_resume-IsBest documents =
    let usable = keep is_usable_resume documents in
    elim (Option-cases (find is_tailored_document usable)) [
      | inr (t, f) ↦ (
        λ d e.
            let same : t ≡ d = some-injective _ _ (rw (f, choose_resume) at e) in
            let (one, h) = find-OneOf is_tailored_document usable d (f ∙ ap some same) in
            IsBest-of_usable documents d one
              (All-map _ _ usable (λ x _. rank_tailored d x h) (anything usable)),
        λ e. let e' = rw (f, choose_resume) at e in cc,
      )
      | inl n ↦ elim (Option-cases (find is_partial_document usable)) [
        | inr (t, f) ↦ (
          λ d e.
              let same : t ≡ d = some-injective _ _ (rw (n, f, choose_resume) at e) in
              let (one, h) = find-OneOf is_partial_document usable d (f ∙ ap some same) in
              IsBest-of_usable documents d one (
                All-map _ _ usable (λ x. rank_partial d x h)
                  (find-none is_tailored_document usable n)),
          λ e. let e' = rw (n, f, choose_resume) at e in cc,
        )
        | inl m ↦ (
          λ d e.
              IsBest-of_usable documents d (first_of-some usable d (rw (n, m, choose_resume) at e))
                (All-map _ _ usable (λ x (h, k). rank_other d x h k)
                  (both _ _ usable (find-none is_tailored_document usable n)
                    (find-none is_partial_document usable m))),
          λ e. none_usable documents (first_of-none usable (rw (n, m, choose_resume) at e)),
        )
      ]
    ]
  where
    none_usable :
        (xs : List Document)
        → keep is_usable_resume xs ≡ []
        → All (λ x. is_usable_resume x ≡ false) xs
    none_usable [] e = tt
    none_usable (x ∷ xs) e = elim (Bool-cases (is_usable_resume x)) [
      | inl y ↦ let e' = rw y at e in cc
      | inr n ↦ (n, none_usable xs (rw n at e))
    ]
