-- ===== src/Jobs/Sort/Sorted.antt =====
-- What the sort of the feed gives: the same jobs, in order, whatever order they came in.
use mathlib.Core.List.{Permᴰ}
use mathlib.Core.List.Permᴰ
use internship_pilot.Prelude.{
  ℕ, ◌≤◌, ◌≡◌, ◌≢◌, inl, inr, refl, ap, ◌∙◌, subst, arith, true, false, Option, none, List, [], ◌∷◌,
  String, All, All-map, Bool-cases, Option-cases,
}
use internship_pilot.Prelude.Int.{ℤ, pos, negsuc, pos_part, neg_part}
use internship_pilot.Jobs.Sort.{
  JobSort, SortableJob, is_ahead, insert, sort_by, compare_jobs, sort_jobs, latest_sync_run_id,
  score, discovered_at, time, compare_first, match, discovered, newest, oldest,
}
use internship_pilot.Jobs.Sort.Comparator.{IsLe, IsComparator}
use internship_pilot.Jobs.Sort.Order.{compare_jobs-IsComparator, compare_jobs_tie}

zero_of_parts : (z : ℤ) → pos_part z ≤ 0 → neg_part z ≤ 0 → z ≡ pos 0
zero_of_parts (pos n) p q = ground arith
zero_of_parts (negsuc n) p q = absurd (omega arith)

module _ {A : Type 0} (cmp : A → A → ℤ) where
  -- No job comes after one that is behind it.
  abbrev pub IsSorted : List A → Type 0
  IsSorted [] = Unit
  IsSorted (x ∷ xs) = All (λ y. IsLe (cmp x y)) xs × IsSorted xs

  -- No two of the jobs tie.
  abbrev pub TiesNone : List A → A → Type 0
  TiesNone xs x = All (λ y. cmp x y ≢ pos 0) xs

  abbrev pub IsUntied : List A → Type 0
  IsUntied [] = Unit
  IsUntied (x ∷ xs) = TiesNone xs x × IsUntied xs

  insert-Perm : (x : A) (xs : List A) → Permᴰ (insert cmp x xs) (x ∷ xs)
  unfolding insert
  insert-Perm x [] = Permᴰ.cons refl Permᴰ.nil
  insert-Perm x (y ∷ ys) = elim (Bool-cases (is_ahead (cmp x y))) [
    | inl ahead ↦ rw ahead (Permᴰ.cons refl (Permᴰ.cons refl (Permᴰ.refl ys)))
    | inr behind ↦
        rw behind (Permᴰ.trans (Permᴰ.cons refl (insert-Perm x ys)) (Permᴰ.swap refl refl))
  ]

  pub sort_by-Perm : (xs : List A) → Permᴰ (sort_by cmp xs) xs
  unfolding sort_by
  sort_by-Perm [] = Permᴰ.nil
  sort_by-Perm (x ∷ xs) =
      Permᴰ.trans (insert-Perm x (sort_by cmp xs)) (Permᴰ.cons refl (sort_by-Perm xs))

  insert-All : (P : A → Type 0) (x : A) (xs : List A) → P x → All P xs → All P (insert cmp x xs)
  unfolding insert
  insert-All P x [] p h = (p, tt)
  insert-All P x (y ∷ ys) p (q, h) = elim (Bool-cases (is_ahead (cmp x y))) [
    | inl ahead ↦ rw ahead (p, (q, h))
    | inr behind ↦ rw behind (q, insert-All P x ys p h)
  ]

  -- What holds of every element holds of every element of the sorted list.
  pub sort_by-All : (P : A → Type 0) (xs : List A) → All P xs → All P (sort_by cmp xs)
  unfolding sort_by
  sort_by-All P [] h = tt
  sort_by-All P (x ∷ xs) (p, h) = insert-All P x (sort_by cmp xs) p (sort_by-All P xs h)

  module _ (h : IsComparator cmp) where
    other_way : (x y : A) → is_ahead (cmp x y) ≡ false → IsLe (cmp y x)
    other_way x y n = ground (arith, h.flips x y, h.flips y x)

    insert-IsSorted : (x : A) (xs : List A) → IsSorted xs → IsSorted (insert cmp x xs)
    unfolding insert
    insert-IsSorted x [] s = (tt, tt)
    insert-IsSorted x (y ∷ ys) (least, s) = elim (Bool-cases (is_ahead (cmp x y))) [
      | inl ahead ↦
          let le : IsLe (cmp x y) = ground arith in
          rw ahead ((le, All-map _ _ ys (λ z. h.transitive x y z le) least), (least, s))
      | inr behind ↦ rw behind (
        insert-All (λ z. IsLe (cmp y z)) x ys (other_way x y behind) least,
        insert-IsSorted x ys s,
      )
    ]

    pub sort_by-IsSorted : (xs : List A) → IsSorted (sort_by cmp xs)
    unfolding sort_by
    sort_by-IsSorted [] = tt
    sort_by-IsSorted (x ∷ xs) = insert-IsSorted x (sort_by cmp xs) (sort_by-IsSorted xs)

    flips_tie : (x y : A) → cmp x y ≡ pos 0 → cmp y x ≡ pos 0
    flips_tie x y e =
        zero_of_parts (cmp y x) (ground (arith, h.flips y x)) (ground (arith, h.flips x y))

    no_tie : (x y : A) → cmp x y ≢ pos 0 → IsLe (cmp x y) → is_ahead (cmp y x) ≡ false
    no_tie x y n p = elim (Bool-cases (is_ahead (cmp y x))) [
      | inl ahead ↦ absurd (n (zero_of_parts (cmp x y) p ((h.flips y x).0 (ground arith))))
      | inr behind ↦ behind
    ]

    ahead_trans :
        (x y z : A)
        → is_ahead (cmp x y) ≡ true
        → is_ahead (cmp y z) ≡ true
        → is_ahead (cmp x z) ≡ true
    ahead_trans x y z p q = let t = h.transitive x y z (ground arith) (ground arith) in ground arith

    -- Two jobs that do not tie may be inserted in either order.
    insert-insert :
        (x y : A) (zs : List A)
        → cmp x y ≢ pos 0
        → insert cmp x (insert cmp y zs) ≡ insert cmp y (insert cmp x zs)
    unfolding insert
    insert-insert x y [] n =
        ground
          (arith, no_tie x y n, no_tie y x (λ e. n (flips_tie y x e)), other_way x y, other_way y x)
    insert-insert x y (z ∷ zs) n =
        let ih = insert-insert x y zs n in
        let m = λ (e : cmp y x ≡ pos 0). n (flips_tie y x e) in
        ground (
          arith,
          ih,
          no_tie x y n,
          no_tie y x m,
          other_way x y,
          other_way y x,
          ahead_trans x y z,
          ahead_trans y x z,
        )

    All-Perm : (P : A → Type 0) {xs ys : List A} → Permᴰ xs ys → All P xs → All P ys
    All-Perm P Permᴰ.nil a = a
    All-Perm P (Permᴰ.cons e d) (p, a) = (subst P e p, All-Perm P d a)
    All-Perm P (Permᴰ.swap e e') (p, (q, a)) = (subst P e' q, (subst P e p, a))
    All-Perm P (Permᴰ.trans d d') a = All-Perm P d' (All-Perm P d a)

    IsUntied-Perm : {xs ys : List A} → Permᴰ xs ys → IsUntied xs → IsUntied ys
    IsUntied-Perm Permᴰ.nil u = u
    IsUntied-Perm (Permᴰ.cons {a} {b} {l₂ = l} e d) (n, u) =
        (subst (TiesNone l) e (All-Perm (λ y. cmp a y ≢ pos 0) d n), IsUntied-Perm d u)
    IsUntied-Perm (Permᴰ.swap {a} {b} {l = l} e e') ((n, p), (q, u)) = (
      (λ t. n (flips_tie b a (rw (e, e') t)), subst (TiesNone l) e' q),
      (subst (TiesNone l) e p, u),
    )
    IsUntied-Perm (Permᴰ.trans d d') u = IsUntied-Perm d' (IsUntied-Perm d u)

    -- The order that comes out does not depend on the order that goes in.
    pub sort_by-respects-Perm :
        {xs ys : List A} → Permᴰ xs ys → IsUntied xs → sort_by cmp xs ≡ sort_by cmp ys
    unfolding sort_by
    sort_by-respects-Perm Permᴰ.nil u = refl
    sort_by-respects-Perm (Permᴰ.cons {a} {b} e d) (n, u) = rw (e, sort_by-respects-Perm d u)
    sort_by-respects-Perm (Permᴰ.swap {a} {b} {l = l} e e') ((n, p), (q, u)) =
        insert-insert a b (sort_by cmp l) n ∙ rw (e, e')
    sort_by-respects-Perm (Permᴰ.trans d d') u =
        sort_by-respects-Perm d u ∙ sort_by-respects-Perm d' (IsUntied-Perm d u)

-- Ids are primary keys: no two jobs of a list share one.
abbrev pub HasDistinctIds : List SortableJob → Type 0
HasDistinctIds [] = Unit
HasDistinctIds (x ∷ xs) = All (λ y. x.id ≢ y.id) xs × HasDistinctIds xs

IsUntied-of_distinct :
    (sort : JobSort) (latest : Option String) (xs : List SortableJob)
    → HasDistinctIds xs
    → IsUntied (compare_jobs sort latest) xs
IsUntied-of_distinct sort latest [] d = tt
IsUntied-of_distinct sort latest (x ∷ xs) (n, d) = (
  All-map (λ y. x.id ≢ y.id) (λ y. compare_jobs sort latest x y ≢ pos 0) xs
      (λ y differ tie. differ (compare_jobs_tie sort latest x y tie)) n,
  IsUntied-of_distinct sort latest xs d,
)

-- The sorted feed holds the same jobs as its input, and no job in it comes before one that its
-- comparison puts first.
pub sort_jobs-IsSorted :
    (sort : JobSort) (jobs : List SortableJob)
    → Permᴰ (sort_jobs sort jobs) jobs
      × IsSorted (compare_jobs sort (latest_sync_run_id jobs)) (sort_jobs sort jobs)
unfolding sort_jobs
sort_jobs-IsSorted sort jobs =
    let cmp = compare_jobs sort (latest_sync_run_id jobs) in
    (sort_by-Perm cmp jobs, sort_by-IsSorted cmp (compare_jobs-IsComparator sort _) jobs)

-- Two listings of the same jobs, with distinct ids, that agree on the latest sync run are sorted to
-- the same feed, whatever order the database returned them in.
pub sort_jobs-respects-Perm :
    (sort : JobSort) (xs ys : List SortableJob)
    → Permᴰ xs ys
    → HasDistinctIds xs
    → latest_sync_run_id xs ≡ latest_sync_run_id ys
    → sort_jobs sort xs ≡ sort_jobs sort ys
unfolding sort_jobs
sort_jobs-respects-Perm sort xs ys p d e =
    sort_by-respects-Perm (compare_jobs sort (latest_sync_run_id xs))
      (compare_jobs-IsComparator sort _) p (IsUntied-of_distinct sort _ xs d)
    ∙ ap (λ latest. sort_by (compare_jobs sort latest) ys) e

-- What each order is about.
abbrev pub main_key : JobSort → SortableJob → Option ℕ
main_key match job = score job
main_key discovered job = discovered_at job
main_key _ job = time job.source_posted_at

abbrev pub HasUnknownLast : JobSort → List SortableJob → Type 0
HasUnknownLast sort [] = Unit
HasUnknownLast sort (x ∷ xs) =
    (main_key sort x ≡ none → All (λ y. main_key sort y ≡ none) xs) × HasUnknownLast sort xs

unknown_behind :
    (sort : JobSort) (latest : Option String) (a b : SortableJob)
    → main_key sort a ≡ none
    → IsLe (compare_jobs sort latest a b)
    → main_key sort b ≡ none
unfolding compare_jobs compare_first
unknown_behind match latest a b e p = elim (Option-cases (score b)) [
  | inl n ↦ n
  | inr (k, f) ↦ ground arith
]
unknown_behind discovered latest a b e p = elim (Option-cases (discovered_at b)) [
  | inl n ↦ n
  | inr (k, f) ↦ ground arith
]
unknown_behind newest latest a b e p = elim (Option-cases (time b.source_posted_at)) [
  | inl n ↦ n
  | inr (k, f) ↦ ground arith
]
unknown_behind oldest latest a b e p = elim (Option-cases (time b.source_posted_at)) [
  | inl n ↦ n
  | inr (k, f) ↦ ground arith
]

sorted_unknown_last :
    (sort : JobSort) (latest : Option String) (xs : List SortableJob)
    → IsSorted (compare_jobs sort latest) xs
    → HasUnknownLast sort xs
sorted_unknown_last sort latest [] s = tt
sorted_unknown_last sort latest (x ∷ xs) (least, s) = (
  λ e.
      All-map (λ y. IsLe (compare_jobs sort latest x y)) (λ y. main_key sort y ≡ none) xs
        (λ y. unknown_behind sort latest x y e) least,
  sorted_unknown_last sort latest xs s,
)

-- In every order, the newest and the oldest first alike, the jobs that lack the date or score the
-- order is about stand behind all the jobs that have it.
pub sort_jobs_unknown_last :
    (sort : JobSort) (jobs : List SortableJob) → HasUnknownLast sort (sort_jobs sort jobs)
sort_jobs_unknown_last sort jobs =
    sorted_unknown_last sort (latest_sync_run_id jobs) (sort_jobs sort jobs)
      (sort_jobs-IsSorted sort jobs).1
