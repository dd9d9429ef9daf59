-- ===== src/Jobs/Sort.antt =====
-- The order of the job feed (src/lib/jobs/jobSort.ts). Times are milliseconds, ids are their UTF-16
-- code units, and a comparison's number is an integer.
pub mod Comparator
pub mod Order
pub mod Sorted
pub mod Keys
use internship_pilot.Prelude.{
  ℕ, ◌≡◌, Bool, true, false, not, ◌&&◌, Option, none, some, List, [], ◌∷◌, ltb, leb, ◌==◌,
  if◌then◌else◌, String, str_eq, or_else,
}
use internship_pilot.Prelude.Int.{ℤ, pos, negsuc, sub_ℕ, is_nonzero, pos_part}

pub data JobSort : Type 0 where
  newest oldest match discovered : JobSort

-- A date column: missing, a date, or a text that is no date.
pub data DateField : Type 0 where
  missing : DateField
  at : ℕ → DateField
  unreadable : DateField

abbrev pub time : DateField → Option ℕ
time missing = none
time (at ms) = some ms
time unreadable = none

pub record SortableJob : Type 0 where
  pub id : List ℕ
  pub source_posted_at : DateField
  pub source_captured_at : DateField
  pub source_sync_run_id : Option String
  pub source_row_index : Option ℕ
  pub first_seen_at : DateField
  pub created_at : DateField
  pub match_score : Option ℕ
  pub match_results : List ℕ

abbrev pub discovered_at : SortableJob → Option ℕ
discovered_at job = or_else (time job.first_seen_at) (time job.created_at)

abbrev pub first_score : List ℕ → Option ℕ
first_score [] = none
first_score (s ∷ _) = some s

abbrev pub score : SortableJob → Option ℕ
score job = or_else (first_score job.match_results) job.match_score

-- A run id that is not null and not empty.
abbrev pub run_of : Option String → Option String
run_of none = none
run_of (some r) = if str_eq r "" then none else some r

-- The best run so far, with its capture time.
abbrev pub better_run : Option String → Option ℕ → Option (String × ℕ) → Option (String × ℕ)
better_run none captured best = best
better_run (some run) none best = best
better_run (some run) (some captured) none = some (run, captured)
better_run (some run) (some captured) (some (best_run, best)) =
    if ltb best captured then some (run, captured) else some (best_run, best)

unfoldable pub latest_from : Option (String × ℕ) → List SortableJob → Option (String × ℕ)
latest_from best [] = best
latest_from best (job ∷ jobs) =
    latest_from (better_run (run_of job.source_sync_run_id) (time job.source_captured_at) best) jobs

abbrev pub run_name : Option (String × ℕ) → Option String
run_name none = none
run_name (some (run, captured)) = some run

unfoldable pub latest_sync_run_id : List SortableJob → Option String
unfolding latest_from
latest_sync_run_id jobs = run_name (latest_from none jobs)

-- `Number.MAX_SAFE_INTEGER`
abbrev pub max_safe_integer : ℕ
max_safe_integer = 9007199254740991

abbrev pub in_run : Option String → Option String → Bool
in_run (some run) (some latest) = str_eq run latest
in_run _ _ = false

abbrev pub index_or_last : Option ℕ → ℕ
index_or_last none = max_safe_integer
index_or_last (some i) = i

unfoldable pub row_index_in_latest_sync : SortableJob → Option String → ℕ
row_index_in_latest_sync job latest =
    if in_run job.source_sync_run_id latest
    then index_or_last job.source_row_index
    else max_safe_integer

unfoldable pub compare_desc_nulls_last : Option ℕ → Option ℕ → ℤ
compare_desc_nulls_last none none = pos 0
compare_desc_nulls_last none (some b) = pos 1
compare_desc_nulls_last (some a) none = negsuc 0
compare_desc_nulls_last (some a) (some b) = if a == b then pos 0 else sub_ℕ b a

unfoldable pub compare_asc_nulls_last : Option ℕ → Option ℕ → ℤ
compare_asc_nulls_last none none = pos 0
compare_asc_nulls_last none (some b) = pos 1
compare_asc_nulls_last (some a) none = negsuc 0
compare_asc_nulls_last (some a) (some b) = if a == b then pos 0 else sub_ℕ a b

-- `<` of two texts, by their code units.
unfoldable pub text_lt : List ℕ → List ℕ → Bool
text_lt [] [] = false
text_lt [] (y ∷ ys) = true
text_lt (x ∷ xs) [] = false
text_lt (x ∷ xs) (y ∷ ys) =
    let rest = text_lt xs ys in if ltb x y then true else if ltb y x then false else rest

unfoldable pub text_eq : List ℕ → List ℕ → Bool
text_eq [] [] = true
text_eq (x ∷ xs) (y ∷ ys) = let rest = text_eq xs ys in x == y && rest
text_eq _ _ = false

-- `if (by !== 0) return by;` before the rest.
abbrev pub or_next : ℤ → ℤ → ℤ
or_next by rest = if is_nonzero by then by else rest

-- The first comparison of each order.
unfoldable pub compare_first : JobSort → SortableJob → SortableJob → ℤ
unfolding compare_desc_nulls_last compare_asc_nulls_last
compare_first match a b = compare_desc_nulls_last (score a) (score b)
compare_first discovered a b = compare_desc_nulls_last (discovered_at a) (discovered_at b)
compare_first oldest a b =
    compare_asc_nulls_last (time a.source_posted_at) (time b.source_posted_at)
compare_first newest a b =
    compare_desc_nulls_last (time a.source_posted_at) (time b.source_posted_at)

unfoldable pub compare_discovery : JobSort → SortableJob → SortableJob → ℤ
unfolding compare_desc_nulls_last compare_asc_nulls_last
compare_discovery oldest a b = compare_asc_nulls_last (discovered_at a) (discovered_at b)
compare_discovery _ a b = compare_desc_nulls_last (discovered_at a) (discovered_at b)

unfoldable pub compare_ids : JobSort → List ℕ → List ℕ → ℤ
unfolding text_eq text_lt
compare_ids oldest a b = if text_eq a b then pos 0 else if text_lt a b then negsuc 0 else pos 1
compare_ids _ a b = if text_eq a b then pos 0 else if text_lt b a then negsuc 0 else pos 1

unfoldable pub compare_rows : Option String → SortableJob → SortableJob → ℤ
unfolding row_index_in_latest_sync
compare_rows latest a b =
    let row_a = row_index_in_latest_sync a latest in
    let row_b = row_index_in_latest_sync b latest in
    if not (row_a == row_b) then sub_ℕ row_a row_b else pos 0

unfoldable pub compare_jobs : JobSort → Option String → SortableJob → SortableJob → ℤ
unfolding compare_first compare_rows compare_discovery compare_ids
compare_jobs sort latest a b = or_next (compare_first sort a b) (
    or_next (compare_rows latest a b)
      (or_next (compare_discovery sort a b) (compare_ids sort a.id b.id)))

-- `Array.prototype.sort`: stable, and `a` stays before `b` where their comparison is at most 0.
abbrev pub is_ahead : ℤ → Bool
is_ahead z = leb (pos_part z) 0

module _ {A : Type 0} (cmp : A → A → ℤ) where
  unfoldable pub insert : A → List A → List A
  insert x [] = x ∷ []
  insert x (y ∷ ys) = let rest = insert x ys in if is_ahead (cmp x y) then x ∷ y ∷ ys else y ∷ rest

  unfoldable pub sort_by : List A → List A
  unfolding insert
  sort_by [] = []
  sort_by (x ∷ xs) = insert x (sort_by xs)

unfoldable pub sort_jobs : JobSort → List SortableJob → List SortableJob
unfolding sort_by compare_jobs latest_sync_run_id
sort_jobs sort jobs = sort_by (compare_jobs sort (latest_sync_run_id jobs)) jobs
