-- ===== src/Jobs/Sort/Keys.antt =====
-- The keys by which each order of the feed (src/lib/jobs/jobSort.ts) places two jobs.
use mathlib.Core.List.{Permᴰ}
use internship_pilot.Prelude.{ℕ, ◌≤◌, ◌≡◌, arith, some, Option, List, [], ◌∷◌, String, All, All-map}
use internship_pilot.Jobs.Sort.{
  JobSort, match, discovered, newest, oldest, SortableJob, compare_first, compare_rows,
  compare_discovery, compare_jobs, sort_jobs, latest_sync_run_id, row_index_in_latest_sync,
  discovered_at, score, time, compare_desc_nulls_last, compare_asc_nulls_last,
}
use internship_pilot.Prelude.Int.{neg_part}
use internship_pilot.Jobs.Sort.Comparator.{IsLe, or_next_le}
use internship_pilot.Jobs.Sort.Sorted.{IsSorted, main_key, sort_jobs-IsSorted}

-- The oldest first counts up, every other order counts down.
abbrev pub IsBefore : JobSort → ℕ → ℕ → Type 0
IsBefore oldest p q = p ≤ q
IsBefore _ p q = q ≤ p

-- By the main key; where it ties, by the row in the latest sync run; where that ties too, by the
-- time of discovery.
pub record IsInOrder (sort : JobSort) (latest : Option String) (a b : SortableJob) : Type 0 where
  pub by_key : (p q : ℕ) → main_key sort a ≡ some p → main_key sort b ≡ some q → IsBefore sort p q
  pub by_row :
      main_key sort a ≡ main_key sort b
      → row_index_in_latest_sync a latest ≤ row_index_in_latest_sync b latest
  pub by_discovery :
      (p q : ℕ)
      → main_key sort a ≡ main_key sort b
      → row_index_in_latest_sync a latest ≡ row_index_in_latest_sync b latest
      → discovered_at a ≡ some p
      → discovered_at b ≡ some q
      → IsBefore sort p q

-- Every two jobs of the list, the one that stands first on the left.
abbrev pub IsOrdered : JobSort → Option String → List SortableJob → Type 0
IsOrdered sort latest [] = Unit
IsOrdered sort latest (x ∷ xs) = All (IsInOrder sort latest x) xs × IsOrdered sort latest xs

desc_le :
    (a b : Option ℕ) (p q : ℕ)
    → a ≡ some p
    → b ≡ some q
    → IsLe (compare_desc_nulls_last a b)
    → q ≤ p
unfolding compare_desc_nulls_last
desc_le a b p q e f h = ground arith

asc_le :
    (a b : Option ℕ) (p q : ℕ) → a ≡ some p → b ≡ some q → IsLe (compare_asc_nulls_last a b) → p ≤ q
unfolding compare_asc_nulls_last
asc_le a b p q e f h = ground arith

desc_tie : (a b : Option ℕ) → a ≡ b → neg_part (compare_desc_nulls_last a b) ≤ 0
unfolding compare_desc_nulls_last
desc_tie a b e = ground arith

asc_tie : (a b : Option ℕ) → a ≡ b → neg_part (compare_asc_nulls_last a b) ≤ 0
unfolding compare_asc_nulls_last
asc_tie a b e = ground arith

rows_le :
    (latest : Option String) (a b : SortableJob)
    → IsLe (compare_rows latest a b)
    → row_index_in_latest_sync a latest ≤ row_index_in_latest_sync b latest
unfolding compare_rows
rows_le latest a b h = ground arith

rows_tie :
    (latest : Option String) (a b : SortableJob)
    → row_index_in_latest_sync a latest ≡ row_index_in_latest_sync b latest
    → neg_part (compare_rows latest a b) ≤ 0
unfolding compare_rows
rows_tie latest a b e = ground arith

first_key :
    (sort : JobSort) (a b : SortableJob) (p q : ℕ)
    → main_key sort a ≡ some p
    → main_key sort b ≡ some q
    → IsLe (compare_first sort a b)
    → IsBefore sort p q
unfolding compare_first
first_key match a b p q = desc_le (score a) (score b) p q
first_key discovered a b p q = desc_le (discovered_at a) (discovered_at b) p q
first_key newest a b p q = desc_le (time a.source_posted_at) (time b.source_posted_at) p q
first_key oldest a b p q = asc_le (time a.source_posted_at) (time b.source_posted_at) p q

first_tie :
    (sort : JobSort) (a b : SortableJob)
    → main_key sort a ≡ main_key sort b
    → neg_part (compare_first sort a b) ≤ 0
unfolding compare_first
first_tie match a b = desc_tie (score a) (score b)
first_tie discovered a b = desc_tie (discovered_at a) (discovered_at b)
first_tie newest a b = desc_tie (time a.source_posted_at) (time b.source_posted_at)
first_tie oldest a b = asc_tie (time a.source_posted_at) (time b.source_posted_at)

discovery_key :
    (sort : JobSort) (a b : SortableJob) (p q : ℕ)
    → discovered_at a ≡ some p
    → discovered_at b ≡ some q
    → IsLe (compare_discovery sort a b)
    → IsBefore sort p q
unfolding compare_discovery
discovery_key match a b p q = desc_le (discovered_at a) (discovered_at b) p q
discovery_key discovered a b p q = desc_le (discovered_at a) (discovered_at b) p q
discovery_key newest a b p q = desc_le (discovered_at a) (discovered_at b) p q
discovery_key oldest a b p q = asc_le (discovered_at a) (discovered_at b) p q

IsInOrder-of_le :
    (sort : JobSort) (latest : Option String) (a b : SortableJob)
    → IsLe (compare_jobs sort latest a b)
    → IsInOrder sort latest a b
unfolding compare_jobs
IsInOrder-of_le sort latest a b h =
    let (first, rest) = (or_next_le (compare_first sort a b) _).0 h in
    record {
      by_key = λ p q e f. first_key sort a b p q e f first;
      by_row = λ e.
          rows_le latest a b
            ((or_next_le (compare_rows latest a b) _).0 (rest (first_tie sort a b e))).0;
      by_discovery = λ p q e r f g.
          let later =
            ((or_next_le (compare_rows latest a b) _).0 (rest (first_tie sort a b e))).1
              (rows_tie latest a b r) in
          discovery_key sort a b p q f g ((or_next_le (compare_discovery sort a b) _).0 later).0;
    }

IsOrdered-of_sorted :
    (sort : JobSort) (latest : Option String) (xs : List SortableJob)
    → IsSorted (compare_jobs sort latest) xs
    → IsOrdered sort latest xs
IsOrdered-of_sorted sort latest [] s = tt
IsOrdered-of_sorted sort latest (x ∷ xs) (least, s) = (
  All-map (λ y. IsLe (compare_jobs sort latest x y)) (IsInOrder sort latest x) xs
      (λ y. IsInOrder-of_le sort latest x y) least,
  IsOrdered-of_sorted sort latest xs s,
)

-- The sorted feed holds the same jobs as its input. Of two of its jobs with a known main key, the
-- one that stands first has the later posting date in the newest order, the earlier one in the
-- oldest, the higher score by match and the later discovery by discovery, or the same. Where the
-- main keys tie, the row in the latest sync run decides, the lower one first; where the rows tie
-- too, known times of discovery, the earlier one first in the oldest order and the later one in
-- the others.
pub sort_jobs-IsOrdered :
    (sort : JobSort) (jobs : List SortableJob)
    → Permᴰ (sort_jobs sort jobs) jobs
      × IsOrdered sort (latest_sync_run_id jobs) (sort_jobs sort jobs)
sort_jobs-IsOrdered sort jobs =
    let (same, sorted) = sort_jobs-IsSorted sort jobs in
    (same, IsOrdered-of_sorted sort (latest_sync_run_id jobs) (sort_jobs sort jobs) sorted)
