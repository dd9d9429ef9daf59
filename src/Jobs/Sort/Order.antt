-- ===== src/Jobs/Sort/Order.antt =====
-- The comparison of two jobs is a comparison in the sense of `Array.prototype.sort`, in every order.
use internship_pilot.Prelude.{ℕ, ◌≡◌, arith, not, Option, List, ◌==◌, if◌then◌else◌, String}
use internship_pilot.Prelude.Int.{ℤ, pos, negsuc, sub_ℕ}
use internship_pilot.Jobs.Sort.{
  JobSort, newest, oldest, match, discovered, SortableJob, time, discovered_at, score,
  compare_desc_nulls_last, compare_asc_nulls_last, compare_first, compare_discovery, compare_ids,
  compare_rows, compare_jobs, row_index_in_latest_sync, or_next,
}
use internship_pilot.Jobs.Sort.Comparator.{
  IsComparator, IsComparator-on, IsComparator-or_next, desc-IsComparator, asc-IsComparator,
  text_eq→eq, text_lt_trans, text_tri,
}

first-IsComparator : (sort : JobSort) → IsComparator (compare_first sort)
unfolding compare_first
first-IsComparator match = IsComparator-on compare_desc_nulls_last score desc-IsComparator
first-IsComparator discovered =
    IsComparator-on compare_desc_nulls_last discovered_at desc-IsComparator
first-IsComparator oldest =
    IsComparator-on compare_asc_nulls_last (λ (a : SortableJob). time a.source_posted_at)
      asc-IsComparator
first-IsComparator newest =
    IsComparator-on compare_desc_nulls_last (λ (a : SortableJob). time a.source_posted_at)
      desc-IsComparator

discovery-IsComparator : (sort : JobSort) → IsComparator (compare_discovery sort)
unfolding compare_discovery
discovery-IsComparator oldest =
    IsComparator-on compare_asc_nulls_last discovered_at asc-IsComparator
discovery-IsComparator _ = IsComparator-on compare_desc_nulls_last discovered_at desc-IsComparator

rows-IsComparator : (latest : Option String) → IsComparator (compare_rows latest)
unfolding compare_rows
rows-IsComparator latest =
    IsComparator-on cmp (λ a. row_index_in_latest_sync a latest)
      (record {
        flips = λ a b. (λ h. ground arith, λ h. ground arith);
        transitive = λ a b c p q. ground arith;
      })
  where
    cmp : ℕ → ℕ → ℤ
    cmp a b = if not (a == b) then sub_ℕ a b else pos 0

ids-IsComparator : (sort : JobSort) → IsComparator (compare_ids sort)
unfolding compare_ids
ids-IsComparator oldest = record {
  flips = λ a b. (λ h. ground (arith, text_tri a b), λ h. ground (arith, text_tri a b));
  transitive = λ a b c p q. ground (
    arith,
    text_tri a b,
    text_tri b c,
    text_tri a c,
    text_lt_trans a b c,
    text_eq→eq a b,
    text_eq→eq b c,
  );
}
ids-IsComparator _ = record {
  flips = λ a b. (λ h. ground (arith, text_tri a b), λ h. ground (arith, text_tri a b));
  transitive = λ a b c p q. ground (
    arith,
    text_tri a b,
    text_tri b c,
    text_tri a c,
    text_lt_trans c b a,
    text_eq→eq a b,
    text_eq→eq b c,
  );
}

-- In every order of the feed, the comparison of two jobs changes sign when they are swapped, and
-- "not after" is transitive; so a sort by it is well defined.
pub compare_jobs-IsComparator :
    (sort : JobSort) (latest : Option String) → IsComparator (compare_jobs sort latest)
unfolding compare_jobs
compare_jobs-IsComparator sort latest = IsComparator-or_next _ _ (first-IsComparator sort) (
    IsComparator-or_next _ _ (rows-IsComparator latest) (
      IsComparator-or_next _ _ (discovery-IsComparator sort)
        (IsComparator-on (compare_ids sort) (λ (a : SortableJob). a.id) (ids-IsComparator sort))))

or_next_tie : (x y : ℤ) → or_next x y ≡ pos 0 → y ≡ pos 0
or_next_tie (pos n) y e = ground arith
or_next_tie (negsuc n) y e = ground arith

compare_ids_tie : (sort : JobSort) (a b : List ℕ) → compare_ids sort a b ≡ pos 0 → a ≡ b
unfolding compare_ids
compare_ids_tie oldest a b e = text_eq→eq a b (ground arith)
compare_ids_tie _ a b e = text_eq→eq a b (ground arith)

-- Two jobs tie only if they have the same id, so a page order never depends on the input order.
pub compare_jobs_tie :
    (sort : JobSort) (latest : Option String) (a b : SortableJob)
    → compare_jobs sort latest a b ≡ pos 0
    → a.id ≡ b.id
unfolding compare_jobs
compare_jobs_tie sort latest a b e = compare_ids_tie sort a.id b.id (
    or_next_tie (compare_discovery sort a b) _
      (or_next_tie (compare_rows latest a b) _ (or_next_tie (compare_first sort a b) _ e)))
