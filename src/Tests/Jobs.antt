-- ===== src/Tests/Jobs.antt =====
-- The order and the availability of jobs at concrete inputs.
use mathlib.Core.List.{Permᴰ}
use internship_pilot.Prelude.{◌≡◌, ◌≢◌, refl, arith, Option, none, some, List, [], ◌∷◌, String}
use internship_pilot.Prelude.Int.{pos}
use internship_pilot.Jobs.Sort.{
  newest, oldest, SortableJob, at, missing, compare_jobs, sort_jobs, latest_sync_run_id,
}
use internship_pilot.Jobs.Sort.Comparator.{IsComparator}
use internship_pilot.Jobs.Sort.Order.{compare_jobs-IsComparator}
use internship_pilot.Jobs.Sort.Keys.{IsOrdered, sort_jobs-IsOrdered}
use internship_pilot.Jobs.Sort.Sorted.{
  HasUnknownLast, sort_jobs-respects-Perm, sort_jobs_unknown_last,
}

abbrev posted : SortableJob
posted = record {
  id = b'a' ∷ [];
  source_posted_at = at 50;
  source_captured_at = missing;
  source_sync_run_id = none;
  source_row_index = none;
  first_seen_at = at 60;
  created_at = at 60;
  match_score = some 80;
  match_results = [];
}

abbrev undated : SortableJob
undated = record posted { id = b'b' ∷ []; source_posted_at = missing }

abbrev feed : List SortableJob
feed = undated ∷ posted ∷ []

abbrev reversed_feed : List SortableJob
reversed_feed = posted ∷ undated ∷ []

sorted_feed : sort_jobs newest feed ≡ posted ∷ undated ∷ []
unfolding sort_jobs
sorted_feed = refl

compare_jobs-IsComparator_example : IsComparator (compare_jobs newest none)
compare_jobs-IsComparator_example = compare_jobs-IsComparator newest none

self_tie : compare_jobs oldest none posted posted ≡ pos 0
unfolding compare_jobs
self_tie = refl

sort_jobs-IsOrdered_example :
    Permᴰ (sort_jobs newest feed) feed
    × IsOrdered newest (latest_sync_run_id feed) (sort_jobs newest feed)
sort_jobs-IsOrdered_example = sort_jobs-IsOrdered newest feed

same_latest : latest_sync_run_id feed ≡ latest_sync_run_id reversed_feed
unfolding latest_sync_run_id
same_latest = refl

other_id : undated.id ≢ posted.id
other_id e = ground arith

sort_jobs-respects-Perm_example : sort_jobs newest feed ≡ sort_jobs newest reversed_feed
sort_jobs-respects-Perm_example =
    sort_jobs-respects-Perm newest feed reversed_feed (Permᴰ.swap refl refl)
      ((other_id, tt), (tt, tt)) same_latest

sort_jobs_unknown_last_example : HasUnknownLast newest (sort_jobs newest feed)
sort_jobs_unknown_last_example = sort_jobs_unknown_last newest feed

abbrev old_status : Option String
old_status = some "NeedsReview"
