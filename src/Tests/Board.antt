-- ===== src/Tests/Board.antt =====
-- The official board, the health counts and the document strategy at concrete inputs.
use internship_pilot.Prelude.{◌≤◌, ◌≡◌, ◌≢◌, refl, true, none, some, [], ◌∷◌}
use internship_pilot.Database.Memory.{Rows, memory}
use internship_pilot.Sync.Board.{
  BoardJob, closed, missed_again, is_tracked, is_off, distinct, reconcile_official_board_delta,
}
use internship_pilot.Sync.Board.Laws.{reconcile_closed}

abbrev listed : BoardJob
listed = record {
  company = "Acme";
  ats_type = some "greenhouse";
  ats_tenant = none;
  classification = "QUALIFYING_INTERNSHIP";
  source_job_id = some "s1";
  consecutive_board_misses = 1;
  board_missing_since = some 50;
  verification_status = some "ACTIVE_SOURCE_LISTED";
  reason_code = none;
  active_feed = true;
  closed_at = none;
}

abbrev table : Rows BoardJob
table = record { keys = "j1" ∷ []; look = λ k. some listed }

gone :
    (memory {Row = BoardJob}).find_unique "j1"
      (reconcile_official_board_delta memory 90 "Acme" "greenhouse" none [] ("s2" ∷ []) table).2
    ≡ some (closed 90 (missed_again listed))
unfolding reconcile_official_board_delta
gone = refl

changed : (closed 90 (missed_again listed)).closed_at ≢ listed.closed_at
changed e = cc

reconcile_closed_example :
    (is_tracked "Acme" "greenhouse" none listed ≡ true)
    × (is_off (distinct ("s2" ∷ [])) listed.source_job_id ≡ true)
    × (1 ≤ listed.consecutive_board_misses)
reconcile_closed_example =
    reconcile_closed memory 90 "Acme" "greenhouse" none [] ("s2" ∷ []) table "j1" listed
      (closed 90 (missed_again listed)) refl gone changed
