-- ===== src/Sync/Board.antt =====
-- Closing postings that left the employer's board (src/lib/sync/officialBoardDelta.ts):
-- `computeBoardDelta` and `reconcileOfficialBoardDelta`.
pub mod Laws
use internship_pilot.Prelude.{
  ℕ, ◌+◌, ◌≡◌, ◌&&◌, ◌||◌, Bool, true, false, not, Option, none, some, List, [], ◌∷◌, String,
  str_eq, is_text, keep, map, length, includes, leb, ◌==◌, if◌then◌else◌,
}
use internship_pilot.Database.{Table}

-- The columns of `Job` that the board is compared with.
pub record BoardJob : Type 0 where
  pub company : String
  pub ats_type : Option String
  pub ats_tenant : Option String
  pub classification : String
  pub source_job_id : Option String
  pub consecutive_board_misses : ℕ
  pub board_missing_since : Option ℕ
  pub verification_status : Option String
  pub reason_code : Option String
  pub active_feed : Bool
  pub closed_at : Option ℕ

abbrev pub misses_before_close : ℕ
misses_before_close = 2

pub record BoardDelta : Type 0 where
  pub new_source_job_ids : List String
  pub present_job_ids : List String
  pub missing_job_ids : List String
  pub close_job_ids : List String

-- A missing and an empty source id are on no side.
abbrev pub is_on : List String → Option String → Bool
is_on current none = false
is_on current (some id) = not (str_eq id "") && includes current id

abbrev pub is_off : List String → Option String → Bool
is_off current none = false
is_off current (some id) = not (str_eq id "") && not (includes current id)

abbrev pub is_present : List String → String × BoardJob → Bool
is_present current (id, job) = is_on current job.source_job_id

abbrev pub is_missing : List String → String × BoardJob → Bool
is_missing current (id, job) = is_off current job.source_job_id

abbrev pub is_to_close : String × BoardJob → Bool
is_to_close (id, job) = leb misses_before_close (job.consecutive_board_misses + 1)

abbrev pub is_first_miss : String × BoardJob → Bool
is_first_miss (id, job) = job.consecutive_board_misses == 0

abbrev pub ids : List (String × BoardJob) → List String
ids [] = []
ids ((id, job) ∷ jobs) = id ∷ ids jobs

unfoldable pub compute_board_delta :
    List String → List String → List (String × BoardJob) → Bool → BoardDelta
compute_board_delta previous current tracked successful =
    if not successful
    then record {
      new_source_job_ids = [];
      present_job_ids = [];
      missing_job_ids = [];
      close_job_ids = [];
    }
    else record {
      new_source_job_ids = keep (λ id. not (includes previous id)) current;
      present_job_ids = ids (keep (is_present current) tracked);
      missing_job_ids = ids (keep (is_missing current) tracked);
      close_job_ids = ids (keep is_to_close (keep (is_missing current) tracked));
    }

-- `[...new Set(ids.filter(Boolean))]`; its sort is for the snapshot alone.
abbrev pub distinct : List String → List String
distinct [] = []
distinct (id ∷ rest) =
    let more = distinct rest in if str_eq id "" || includes more id then more else id ∷ more

abbrev pub seen_again : BoardJob → BoardJob
seen_again job = record job { consecutive_board_misses = 0; board_missing_since = none }

abbrev pub missed_first : ℕ → BoardJob → BoardJob
missed_first now job = record job {
  consecutive_board_misses = job.consecutive_board_misses + 1;
  board_missing_since = some now;
}

abbrev pub missed_again : BoardJob → BoardJob
missed_again job = record job { consecutive_board_misses = job.consecutive_board_misses + 1 }

abbrev pub closed : ℕ → BoardJob → BoardJob
closed now job = record job {
  verification_status = some "Closed";
  reason_code = some "OFFICIAL_POSTING_REMOVED";
  classification = "CONFIRMED_CLOSED";
  active_feed = false;
  closed_at = some now;
}

abbrev pub is_tenant : Option String → BoardJob → Bool
is_tenant none job = true
is_tenant (some tenant) job = if str_eq tenant "" then true else is_text job.ats_tenant tenant

-- Which rows are compared with the board.
abbrev pub is_tracked : String → String → Option String → BoardJob → Bool
is_tracked company provider tenant job =
    str_eq job.company company
    && (is_text job.ats_type provider
        && (is_tenant tenant job && str_eq job.classification "QUALIFYING_INTERNSHIP"))

pub record Report : Type 0 where
  pub new_requisitions : ℕ
  pub missing : ℕ
  pub closed_count : ℕ
  pub reconciled : Bool

module _ (T : Table BoardJob) where
  abbrev pub within : List String → String → BoardJob → Bool
  within list id job = includes list id

  -- The four updates; one whose list is empty, which the source leaves out, changes no row.
  unfoldable pub write_delta : ℕ → List String → List String → BoardDelta → T.Tab → T.Tab
  write_delta now first again delta t = T.update_many (within delta.close_job_ids) (closed now) (
      T.update_many (within again) missed_again (
        T.update_many (within first) (missed_first now)
          (T.update_many (within delta.present_job_ids) seen_again t)))

  abbrev pub tracked_jobs : String → String → Option String → T.Tab → List (String × BoardJob)
  tracked_jobs company provider tenant t =
      T.find_many (λ k job. is_tracked company provider tenant job) t

  abbrev pub first_misses : List String → List (String × BoardJob) → List String
  first_misses missing tracked =
      ids (keep (λ (p : String × BoardJob). includes missing p.0 && is_first_miss p) tracked)

  -- With the snapshot for the company, `none` where the board was empty and nothing was written.
  unfoldable pub reconcile_official_board_delta :
      ℕ
      → String
      → String
      → Option String
      → List String
      → List String
      → T.Tab
      → Report × Option (List String) × T.Tab
  unfolding compute_board_delta write_delta
  reconcile_official_board_delta now company provider tenant previous ids_on_board t =
      let current = distinct ids_on_board in
      let tracked = tracked_jobs company provider tenant t in
      let delta = compute_board_delta previous current tracked true in
      let first = first_misses delta.missing_job_ids tracked in
      let again = keep (λ id. not (includes first id)) delta.missing_job_ids in
      if length current == 0
      then (
        record { new_requisitions = 0; missing = 0; closed_count = 0; reconciled = false },
        none,
        t,
      )
      else (
        record {
          new_requisitions = length delta.new_source_job_ids;
          missing = length delta.missing_job_ids;
          closed_count = length delta.close_job_ids;
          reconciled = true;
        },
        some current,
        write_delta now first again delta t,
      )
