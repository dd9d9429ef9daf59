-- ===== src/Sync/Freshness.antt =====
-- Probing whether a verified posting is still open, and the batch that rechecks the feed
-- (src/lib/sync/freshness.ts). The web and the regular expressions come in as `Web`. The eight
-- checks that the source runs at a time touch a row each; here they run one after the other.
pub mod Laws
use Prim.Native.String.{◌++◌ as concat}
use internship_pilot.Prelude.{
  ℕ, zero, suc, ◌+◌, ◌&&◌, ◌||◌, Bool, true, false, Option, none, some, List, [], ◌∷◌, String,
  str_eq, is_some, if◌then◌else◌, ltb, leb, ◌==◌, any, take, length, keep, min, max,
}
use internship_pilot.Prelude.Int.{ℤ, pos, negsuc, sub_ℕ, is_nonzero}
use internship_pilot.Database.{Table}
use internship_pilot.Program.{Program, Result, ok, err, database, ◌>>=◌, ◌>>◌, return}
use internship_pilot.Jobs.Sort.{sort_by}

pub data ProbeState : Type 0 where
  open_state closed_state unknown_state : ProbeState

pub record AvailabilityProbe : Type 0 where
  pub state : ProbeState
  pub status : Option ℕ
  pub final_url : String
  pub reason : String

-- An answer to the request; `text` is `none` where reading it throws.
pub record Response : Type 0 where
  pub status : ℕ
  pub url : String
  pub content_type : String
  pub text : Option String

pub record Web : Type 0 where
  -- `none` where `fetch` throws
  pub fetch : String → Option Response
  pub show_number : ℕ → String
  pub to_iso_string : ℕ → String
  -- `text.includes(part)` and `text.slice(0, n)`
  pub includes_text : String → String → Bool
  pub prefix : ℕ → String → String
  -- `CLOSED_TEXT_PATTERNS`
  pub closed_text_patterns : List (String → Bool)

-- The columns of `Job` that the batch reads or writes, under the job's id.
pub record FreshJob : Type 0 where
  pub active_feed : Bool
  pub verification_status : String
  pub official_application_url : Option String
  pub last_verified_at : Option ℕ
  pub source_posted_at : Option ℕ
  pub reason_code : Option String
  pub verification_reason : Option String
  pub http_status_at_verification : Option ℕ
  pub classification : Option String
  pub classification_reason : Option String

abbrev pub official_verified : String
official_verified = "VERIFIED_OFFICIAL_AT_LAST_CHECK"

abbrev pub closed_confirmed : String
closed_confirmed = "Closed"

abbrev pub is_gone : ℕ → Bool
is_gone status = status == 404 || status == 410

abbrev pub is_success : ℕ → Bool
is_success status = leb 200 status && ltb status 300

-- `response.url || url`
abbrev pub url_or : String → String → String
url_or a b = if str_eq a "" then b else a

module _ (web : Web) where
  unfoldable pub looks_closed_html : String → Bool
  looks_closed_html html =
      let sample = web.prefix 750000 html in any (λ p. p sample) web.closed_text_patterns

  abbrev pub is_text_content : Response → Bool
  is_text_content r =
      web.includes_text r.content_type "html" || web.includes_text r.content_type "text"

  abbrev pub unreachable : String → AvailabilityProbe
  unreachable url = record {
    state = unknown_state;
    status = none;
    final_url = url;
    reason =
        "Official posting could not be reached during this check; leaving its prior state unchanged.";
  }

  abbrev pub probe_with : ProbeState → Response → String → String → AvailabilityProbe
  probe_with state r url reason = record {
    state = state;
    status = some r.status;
    final_url = url_or r.url url;
    reason = reason;
  }

  abbrev pub open_probe : Response → String → AvailabilityProbe
  open_probe r url =
      probe_with open_state r url
        "Official posting is reachable and does not contain a confirmed closed/expired signal."

  abbrev pub probe_text : Option String → Response → String → AvailabilityProbe
  probe_text none r url = unreachable url
  probe_text (some html) r url =
      if looks_closed_html html
      then probe_with closed_state r url
          "Official posting explicitly says the job is closed, expired, filled, removed, or no longer available."
      else open_probe r url

  abbrev pub probe_response : Option Response → String → AvailabilityProbe
  probe_response none url = unreachable url
  probe_response (some r) url =
      if is_gone r.status
      then probe_with closed_state r url
          (concat "Official posting returned HTTP " (concat (web.show_number r.status) "."))
      else if is_success r.status
      then (if is_text_content r then probe_text r.text r url else open_probe r url)
      else probe_with unknown_state r url (
          concat "Official posting returned HTTP " (
            concat (web.show_number r.status)
              "; treating availability as unknown rather than closed."))

  unfoldable pub probe_official_job_availability : String → AvailabilityProbe
  probe_official_job_availability url = probe_response (web.fetch url) url

  abbrev pub gone_status : Option ℕ → Bool
  gone_status none = false
  gone_status (some status) = is_gone status

  abbrev pub closed_job : ℕ → AvailabilityProbe → FreshJob → FreshJob
  closed_job now p j = record j {
    verification_status = closed_confirmed;
    reason_code = some (if gone_status p.status then "CLOSED_NOT_FOUND" else "CLOSED_EXPIRED");
    verification_reason = some p.reason;
    last_verified_at = some now;
    http_status_at_verification = p.status;
    active_feed = false;
    classification = some "CONFIRMED_CLOSED";
    classification_reason = some p.reason;
  }

  abbrev pub open_job : ℕ → AvailabilityProbe → FreshJob → FreshJob
  open_job now p j = record j {
    verification_status = official_verified;
    reason_code = some "OFFICIAL_VERIFIED";
    verification_reason = some (
        concat "Official posting rechecked and reachable at " (concat (web.to_iso_string now) "."));
    last_verified_at = some now;
    http_status_at_verification = p.status;
  }

-- Earlier first, a missing instant before every other.
abbrev pub compare_nulls_first : Option ℕ → Option ℕ → ℤ
compare_nulls_first none none = pos 0
compare_nulls_first none (some b) = negsuc 0
compare_nulls_first (some a) none = pos 1
compare_nulls_first (some a) (some b) = if a == b then pos 0 else sub_ℕ a b

abbrev pub compare_due : String × FreshJob → String × FreshJob → ℤ
compare_due a b =
    let first = compare_nulls_first a.1.last_verified_at b.1.last_verified_at in
    if is_nonzero first
    then first
    else compare_nulls_first a.1.source_posted_at b.1.source_posted_at

abbrev pub is_rechecked : FreshJob → Bool
is_rechecked j =
    j.active_feed
    && (str_eq j.verification_status official_verified && is_some j.official_application_url)

pub record Counts : Type 0 where
  pub checked : ℕ
  pub open_count : ℕ
  pub closed_count : ℕ
  pub unknown_count : ℕ

abbrev pub is_open : ProbeState → Bool
is_open open_state = true
is_open _ = false

abbrev pub is_closed : ProbeState → Bool
is_closed closed_state = true
is_closed _ = false

abbrev pub is_unknown : ProbeState → Bool
is_unknown unknown_state = true
is_unknown _ = false

abbrev pub counts_of : List ProbeState → Counts
counts_of outcomes = record {
  checked = length outcomes;
  open_count = length (keep is_open outcomes);
  closed_count = length (keep is_closed outcomes);
  unknown_count = length (keep is_unknown outcomes);
}

module _ (J : Table FreshJob) where
  unfoldable pub update_fresh : String → (FreshJob → FreshJob) → Program J.Tab (Unit {0})
  update_fresh id f t =
      if is_some (J.find_unique id t)
      then (ok tt, J.update_at id (λ _. true) f t)
      else (err (database "P2025"), t)

  -- `Math.max(1, Math.min(limit, 50))` of the postings that were longest without a check.
  unfoldable pub due_jobs : ℕ → J.Tab → List (String × FreshJob)
  due_jobs limit t =
      take (max 1 (min limit 50)) (sort_by compare_due (J.find_many (λ _ j. is_rechecked j) t))

module _ (J : Table FreshJob) (web : Web) where
  abbrev pub write_outcome : ProbeState → AvailabilityProbe → ℕ → String → Program J.Tab (Unit {0})
  write_outcome closed_state p now id = update_fresh J id (closed_job web now p)
  write_outcome open_state p now id = update_fresh J id (open_job web now p)
  write_outcome unknown_state p now id = return tt

  abbrev pub recheck_at : Option String → ℕ → String → Program J.Tab ProbeState
  recheck_at none now id = return unknown_state
  recheck_at (some url) now id =
      let p = probe_official_job_availability web url in
      write_outcome p.state p now id >> return p.state

  -- One posting of the batch, rechecked at the address that was read with it.
  unfoldable pub recheck_job : ℕ → String × FreshJob → Program J.Tab ProbeState
  recheck_job now (id, j) = recheck_at j.official_application_url now id

  unfoldable pub recheck_all : ℕ → List (String × FreshJob) → Program J.Tab (List ProbeState)
  recheck_all now [] = return []
  recheck_all now (job ∷ jobs) =
      recheck_job now job >>= λ o. recheck_all now jobs >>= λ os. return (o ∷ os)

  unfoldable pub run_freshness_verification_batch : ℕ → ℕ → Program J.Tab Counts
  run_freshness_verification_batch now limit t =
      (recheck_all now (due_jobs J limit t) >>= λ outcomes. return (counts_of outcomes)) t
