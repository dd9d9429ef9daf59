-- ===== src/Cron/Origin.antt =====
-- Where a lane run comes from (src/lib/cron/lane.ts): `leaseKey`, `cronInvocationOrigin` and
-- `cronLaneSource`. The markers name an origin for the run record and let nobody in.
use Prim.Native.String.{◌++◌ as concat}
use text.Mathlib.Text.{starts_with}
use internship_pilot.Prelude.{◌&&◌, not, Option, none, some, String, str_eq, if◌then◌else◌}

pub data CronLane : Type 0 where
  fresh standard maintenance : CronLane

abbrev pub lane_name : CronLane → String
lane_name fresh = "fresh"
lane_name standard = "standard"
lane_name maintenance = "maintenance"

unfoldable pub lease_key : CronLane → String
lease_key lane = concat "cron:lease:job-ingestion:" (lane_name lane)

pub data InvocationOrigin : Type 0 where
  vercel_cron_markers authorized_external : InvocationOrigin

abbrev pub origin_name : InvocationOrigin → String
origin_name vercel_cron_markers = "vercel-cron-markers"
origin_name authorized_external = "authorized-external"

abbrev pub header_or_empty : Option String → String
header_or_empty none = ""
header_or_empty (some h) = h

-- An empty schedule header counts as none.
unfoldable pub cron_invocation_origin :
    Option String → Option String → InvocationOrigin × Option String
cron_invocation_origin user_agent none = (authorized_external, none)
cron_invocation_origin user_agent (some schedule) =
    if starts_with (header_or_empty user_agent) "vercel-cron/" && not (str_eq schedule "")
    then (vercel_cron_markers, some schedule)
    else (authorized_external, none)

unfoldable pub cron_lane_source : CronLane → InvocationOrigin → String
cron_lane_source lane origin =
    concat "cron:" (concat (lane_name lane) (concat ":" (origin_name origin)))
