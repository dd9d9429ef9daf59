-- ===== src/Sync/Discovery/Health.antt =====
-- The counts of the discovery queue by state (src/lib/sync/liveDiscoveryQueue.ts):
-- `getLiveDiscoveryQueueHealth`.
use text.Mathlib.Text.{starts_with}
use internship_pilot.Prelude.{
  ℕ, suc, ◌+◌, ◌≡◌, refl, arith, Option, none, some, List, [], ◌∷◌, String, take, length,
}
use internship_pilot.Database.{Table}
use internship_pilot.Sync.Discovery.{
  QueueState, pending, retry, resolved, closed, abandoned, QueueRecord,
}
use internship_pilot.Sync.Discovery.Queue.{Codec, event_prefix, parsed}
use internship_pilot.Sync.Discovery.Enqueue.{CursorCodec, CursorRecord, cursor_key}

pub record Counts : Type 0 where
  pub pending_count : ℕ
  pub retry_count : ℕ
  pub resolved_count : ℕ
  pub closed_count : ℕ
  pub abandoned_count : ℕ

abbrev pub no_counts : Counts
no_counts = record {
  pending_count = 0;
  retry_count = 0;
  resolved_count = 0;
  closed_count = 0;
  abandoned_count = 0;
}

abbrev pub count_state : QueueState → Counts → Counts
count_state pending c = record c { pending_count = suc c.pending_count }
count_state retry c = record c { retry_count = suc c.retry_count }
count_state resolved c = record c { resolved_count = suc c.resolved_count }
count_state closed c = record c { closed_count = suc c.closed_count }
count_state abandoned c = record c { abandoned_count = suc c.abandoned_count }

unfoldable pub count_records : List (String × QueueRecord) → Counts
count_records [] = no_counts
count_records ((k, r) ∷ rows) = count_state r.state (count_records rows)

abbrev pub total : Counts → ℕ
total c = c.pending_count + c.retry_count + c.resolved_count + c.closed_count + c.abandoned_count

module _ (cd : Codec) (cursors : CursorCodec cd.Text) (T : Table cd.Text) where
  abbrev pub event_rows : T.Tab → List (String × cd.Text)
  event_rows t = take 2000 (T.find_many (λ k v. starts_with k event_prefix) t)

  abbrev pub read_cursor : Option cd.Text → Option CursorRecord
  read_cursor none = none
  read_cursor (some v) = cursors.parse v

  unfoldable pub get_live_discovery_queue_health : T.Tab → Counts × Option CursorRecord
  unfolding count_records
  get_live_discovery_queue_health t =
      (count_records (parsed cd T (event_rows t)), read_cursor (T.find_unique cursor_key t))

count_total : (rows : List (String × QueueRecord)) → total (count_records rows) ≡ length rows
unfolding count_records
count_total [] = refl
count_total ((k, r) ∷ rows) = ground (arith, count_total rows)

module _ (cd : Codec) (cursors : CursorCodec cd.Text) (T : Table cd.Text) where
  -- The five counts add up to the number of rows read that hold a record: every one is counted
  -- under exactly one state.
  pub health_total :
      (t : T.Tab)
      → total (get_live_discovery_queue_health cd cursors T t).0
        ≡ length (parsed cd T (event_rows cd cursors T t))
  unfolding get_live_discovery_queue_health
  health_total t = count_total (parsed cd T (event_rows cd cursors T t))
