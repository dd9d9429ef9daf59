-- ===== src/Sync/Discovery/Enqueue.antt =====
-- Taking new signals into the queue (src/lib/sync/liveDiscoveryQueue.ts):
-- `enqueueJobrightFreshSignals` and its cursor.
use internship_pilot.Prelude.{
  ℕ, ◌-◌, ◌*◌, ◌≡◌, Bool, true, false, not, Option, none, some, List, [], ◌∷◌, ltb, leb,
  if◌then◌else◌, String, keep, length, is_some,
}
use internship_pilot.Database.{Table}
use internship_pilot.Sync.Discovery.{Signal, QueueRecord, pending}
use internship_pilot.Sync.Discovery.Queue.{Codec, event_max_age_ms}

abbrev pub cursor_key : String
cursor_key = "liveDiscovery:cursor:jobright-fresh"

abbrev pub cursor_overlap_ms : ℕ
cursor_overlap_ms = 15 * 60 * 1000

-- The counts by age and category are passed through and left out.
pub record CursorRecord : Type 0 where
  pub last_checked_at : ℕ
  pub last_source_posted_at : Option ℕ
  pub source_fresh : ℕ

pub record CursorCodec (Text : Type 0) : Type 0 where
  pub stringify : CursorRecord → Text
  pub parse : Text → Option CursorRecord
  pub parse-stringify : (c : CursorRecord) → parse (stringify c) ≡ some c

pub record Enqueued : Type 0 where
  pub considered : ℕ
  pub enqueued : ℕ
  pub already_queued : ℕ
  pub cursor_advanced_to : Option ℕ

unfoldable pub threshold : Option ℕ → ℕ → ℕ
threshold none now = now - event_max_age_ms
threshold (some previous) now = previous - cursor_overlap_ms

abbrev pub is_considered : ℕ → Signal → Bool
is_considered least s = elim s.source_posted_at [ none ↦ false | some t ↦ leb least t ]

abbrev pub fresh_record : ℕ → Signal → QueueRecord
fresh_record now s = record {
  source_job_id = s.source_job_id;
  state = pending;
  signal = s;
  attempts = 0;
  first_queued_at = now;
  last_attempt_at = none;
  next_attempt_at = now;
  resolved_at = none;
  resolved_job_id = none;
  last_error = none;
}

abbrev pub later : Option ℕ → Option ℕ → Option ℕ
later best none = best
later none (some t) = some t
later (some b) (some t) = if ltb b t then some t else some b

unfoldable pub latest_posted : Option ℕ → List Signal → Option ℕ
latest_posted best [] = best
latest_posted best (s ∷ signals) = latest_posted (later best s.source_posted_at) signals

-- `event_key` is the prefix with a hash of the source's job id.
module _ (cd : Codec) (cursors : CursorCodec cd.Text) (T : Table cd.Text)
    (event_key : String → String) where
  open cd use {Text}

  abbrev pub position : Option CursorRecord → Option ℕ
  position none = none
  position (some c) = c.last_source_posted_at

  abbrev pub cursor_of : Option Text → Option ℕ
  cursor_of none = none
  cursor_of (some v) = position (cursors.parse v)

  abbrev pub find_cursor : T.Tab → Option ℕ
  find_cursor t = cursor_of (T.find_unique cursor_key t)

  -- `createMany` with `skipDuplicates`.
  unfoldable pub create_records : ℕ → List Signal → T.Tab → T.Tab
  create_records now [] t = t
  create_records now (s ∷ signals) t =
      create_records now signals
        (elim (T.create (λ _ _. false) (event_key s.source_job_id)
          (cd.stringify (fresh_record now s)) t) [ none ↦ t | some u ↦ u ])

  unfoldable pub upsert_cursor : CursorRecord → T.Tab → T.Tab
  upsert_cursor c t =
      if is_some (T.find_unique cursor_key t)
      then T.update_at cursor_key (λ _. true) (λ _. cursors.stringify c) t
      else elim (T.create (λ _ _. false) cursor_key (cursors.stringify c) t) [
        | none ↦ t
        | some u ↦ u
      ]

  abbrev pub is_new : T.Tab → Signal → Bool
  is_new t s = not (is_some (T.find_unique (event_key s.source_job_id) t))

  abbrev pub considered_signals : ℕ → List Signal → T.Tab → List Signal
  considered_signals now jobs t = keep (is_considered (threshold (find_cursor t) now)) jobs

  abbrev pub new_signals : ℕ → List Signal → T.Tab → List Signal
  new_signals now jobs t = keep (is_new t) (considered_signals now jobs t)

  abbrev pub cursor_after : ℕ → List Signal → T.Tab → CursorRecord
  cursor_after now jobs t = record {
    last_checked_at = now;
    last_source_posted_at = latest_posted (find_cursor t) jobs;
    source_fresh = length jobs;
  }

  unfoldable pub enqueue_jobright_fresh_signals : ℕ → List Signal → T.Tab → Enqueued × T.Tab
  unfolding threshold latest_posted create_records upsert_cursor
  enqueue_jobright_fresh_signals now jobs t = (
    record {
      considered = length (considered_signals now jobs t);
      enqueued = length (new_signals now jobs t);
      already_queued = length (considered_signals now jobs t) - length (new_signals now jobs t);
      cursor_advanced_to = latest_posted (find_cursor t) jobs;
    },
    upsert_cursor (cursor_after now jobs t) (create_records now (new_signals now jobs t) t),
  )
