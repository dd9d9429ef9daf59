-- ===== src/Sync/Discovery/Queue.antt =====
-- Processing the due signals (src/lib/sync/liveDiscoveryQueue.ts): `nextRetryAt`,
-- `processLiveDiscoveryQueue` and `getLiveDiscoveryQueueHealth`.
use text.Mathlib.Text.{starts_with}
use internship_pilot.Prelude.{
  ℕ, ◌+◌, ◌-◌, ◌*◌, ◌^◌, ◌≡◌, ◌&&◌, ◌||◌, Bool, true, false, Option, none, some, List, [], ◌∷◌, ltb,
  leb, if◌then◌else◌, String, or_else, min, max, take, keep, length, is_some,
}
use internship_pilot.Prelude.Int.{ℤ, sub_ℕ}
use internship_pilot.Database.{Table}
use internship_pilot.Program.{Program, ok, err, database, ◌>>◌, return, each}
use internship_pilot.Jobs.Sort.{sort_by}
use internship_pilot.Sync.Discovery.{
  Signal, QueueState, pending, retry, resolved, closed, abandoned, QueueRecord, ResolutionState,
  found, gone, again, Resolution, Outcome, new, updated,
}

abbrev pub event_prefix : String
event_prefix = "liveDiscovery:event:"

abbrev pub event_max_age_ms : ℕ
event_max_age_ms = 7 * 24 * 60 * 60 * 1000

abbrev pub max_attempts : ℕ
max_attempts = 12

-- The JSON text of a row. `parse` gives `none` for a text that is no record.
pub record Codec : Type 1 where
  pub Text : Type 0
  pub stringify : QueueRecord → Text
  pub parse : Text → Option QueueRecord
  pub parse-stringify : (r : QueueRecord) → parse (stringify r) ≡ some r

-- The minutes of `nextRetryAt`.
unfoldable pub retry_minutes : ℕ → ℕ
retry_minutes attempts = min 120 (10 * 2 ^ min attempts 4)

unfoldable pub next_retry_at : ℕ → ℕ → ℕ
unfolding retry_minutes
next_retry_at clock attempts = clock + retry_minutes attempts * 60 * 1000

abbrev pub is_waiting : QueueState → Bool
is_waiting pending = true
is_waiting retry = true
is_waiting _ = false

abbrev pub is_due : ℕ → QueueRecord → Bool
is_due now r = is_waiting r.state && leb r.next_attempt_at now

abbrev pub posted_or_zero : QueueRecord → ℕ
posted_or_zero r = elim r.signal.source_posted_at [ none ↦ 0 | some t ↦ t ]

-- `b`'s time minus `a`'s: the newest signals first.
abbrev pub newest_first : String × QueueRecord → String × QueueRecord → ℤ
newest_first a b = sub_ℕ (posted_or_zero b.1) (posted_or_zero a.1)

abbrev pub is_too_old : ℕ → Signal → Bool
is_too_old now s = elim s.source_posted_at [
  | none ↦ false
  | some t ↦ ltb 0 t && ltb event_max_age_ms (now - t)
]

unfoldable pub next_state : ResolutionState → ℕ → Bool → QueueState
next_state found attempts too_old = resolved
next_state gone attempts too_old = closed
next_state again attempts too_old =
    if leb max_attempts attempts || too_old then abandoned else retry

-- The record that is written; `clock` is the time when the retry is planned.
unfoldable pub conclude : ℕ → ℕ → QueueRecord → Resolution → QueueRecord
unfolding next_state next_retry_at
conclude now clock r result =
    let attempts = r.attempts + 1 in
    let state = next_state result.state attempts (is_too_old now r.signal) in
    record r {
      state = state;
      attempts = attempts;
      last_attempt_at = some now;
      next_attempt_at = elim state [ retry ↦ next_retry_at clock attempts | _ ↦ now ];
      resolved_at = elim state [ resolved ↦ some now | _ ↦ r.resolved_at ];
      resolved_job_id = or_else result.job_id r.resolved_job_id;
      last_error = result.error;
    }

-- What a run reports; it has processed all that was due.
pub record QueueReport : Type 0 where
  pub due_count : ℕ
  pub resolved_count : ℕ
  pub closed_count : ℕ
  pub retried_count : ℕ
  pub abandoned_count : ℕ
  pub new_count : ℕ
  pub updated_count : ℕ

abbrev pub no_reports : ℕ → QueueReport
no_reports due = record {
  due_count = due;
  resolved_count = 0;
  closed_count = 0;
  retried_count = 0;
  abandoned_count = 0;
  new_count = 0;
  updated_count = 0;
}

-- The up to eight workers of a run are one here: it takes the items in order and stops at a write
-- that throws, where the other workers of the source go on with their items.
module _ (cd : Codec) (T : Table cd.Text) where
  open cd use {Text, stringify, parse}

  abbrev pub add_record :
      String → Option QueueRecord → List (String × QueueRecord) → List (String × QueueRecord)
  add_record k none rest = rest
  add_record k (some r) rest = (k, r) ∷ rest

  abbrev pub parsed : List (String × Text) → List (String × QueueRecord)
  parsed [] = []
  parsed ((k, v) ∷ rows) = add_record k (parse v) (parsed rows)

  -- The records that a run processes, in the order in which its workers take them.
  unfoldable pub due_items : ℕ → ℕ → T.Tab → List (String × QueueRecord)
  unfolding sort_by
  due_items now limit t =
      let rows = take 1500 (T.find_many (λ k v. starts_with k event_prefix) t) in
      let due = keep (λ (item : String × QueueRecord). is_due now item.1) (parsed rows) in
      take (max 1 (min limit 200)) (sort_by newest_first due)

  module _ (now : ℕ) (clock : String → ℕ) (resolve : Signal → Resolution) where
    -- What one worker does with one item: resolve its signal, then `appSetting.update`.
    unfoldable pub process_item : String × QueueRecord → Program T.Tab (Unit {0})
    unfolding conclude
    process_item (k, r) t =
        if is_some (T.find_unique k t)
        then (
          ok tt,
          T.update_at k (λ _. true) (λ _. stringify (conclude now (clock k) r (resolve r.signal)))
              t,
        )
        else (err (database "P2025"), t)

    abbrev pub tallied : QueueState → Option Outcome → QueueReport → QueueReport
    tallied resolved outcome c = record c {
      resolved_count = c.resolved_count + 1;
      new_count = c.new_count + (elim outcome [ some new ↦ 1 | _ ↦ 0 ]);
      updated_count = c.updated_count + (elim outcome [ some updated ↦ 1 | _ ↦ 0 ]);
    }
    tallied closed outcome c = record c { closed_count = c.closed_count + 1 }
    tallied abandoned outcome c = record c { abandoned_count = c.abandoned_count + 1 }
    tallied _ outcome c = record c { retried_count = c.retried_count + 1 }

    abbrev pub report_from : List (String × QueueRecord) → QueueReport → QueueReport
    report_from [] c = c
    report_from ((k, r) ∷ items) c =
        let result = resolve r.signal in
        let state = next_state result.state (r.attempts + 1) (is_too_old now r.signal) in
        report_from items (tallied state result.outcome c)

    unfoldable pub process_live_discovery_queue : ℕ → Program T.Tab QueueReport
    unfolding due_items process_item next_state
    process_live_discovery_queue limit t =
        let due = due_items now limit t in
        (each process_item due >> return (report_from due (no_reports (length due)))) t
