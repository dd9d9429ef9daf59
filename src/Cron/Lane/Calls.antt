-- ===== src/Cron/Lane/Calls.antt =====
-- The calls of `acquireLane` and `releaseLane` as they run side by side: each takes one database
-- statement at a time, in any order, while the clock moves on.
use internship_pilot.Prelude.{
  ℕ, ◌+◌, ◌≡◌, ◌≢◌, Bool, true, false, Option, none, some, ◌==◌, if◌then◌else◌, String,
}
use internship_pilot.Database.{Table}
use internship_pilot.Cron.Lane.{
  Runtime, LeaseOutcome, acquired, refused, lease_for, claim_expired, drop_owned,
}

-- Where a call stands: `occupied` after a failed `create`, `seen` after the row was read, `leaving`
-- after `releaseLane` has read the row.
pub data Phase (Text : Type 0) : Type 0 where
  idle : Phase Text
  started : Phase Text
  occupied : Phase Text
  seen : Option Text → Phase Text
  held : Phase Text
  turned_away : Phase Text
  leaving : Option Text → Phase Text
  finished : Phase Text

abbrev pub is_idle : {Text : Type 0} → Phase Text → Bool
is_idle idle = true
is_idle _ = false

-- The call has taken the lease and has not yet given it back.
abbrev pub is_holding : {Text : Type 0} → Phase Text → Bool
is_holding held = true
is_holding (leaving current) = true
is_holding _ = false

abbrev pub phase_of : {Text : Type 0} → LeaseOutcome → Phase Text
phase_of (acquired holder) = held
phase_of (refused holder expires) = turned_away

pub record Call (Text : Type 0) : Type 0 where
  pub phase : Phase Text
  pub holder : String
  pub now : ℕ
  pub ttl : ℕ

module _ (rt : Runtime) (T : Table rt.Text) (key : String) where
  open rt use {Text, stringify}
  open T use {Tab, find_unique, create}

  -- The text that the call stores, and when that lease ends.
  abbrev pub value : Call Text → Text
  value c = stringify (lease_for rt c.holder c.now c.ttl)

  abbrev pub expiry : Call Text → ℕ
  expiry c = c.now + c.ttl

  -- One database statement of the call.
  unfoldable pub step_phase : Phase Text → Call Text → Tab → Phase Text × Tab
  unfolding claim_expired drop_owned
  step_phase started c t = elim (create (λ _ _. false) key (value c) t) [
    | some u ↦ (held, u)
    | none ↦ (occupied, t)
  ]
  step_phase occupied c t = (seen (find_unique key t), t)
  step_phase (seen current) c t =
      let (outcome, u) = claim_expired rt T key c.holder c.now c.ttl current t in
      (phase_of outcome, u)
  step_phase held c t = (leaving (find_unique key t), t)
  step_phase (leaving current) c t = (finished, drop_owned rt T key c.holder current t)
  step_phase phase c t = (phase, t)

  pub record System : Type 0 where
    pub calls : ℕ → Call Text
    pub table : Tab
    pub clock : ℕ

  abbrev pub put_call : ℕ → Call Text → System → ℕ → Call Text
  put_call i c s j = if j == i then c else s.calls j

  unfoldable pub advance : ℕ → System → System
  unfolding step_phase
  advance i s =
      let c = s.calls i in
      let (phase, table) = step_phase c.phase c s.table in
      record s { calls = put_call i (record c { phase = phase }) s; table = table }

  -- A call begins at the present time under a holder name of its own.
  pub data Step (s u : System) : Type 0 where
    begin :
        (i : ℕ) (holder : String) (ttl : ℕ)
        → is_idle (s.calls i).phase ≡ true
        → ((j : ℕ) → is_idle (s.calls j).phase ≡ false → (s.calls j).holder ≢ holder)
        → u ≡ record s {
          calls =
              put_call i (record { phase = started; holder = holder; now = s.clock; ttl = ttl }) s;
        }
        → Step s u
    run : (i : ℕ) → u ≡ advance i s → Step s u
    tick : (d : ℕ) → u ≡ record s { clock = s.clock + d } → Step s u

  pub data Reach (s : System) : System → Type 0 where
    here : Reach s s
    next : {t u : System} → Reach s t → Step t u → Reach s u
