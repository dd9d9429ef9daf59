-- ===== src/Cron/Lane/Statements.antt =====
-- What one database statement of a call does to the row of the lane.
use internship_pilot.Prelude.{
  ℕ, ◌+◌, ◌≤◌, ◌<◌, ◌≡◌, ◌≢◌, ◌⊎◌, inl, inr, refl, sym, ap, ◌∙◌, arith, true, false, Option, none,
  some, String, str_eq, eq_iff, Bool-cases, Option-cases,
}
use internship_pilot.Database.{Table, hits, patched}
use internship_pilot.Database.Laws.{update_at_self, delete_at_self, create_self}
use internship_pilot.Cron.Lane.{
  Runtime, LeaseRecord, LeaseOutcome, acquired, refused, lease_for, parse_lease, lease_is_available,
  value_or_empty, refusal, claim_expired, drop_owned,
}
use internship_pilot.Cron.Lane.Calls.{
  Phase, idle, started, seen, held, leaving, is_idle, is_holding, phase_of, Call, value, expiry,
  step_phase,
}

module _ (rt : Runtime) where
  open rt use {Text, text_eq, text_eq_iff, empty, stringify, parse_json, to_iso, parse_date}

  -- What was written is read back.
  pub parse_lease-stringify : (r : LeaseRecord) → parse_lease rt (some (stringify r)) ≡ some r
  parse_lease-stringify r = ground (arith, rt.stringify_nonempty r, rt.parse_json-stringify r)

  stringify-ne-empty : (r : LeaseRecord) → stringify r ≢ empty
  stringify-ne-empty r e = ground (arith, rt.stringify_nonempty r, text_eq_iff (stringify r) empty)

  -- A lease that was read back is available from its expiry on.
  available_after :
      (current : Option Text) (holder : String) (now ttl later : ℕ)
      → lease_is_available rt (parse_lease rt current) later ≡ true
      → stringify (lease_for rt holder now ttl) ≡ value_or_empty rt current
      → now + ttl ≤ later
  available_after none holder now ttl later a e = absurd (stringify-ne-empty _ e)
  available_after (some v) holder now ttl later a e =
      let r = lease_for rt holder now ttl in
      let p : parse_lease rt (some v) ≡ some r =
        ap (λ x. parse_lease rt (some x)) (sym e) ∙ parse_lease-stringify r in
      let a' : lease_is_available rt (some r) later ≡ true =
        ap (λ x. lease_is_available rt x later) (sym p) ∙ a in
      ground (arith, rt.parse_date-to_iso (now + ttl))

  -- A row that was read as the call's own lease names the call's holder.
  pub holder_of_current :
      (current : Option Text) (r s : LeaseRecord)
      → parse_lease rt current ≡ some r
      → stringify s ≡ value_or_empty rt current
      → r.holder ≡ s.holder
  holder_of_current none r s p e = cc
  holder_of_current (some v) r s p e =
      let q : parse_lease rt (some v) ≡ some s =
        ap (λ x. parse_lease rt (some x)) (sym e) ∙ parse_lease-stringify s in
      cc

  pub refusal_away :
      (existing : Option LeaseRecord)
      → is_holding {Text = Text} (phase_of (refusal rt existing)) ≡ false
  refusal_away none = refl
  refusal_away (some r) = refl

  pub busy_outcome : (o : LeaseOutcome) → is_idle {Text = Text} (phase_of o) ≡ false
  busy_outcome (acquired holder) = refl
  busy_outcome (refused holder expires) = refl

  pub busy_of_holding : (p : Phase Text) → is_holding p ≡ true → is_idle p ≡ false
  busy_of_holding held h = refl
  busy_of_holding (leaving current) h = refl
  busy_of_holding _ h = cc

  module _ (T : Table Text) (key : String) where
    open T use {Tab, find_unique, create, update_at, count_at, delete_at}

    claim_keeps :
        (current : Option Text) (holder : String) (now ttl : ℕ) (d : Call Text) (t : Tab)
        → now < expiry rt T key d
        → find_unique key t ≡ some (value rt T key d)
        → find_unique key (claim_expired rt T key holder now ttl current t).1
          ≡ some (value rt T key d)
    unfolding claim_expired
    claim_keeps current holder now ttl d t l f =
        elim (Bool-cases (lease_is_available rt (parse_lease rt current) now)) [
          | inl a ↦ elim (Bool-cases (text_eq (value rt T key d) (value_or_empty rt current))) [
            | inl same ↦
                let late =
                  available_after current d.holder d.now d.ttl now a ((text_eq_iff _ _).0 same) in
                absurd (omega arith)
            | inr differs ↦ rw a (update_at_self T key _ _ t ∙ (rw f (rw differs)))
          ]
          | inr n ↦ rw n f
        ]

    drop_keeps :
        (current : Option Text) (holder : String) (d : Call Text) (t : Tab)
        → holder ≢ d.holder
        → find_unique key t ≡ some (value rt T key d)
        → find_unique key (drop_owned rt T key holder current t) ≡ some (value rt T key d)
    unfolding drop_owned
    drop_keeps current holder d t n f = elim (Option-cases (parse_lease rt current)) [
      | inl p ↦ rw (p, drop_owned) f
      | inr (r, p) ↦ elim (Bool-cases (str_eq r.holder holder)) [
        | inl mine ↦ elim (Bool-cases (text_eq (value rt T key d) (value_or_empty rt current))) [
          | inl same ↦ absurd (
              n (
                sym ((eq_iff _ _).0 mine)
                ∙ holder_of_current current r _ p ((text_eq_iff _ _).0 same)))
          | inr differs ↦
              rw (p, drop_owned) (rw mine (delete_at_self T key _ t ∙ (rw f (rw differs))))
        ]
        | inr other ↦ rw (p, drop_owned) (rw other f)
      ]
    ]

    -- A statement of another call leaves a lease that is still running where it is.
    pub step_keeps :
        (phase : Phase Text) (c d : Call Text) (t : Tab)
        → c.now < expiry rt T key d
        → c.holder ≢ d.holder
        → find_unique key t ≡ some (value rt T key d)
        → find_unique key (step_phase rt T key phase c t).1 ≡ some (value rt T key d)
    unfolding step_phase
    step_keeps idle c d t l n f = f
    step_keeps started c d t l n f =
        elim (Option-cases (create (λ _ _. false) key (value rt T key c) t)) [
          | inl e ↦ rw (e, step_phase) f
          | inr (u, e) ↦
              let free = T.create_new_key (λ _ _. false) key (value rt T key c) t u e in cc
        ]
    step_keeps (seen current) c d t l n f = claim_keeps current c.holder c.now c.ttl d t l f
    step_keeps (leaving current) c d t l n f = drop_keeps current c.holder d t n f
    step_keeps _ c d t l n f = f

    claim_takes :
        (current : Option Text) (holder : String) (now ttl : ℕ) (t : Tab)
        → is_holding {Text = Text} (phase_of (claim_expired rt T key holder now ttl current t).0)
          ≡ true
        → find_unique key (claim_expired rt T key holder now ttl current t).1
          ≡ some (stringify (lease_for rt holder now ttl))
    unfolding claim_expired
    claim_takes current holder now ttl t h =
        elim (Bool-cases (lease_is_available rt (parse_lease rt current) now)) [
          | inl a ↦ rw a (
              update_at_self T key _ _ t
              ∙ claimed (find_unique key t) (
                  ground (
                    arith,
                    T.count_at_hits key (λ v. text_eq v (value_or_empty rt current)) t,
                    refusal_away (parse_lease rt current),
                  )))
          | inr n ↦ ground (arith, refusal_away (parse_lease rt current))
        ]
      where
        claimed :
            (o : Option Text)
            → hits (λ v. text_eq v (value_or_empty rt current)) o ≡ 1
            → patched
                (λ v. text_eq v (value_or_empty rt current))
                (λ _. stringify (lease_for rt holder now ttl))
                o
              ≡ some (stringify (lease_for rt holder now ttl))
        claimed none e = absurd (omega arith)
        claimed (some v) e = ground arith

    -- A call that holds after its statement stands in the row, or held before it and read only.
    pub step_takes :
        (phase : Phase Text) (c : Call Text) (t : Tab)
        → is_holding {Text = Text} (step_phase rt T key phase c t).0 ≡ true
        → (find_unique key (step_phase rt T key phase c t).1 ≡ some (value rt T key c))
          ⊎ ((is_holding {Text = Text} phase ≡ true) × ((step_phase rt T key phase c t).1 ≡ t))
    unfolding step_phase
    step_takes started c t h =
        elim (Option-cases (create (λ _ _. false) key (value rt T key c) t)) [
          | inl e ↦ let h' = rw (e, step_phase) at h in cc
          | inr (u, e) ↦ inl (rw (e, step_phase) (create_self T _ key _ t u e))
        ]
    step_takes (seen current) c t h = inl (claim_takes current c.holder c.now c.ttl t h)
    step_takes held c t h = inr (refl, refl)
    step_takes _ c t h = cc

    pub step_busy :
        (phase : Phase Text) (c : Call Text) (t : Tab)
        → is_idle (step_phase rt T key phase c t).0 ≡ is_idle phase
    unfolding step_phase
    step_busy started c t = ground arith
    step_busy (seen current) c t =
        busy_outcome (claim_expired rt T key c.holder c.now c.ttl current t).0
    step_busy _ c t = refl

    pub step_idle :
        (phase : Phase Text) (c : Call Text) (t : Tab)
        → is_idle phase ≡ true
        → (step_phase rt T key phase c t).1 ≡ t
    unfolding step_phase
    step_idle idle c t h = refl
    step_idle _ c t h = cc
