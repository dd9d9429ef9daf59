-- ===== src/Cron/Lane/Exclusion.antt =====
-- Why two calls never hold the lease of one lane at the same time.
use internship_pilot.Prelude.{
  ℕ, ◌≤◌, ◌<◌, ◌≡◌, ◌≢◌, ◌⊎◌, inl, inr, refl, sym, ap, ◌∙◌, subst, arith, true, false, some, ◌==◌,
  ==_iff, String, Bool-cases,
}
use mathlib.Core.Bool.{true≢false}
use mathlib.Core.Option.{some-injective}
use native.Mathlib.Decide.{dec_lt}
use internship_pilot.Database.{Table}
use internship_pilot.Cron.Lane.{Runtime, lease_for}
use internship_pilot.Cron.Lane.Calls.{
  started, is_idle, is_holding, Call, value, expiry, System, put_call, advance, Step, begin, run,
  tick, Reach, here, next,
}
use internship_pilot.Cron.Lane.Statements.{
  parse_lease-stringify, holder_of_current, busy_of_holding, step_keeps, step_takes, step_busy,
  step_idle,
}

module _ (rt : Runtime) where
  open rt use {Text, stringify}

  module _ (T : Table Text) (key : String) where
    open T use {Tab, find_unique}

    abbrev Owned : Tab → ℕ → Call Text → Type 0
    Owned t clock c = (find_unique key t ≡ some (value rt T key c)) ⊎ (expiry rt T key c ≤ clock)

    -- What holds at every moment: clocks run forward, holder names are unique, and a call that holds
    -- the lease stands in the row unless its lease has expired.
    record Inv (s : System rt T key) : Type 0 where
      begun : (i : ℕ) → is_idle (s.calls i).phase ≡ false → (s.calls i).now ≤ s.clock
      distinct :
          (i j : ℕ)
          → is_idle (s.calls i).phase ≡ false
          → is_idle (s.calls j).phase ≡ false
          → (s.calls i).holder ≡ (s.calls j).holder
          → i ≡ j
      owned : (i : ℕ) → is_holding (s.calls i).phase ≡ true → Owned s.table s.clock (s.calls i)

    Owned-same :
        (t : Tab) (clock : ℕ) (c d : Call Text)
        → c.holder ≡ d.holder
        → c.now ≡ d.now
        → c.ttl ≡ d.ttl
        → Owned t clock c
        → Owned t clock d
    Owned-same t clock c d p q r (inl f) = inl (f ∙ ap some (ap stringify same))
      where
        same : lease_for rt c.holder c.now c.ttl ≡ lease_for rt d.holder d.now d.ttl
        same = cc
    Owned-same t clock c d p q r (inr l) = inr (omega arith)

    module _ (i : ℕ) (s : System rt T key) where
      -- A statement changes no call's name, times or busyness.
      advance_fields :
          (j : ℕ)
          → (((advance rt T key i s).calls j).holder ≡ (s.calls j).holder)
            × (((advance rt T key i s).calls j).now ≡ (s.calls j).now)
            × (((advance rt T key i s).calls j).ttl ≡ (s.calls j).ttl)
            × (is_idle ((advance rt T key i s).calls j).phase ≡ is_idle (s.calls j).phase)
      unfolding advance
      advance_fields j =
          ground (arith, ==_iff j i, step_busy rt T key (s.calls i).phase (s.calls i) s.table)

      advance_other :
          (j : ℕ)
          → Inv s
          → j ≢ i
          → is_holding (s.calls j).phase ≡ true
          → (find_unique key (advance rt T key i s).table ≡ some (value rt T key (s.calls j)))
            ⊎ (expiry rt T key (s.calls j) ≤ s.clock)
      unfolding advance
      advance_other j h n b = elim (Bool-cases (is_idle (s.calls i).phase)) [
        | inl rest ↦
            rw (step_idle rt T key (s.calls i).phase (s.calls i) s.table rest) (h.owned j b)
        | inr busy ↦ elim (h.owned j b) [
          | inr l ↦ inr l
          | inl f ↦ elim (dec_lt s.clock (expiry rt T key (s.calls j))) [
            | yes running ↦
                let begun = h.begun i busy in
                inl (
                  step_keeps rt T key (s.calls i).phase (s.calls i) (s.calls j) s.table
                    (omega arith) (λ e. n (sym (h.distinct i j busy (busy_of_holding rt _ b) e))) f)
            | no over ↦ inr (omega arith)
          ]
        ]
      ]

      advance_self :
          Inv s
          → is_holding ((advance rt T key i s).calls i).phase ≡ true
          → (find_unique key (advance rt T key i s).table ≡ some (value rt T key (s.calls i)))
            ⊎ (expiry rt T key (s.calls i) ≤ s.clock)
      unfolding advance
      advance_self h b =
          elim (step_takes rt T key (s.calls i).phase (s.calls i) s.table
            (ground (arith, ==_iff i i))) [
              | inl f ↦ inl f
              | inr (was, same) ↦ rw same (h.owned i was)
            ]

      advance_clock : (advance rt T key i s).clock ≡ s.clock
      unfolding advance
      advance_clock = refl

      held_before :
          (j : ℕ)
          → (j == i) ≡ false
          → is_holding ((advance rt T key i s).calls j).phase ≡ true
          → is_holding (s.calls j).phase ≡ true
      unfolding advance
      held_before j n b = ground arith

      advance-Owned :
          (j : ℕ)
          → Inv s
          → is_holding ((advance rt T key i s).calls j).phase ≡ true
          → Owned (advance rt T key i s).table s.clock (s.calls j)
      advance-Owned j h b = elim (Bool-cases (j == i)) [
        | inl own ↦
            let e : j ≡ i = (==_iff j i).0 own in
            subst (λ k. Owned (advance rt T key i s).table s.clock (s.calls k)) (sym e)
              (advance_self h
                (subst (λ k. is_holding ((advance rt T key i s).calls k).phase ≡ true) e b))
        | inr other ↦ advance_other j h (λ e. ground (arith, ==_iff j i)) (held_before j other b)
      ]

      advance-Inv : Inv s → Inv (advance rt T key i s)
      advance-Inv h = record {
        begun = λ j b. ground (arith, h.begun j, advance_fields j, advance_clock);
        distinct = λ j k b c e.
            h.distinct j k (sym (advance_fields j).3 ∙ b) (sym (advance_fields k).3 ∙ c)
              (sym (advance_fields j).0 ∙ e ∙ (advance_fields k).0);
        owned = λ j b.
            let (p, q, r, _) = advance_fields j in
            rw advance_clock (
              Owned-same (advance rt T key i s).table s.clock (s.calls j)
                ((advance rt T key i s).calls j) (sym p) (sym q) (sym r) (advance-Owned j h b));
      }

    begin-Inv :
        (i : ℕ) (holder : String) (ttl : ℕ) (s : System rt T key)
        → is_idle (s.calls i).phase ≡ true
        → ((j : ℕ) → is_idle (s.calls j).phase ≡ false → (s.calls j).holder ≢ holder)
        → Inv s
        → Inv (record s {
          calls =
              put_call rt T key i
                (record { phase = started; holder = holder; now = s.clock; ttl = ttl })
                s;
        })
    begin-Inv i holder ttl s free fresh h = record {
      begun = λ j b. ground (arith, h.begun j);
      distinct =
          λ j k b c e. ground (arith, ==_iff j i, ==_iff k i, h.distinct j k, fresh j, fresh k);
      owned = λ j b. ground (arith, h.owned j);
    }

    Step-Inv : {s u : System rt T key} → Step rt T key s u → Inv s → Inv u
    Step-Inv {s} (begin i holder ttl free fresh e) h =
        subst Inv (sym e) (begin-Inv i holder ttl s free fresh h)
    Step-Inv {s} (run i e) h = subst Inv (sym e) (advance-Inv i s h)
    Step-Inv {s} (tick d e) h = subst Inv (sym e) (record {
      begun = λ j b. omega (arith, h.begun j b);
      distinct = h.distinct;
      owned = λ j b. elim (h.owned j b) [ inl f ↦ inl f | inr l ↦ inr (omega arith) ];
    })

    Reach-Inv : {s u : System rt T key} → Reach rt T key s u → Inv s → Inv u
    Reach-Inv here h = h
    Reach-Inv (next r st) h = Step-Inv st (Reach-Inv r h)

    all_idle-Inv : (s : System rt T key) → ((i : ℕ) → is_idle (s.calls i).phase ≡ true) → Inv s
    all_idle-Inv s idle_all = record {
      begun = λ i b. absurd (true≢false (sym (idle_all i) ∙ b));
      distinct = λ i j b c e. absurd (true≢false (sym (idle_all i) ∙ b));
      owned = λ i b. absurd (true≢false (sym (idle_all i) ∙ busy_of_holding rt _ b));
    }

    -- Mutual exclusion of a lane's lease. From a system in which no call runs, whatever the stored
    -- row, and after any interleaving of the calls' database statements, clock ticks and new calls
    -- under holder names of their own: two calls that hold the lease, neither of which has reached
    -- its expiry, are one call.
    pub at_most_one_holder :
        (s u : System rt T key)
        → ((i : ℕ) → is_idle (s.calls i).phase ≡ true)
        → Reach rt T key s u
        → (i j : ℕ) → is_holding (u.calls i).phase ≡ true
        → is_holding (u.calls j).phase ≡ true
        → u.clock < expiry rt T key (u.calls i)
        → u.clock < expiry rt T key (u.calls j)
        → i ≡ j
    at_most_one_holder s u idle_all r i j hi hj li lj =
        let h = Reach-Inv r (all_idle-Inv s idle_all) in
        h.distinct i j (busy_of_holding rt _ hi) (busy_of_holding rt _ hj)
          (same_holder (h.owned i hi) (h.owned j hj))
      where
        same_holder :
            Owned u.table u.clock (u.calls i)
            → Owned u.table u.clock (u.calls j)
            → (u.calls i).holder ≡ (u.calls j).holder
        same_holder (inr l) q = absurd (omega arith)
        same_holder (inl f) (inr l) = absurd (omega arith)
        same_holder (inl f) (inl g) =
            let ci = u.calls i in
            let cj = u.calls j in
            holder_of_current rt (some (value rt T key ci)) _ (lease_for rt cj.holder cj.now cj.ttl)
              (parse_lease-stringify rt _) (some-injective _ _ (sym g ∙ f))
