-- ===== src/Cron/Lane.antt =====
-- The lease of a cron lane (src/lib/cron/lane.ts): `leaseIsAvailable`, `parseLease`, `acquireLane`
-- and `releaseLane`, over the `AppSetting` table. `JSON` and `Date` come in as `Runtime`.
pub mod Calls
pub mod Statements
pub mod Exclusion
use internship_pilot.Prelude.{
  ℕ, ◌+◌, ◌≡◌, Bool, true, false, not, Option, none, some, leb, ◌==◌, if◌then◌else◌, String, str_eq,
  ◌↔◌,
}
use internship_pilot.Database.{Table}

pub record LeaseRecord : Type 0 where
  pub holder : String
  pub acquired_at : String
  pub expires_at : String

-- What `JSON.parse` may give back: each field may be missing or no text.
pub record PartialLease : Type 0 where
  pub holder : Option String
  pub acquired_at : Option String
  pub expires_at : Option String

-- The texts of the `value` column, `JSON` and `Date`.
pub record Runtime : Type 1 where
  pub Text : Type 0
  pub text_eq : Text → Text → Bool
  pub text_eq_iff : (a b : Text) → (text_eq a b ≡ true) ↔ (a ≡ b)
  pub empty : Text
  pub stringify : LeaseRecord → Text
  pub parse_json : Text → Option PartialLease
  pub to_iso : ℕ → String
  pub parse_date : String → Option ℕ
  pub stringify_nonempty : (r : LeaseRecord) → text_eq (stringify r) empty ≡ false
  pub parse_json-stringify :
      (r : LeaseRecord)
      → parse_json (stringify r)
        ≡ some (record {
          holder = some r.holder;
          acquired_at = some r.acquired_at;
          expires_at = some r.expires_at;
        })
  pub parse_date-to_iso : (t : ℕ) → parse_date (to_iso t) ≡ some t

pub data LeaseOutcome : Type 0 where
  acquired : String → LeaseOutcome
  refused : String → String → LeaseOutcome

abbrev pub get_or_text : Option String → String → String
get_or_text none d = d
get_or_text (some s) d = s

module _ (rt : Runtime) where
  open rt use {Text, text_eq, empty, stringify, parse_json, to_iso, parse_date}

  -- A lease whose expiry is no date is available.
  abbrev pub lease_is_available : Option LeaseRecord → ℕ → Bool
  lease_is_available none now = true
  lease_is_available (some existing) now = elim (parse_date existing.expires_at) [
    | none ↦ true
    | some expires_at ↦ leb expires_at now
  ]

  abbrev pub lease_of_fields : Option String → Option String → Option String → Option LeaseRecord
  lease_of_fields (some h) a (some e) =
      some (record { holder = h; acquired_at = get_or_text a e; expires_at = e })
  lease_of_fields _ _ _ = none

  abbrev pub parse_lease : Option Text → Option LeaseRecord
  parse_lease none = none
  parse_lease (some value) = if text_eq value empty then none else elim (parse_json value) [
    | none ↦ none
    | some parsed ↦ lease_of_fields parsed.holder parsed.acquired_at parsed.expires_at
  ]

  abbrev pub value_or_empty : Option Text → Text
  value_or_empty none = empty
  value_or_empty (some v) = v

  abbrev pub refusal : Option LeaseRecord → LeaseOutcome
  refusal none = refused "unknown" "unknown"
  refusal (some existing) = refused existing.holder existing.expires_at

  -- The record that a call of `acquireLane` writes.
  abbrev pub lease_for : String → ℕ → ℕ → LeaseRecord
  lease_for holder now ttl = record {
    holder = holder;
    acquired_at = to_iso now;
    expires_at = to_iso (now + ttl);
  }

  module _ (T : Table Text) (key : String) where
    open T use {Tab, find_unique, create, update_at, count_at, delete_at}

    -- Only an expired lease may be reclaimed, by a compare-and-set on the value that was read.
    unfoldable pub claim_expired : String → ℕ → ℕ → Option Text → Tab → LeaseOutcome × Tab
    claim_expired holder now ttl current t =
        let existing = parse_lease current in
        let same = λ (v : Text). text_eq v (value_or_empty current) in
        if not (lease_is_available existing now) then (refusal existing, t) else (
          if count_at key same t == 1 then acquired holder else refusal existing,
          update_at key same (λ _. stringify (lease_for holder now ttl)) t,
        )

    unfoldable pub acquire_lane : String → ℕ → ℕ → Tab → LeaseOutcome × Tab
    unfolding claim_expired
    acquire_lane holder now ttl t =
        elim (create (λ _ _. false) key (stringify (lease_for holder now ttl)) t) [
          | some u ↦ (acquired holder, u)
          | none ↦ claim_expired holder now ttl (find_unique key t) t
        ]

    -- The second half of `releaseLane`, after the row was read.
    unfoldable pub drop_owned : String → Option Text → Tab → Tab
    drop_owned holder current t = elim (parse_lease current) [
      | none ↦ t
      | some existing ↦
          if str_eq existing.holder holder
          then delete_at key (λ v. text_eq v (value_or_empty current)) t
          else t
    ]

    unfoldable pub release_lane : String → Tab → Tab
    unfolding drop_owned
    release_lane holder t = drop_owned holder (find_unique key t) t
